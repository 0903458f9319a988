-- ===== src/Store/Purge/Bounds.antt =====
-- How many rows a purge leaves, and the next sequence number.
use meshelf.Base.{
  ℕ, suc, ◌+◌, ◌≤◌, ◌≡◌, refl, sym, ap, ◌∙◌, ◌≢◌, List, [], ◌∷◌, map, some, arith, ok, All, All-map,
  All-map2, All-take, Pairs, Pairs-take, length, take, length-take,
}
use meshelf.Base.Map.{Key, Map, lookup, erase, Distinct}
use meshelf.Base.Map.Laws.{lookup-erase, erase-All, erase-Pairs, length-erase, Distinct-lookup}
use meshelf.Base.Sort.{sort, sort-All, sort-Pairs, length-sort}
use meshelf.Core.Model.{u32_max, u64_max}
use meshelf.Store.Database.{Faults, no_faults, called_each_calm, decode, remove}
use meshelf.Store.Purge.{
  row_before, target, oldest, remove_all, purge_oldest, maximum, next_sequence,
}

module _ {K V : Type 0} ⦃key : Key K⦄ where
  pub remove_all-All :
      (P : K × V → Type 0) (ks : List K) (m : Map K V) → All P m → All P (remove_all ks m)
  unfolding remove_all
  remove_all-All P [] m h = h
  remove_all-All P (k ∷ ks) m h = remove_all-All P ks (erase k m) (erase-All P k m h)

  pub remove_all-Pairs :
      (R : K × V → K × V → Type 0) (ks : List K) (m : Map K V)
      → Pairs R m
      → Pairs R (remove_all ks m)
  unfolding remove_all
  remove_all-Pairs R [] m h = h
  remove_all-Pairs R (k ∷ ks) m h = remove_all-Pairs R ks (erase k m) (erase-Pairs R k m h)

  abbrev Present : Map K V → K → Type 0
  Present m k = (v : V) × (lookup k m ≡ some v)

  Present-erase : (k : K) (m : Map K V) (j : K) → j ≢ k → Present m j → Present (erase k m) j
  Present-erase k m j other (v, found) = (v, ground (arith, lookup-erase k j m, key.eqb_iff k j))

  length-remove_all :
      (ks : List K) (m : Map K V)
      → Distinct m
      → Pairs (λ j k. k ≢ j) ks
      → All (Present m) ks
      → length (remove_all ks m) + length ks ≡ length m
  unfolding remove_all
  length-remove_all [] m d u p = omega arith
  length-remove_all (k ∷ ks) m d u p =
      let rest =
        length-remove_all ks (erase k m) (erase-Pairs _ k m d) u.1
          (All-map2 (Present-erase k m) ks u.0 p.1) in
      omega (arith, rest, length-erase k m d p.0.1)

map-keys-All :
    {K V : Type 0} (k : K) (m : Map K V)
    → All (λ e. e.0 ≢ k) m
    → All (λ j. j ≢ k) (map (λ e. e.0) m)
map-keys-All k [] h = tt
map-keys-All k (e ∷ m) h = (h.0, map-keys-All k m h.1)

map-keys-Pairs : {K V : Type 0} (m : Map K V) → Distinct m → Pairs (λ j k. k ≢ j) (map (λ e. e.0) m)
map-keys-Pairs [] d = tt
map-keys-Pairs (e ∷ m) d = (map-keys-All e.0 m d.0, map-keys-Pairs m d.1)

map-keys-length : {K V : Type 0} (m : Map K V) → length (map (λ e. e.0) m) ≡ length m
map-keys-length [] = refl
map-keys-length (e ∷ m) = ap suc (map-keys-length m)

map-keys-Present :
    {K V : Type 0} ⦃key : Key K⦄ (rows m : Map K V)
    → All (λ e. lookup e.0 rows ≡ some e.1) m
    → All (Present rows) (map (λ e. e.0) m)
map-keys-Present rows [] h = tt
map-keys-Present rows (e ∷ m) h = ((e.1, h.0), map-keys-Present rows m h.1)

module _ {K V : Type 0} ⦃key : Key K⦄ (sequence : V → ℕ) where
  pub purge_oldest-eq-ok :
      (db : Faults) (rows : Map K V) {n : ℕ} {kept : Map K V}
      → purge_oldest sequence db rows ≡ ok (n, kept)
      → (n ≡ target rows) × (kept ≡ remove_all (oldest sequence rows) rows)
  unfolding purge_oldest
  purge_oldest-eq-ok db rows h = ground arith

  abbrev newest_last : Map K V → Map K V
  newest_last = sort (row_before sequence)

  pub length-oldest : (rows : Map K V) → length (oldest sequence rows) ≡ target rows
  unfolding oldest
  length-oldest rows =
      map-keys-length (take (target rows) (newest_last rows))
      ∙ omega (
        arith,
        length-take (target rows) (newest_last rows),
        length-sort (row_before sequence) rows,
      )

  -- A purge leaves all rows but the oldest ones, and at most nine.
  pub length-purged :
      (rows : Map K V)
      → Distinct rows
      → length (remove_all (oldest sequence rows) rows) + target rows ≡ length rows
  unfolding oldest
  length-purged rows d =
      let s = newest_last rows in
      let distinct = sort-Pairs (row_before sequence) _ (λ e f n p. n (sym p)) rows d in
      let found = sort-All (row_before sequence) _ rows (Distinct-lookup rows d) in
      omega (
        arith,
        length-oldest rows,
        length-remove_all (oldest sequence rows) rows d
            (map-keys-Pairs (take (target rows) s) (Pairs-take _ (target rows) s distinct))
            (map-keys-Present rows (take (target rows) s) (All-take _ (target rows) s found)),
      )

  pub maximum-bound : (rows : Map K V) → All (λ e. sequence e.1 ≤ maximum sequence rows) rows
  unfolding maximum
  maximum-bound [] = tt
  maximum-bound ((k, v) ∷ rows) = (
    omega arith,
    All-map (λ e (p : sequence e.1 ≤ maximum sequence rows). omega arith) rows (maximum-bound rows),
  )

  -- The next number is one above the greatest, and fits 64 bits.
  pub next_sequence-eq-ok :
      (db : Faults) (rows : Map K V) {n : ℕ}
      → next_sequence sequence db rows ≡ ok n
      → (n ≡ maximum sequence rows + 1) × (n ≤ u64_max)
  unfolding next_sequence
  next_sequence-eq-ok db rows h = ground arith

  -- Without faults neither refuses, where the numbers fit.
  pub purge_oldest_calm :
      (rows : Map K V)
      → length rows ≤ u32_max
      → purge_oldest sequence no_faults rows
        ≡ ok (target rows, remove_all (oldest sequence rows) rows)
  unfolding purge_oldest
  purge_oldest_calm rows h =
      rw (called_each_calm decode rows, called_each_calm remove (oldest sequence rows))
        (ground arith)

  pub next_sequence_calm :
      (rows : Map K V)
      → maximum sequence rows + 1 ≤ u64_max
      → next_sequence sequence no_faults rows ≡ ok (maximum sequence rows + 1)
  unfolding next_sequence
  next_sequence_calm rows h = rw (called_each_calm decode rows) (ground arith)
