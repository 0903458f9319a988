-- ===== src/Store/Rows.antt =====
-- The invariant of the two shelves of offers: their rows have distinct keys and distinct sequence
-- numbers, there are at most ten of them, and each satisfies what its insertion checked.
use meshelf.Base.{
  ℕ, suc, ◌+◌, ◌≤◌, ◌≡◌, sym, ◌≢◌, [], none, arith, some, All, All-map, Pairs, length,
}
use meshelf.Base.Map.{Key, Map, lookup, erase, insert, Distinct}
use meshelf.Base.Map.Laws.{
  lookup-eq-none, insert_missing, place-All, place-Pairs, length-place, erase-All, erase-Pairs,
  length-erase-le, length-erase, erase-Absent, Pairs-erase,
}
use meshelf.Core.Model.{max_live_entries}
use meshelf.Store.Purge.{oldest, remove_all, maximum}
use meshelf.Store.Purge.Bounds.{remove_all-All, remove_all-Pairs, length-purged, maximum-bound}

module _ {K V : Type 0} (sequence : V → ℕ) (Fits : K × V → Type 0) where
  abbrev pub Apart : K × V → K × V → Type 0
  Apart e f = sequence f.1 ≢ sequence e.1

  pub record IsShelf (rows : Map K V) : Type 0 where
    pub distinct : Distinct rows
    pub ordered : Pairs Apart rows
    pub live : length rows ≤ max_live_entries
    pub fits : All Fits rows

  pub IsShelf-empty : IsShelf []
  IsShelf-empty = record { distinct = tt; ordered = tt; live = omega arith; fits = tt }

module _ {K V : Type 0} ⦃key : Key K⦄ (sequence : V → ℕ) (Fits : K × V → Type 0) where
  module _ (rows : Map K V) (h : IsShelf sequence Fits rows) where
    pub purged-IsShelf : IsShelf sequence Fits (remove_all (oldest sequence rows) rows)
    purged-IsShelf = record {
      distinct = remove_all-Pairs _ (oldest sequence rows) rows h.distinct;
      ordered = remove_all-Pairs _ (oldest sequence rows) rows h.ordered;
      live = omega (arith, length-purged sequence rows h.distinct);
      fits = remove_all-All _ (oldest sequence rows) rows h.fits;
    }

    pub erase-IsShelf : (k : K) → IsShelf sequence Fits (erase k rows)
    erase-IsShelf k = record {
      distinct = erase-Pairs _ k rows h.distinct;
      ordered = erase-Pairs _ k rows h.ordered;
      live = omega (arith, length-erase-le k rows);
      fits = erase-All _ k rows h.fits;
    }

    pub insert-IsShelf :
        (k : K) (v : V)
        → lookup k rows ≡ none
        → suc (length rows) ≤ max_live_entries
        → sequence v ≡ maximum sequence rows + 1
        → Fits (k, v)
        → IsShelf sequence Fits (insert k v rows)
    insert-IsShelf k v new room next fits =
        let absent = lookup-eq-none k rows new in
        let above : All (λ e. sequence e.1 ≢ sequence v) rows =
          All-map (λ e (p : sequence e.1 ≤ maximum sequence rows). omega arith) rows
            (maximum-bound sequence rows) in
        rw (insert_missing k v rows absent) (record {
          distinct = place-Pairs _ (λ e f n p. n (sym p)) k v rows absent h.distinct;
          ordered = place-Pairs _ (λ e f n p. n (sym p)) k v rows above h.ordered;
          live = omega (arith, length-place k v rows);
          fits = place-All Fits k v rows fits h.fits;
        })

    -- a row written over another with the same key and sequence number
    pub replace-IsShelf :
        (k : K) (v w : V)
        → lookup k rows ≡ some v
        → sequence w ≡ sequence v
        → Fits (k, w)
        → IsShelf sequence Fits (insert k w rows)
    unfolding insert
    replace-IsShelf k v w found same fits =
        let rest = erase-IsShelf k in
        let apart : All (λ e. sequence e.1 ≢ sequence w) (erase k rows) =
          rw same
            (Pairs-erase (Apart sequence Fits) (λ e f n p. n (sym p)) k v rows found h.ordered) in
        record {
          distinct =
              place-Pairs _ (λ e f n p. n (sym p)) k w (erase k rows) (erase-Absent k rows)
                rest.distinct;
          ordered = place-Pairs _ (λ e f n p. n (sym p)) k w (erase k rows) apart rest.ordered;
          live = omega (
            arith,
            length-place k w (erase k rows),
            length-erase k rows h.distinct found,
            h.live,
          );
          fits = place-All Fits k w (erase k rows) fits rest.fits;
        }
