-- ===== src/Store/Purge/Count.antt =====
-- How many rows a purge and an insertion leave together.
use meshelf.Base.{ℕ, ◌+◌, ◌≡◌, none, arith, length}
use meshelf.Base.Map.{Key, Map, lookup, insert, Distinct}
use meshelf.Base.Map.Laws.{lookup-eq-none, insert_missing, length-place}
use meshelf.Store.Purge.{oldest, remove_all, target}
use meshelf.Store.Purge.Bounds.{length-purged}
use meshelf.Store.Purge.Oldest.{lookup-remove_all}

-- The rows after a new one are the rows before, that one more, and the purged ones fewer.
pub length-insert_purged :
    {K V : Type 0} ⦃key : Key K⦄ (sequence : V → ℕ) (k : K) (v : V) (rows : Map K V)
    → Distinct rows
    → lookup k rows ≡ none
    → length (insert k v (remove_all (oldest sequence rows) rows)) + target rows ≡ length rows + 1
length-insert_purged sequence k v rows distinct new =
    let kept = remove_all (oldest sequence rows) rows in
    let still : lookup k kept ≡ none =
      ground (arith, lookup-remove_all k (oldest sequence rows) rows) in
    rw (insert_missing k v kept (lookup-eq-none k kept still))
      (omega (arith, length-place k v kept, length-purged sequence rows distinct))
