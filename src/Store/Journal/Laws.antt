-- ===== src/Store/Journal/Laws.antt =====
-- The activation journal: the invariant of its entries, what is read back, and how `prepare_staging`
-- ends (crates/meshelf-store/src/v2.rs).
use meshelf.Base.{
  ◌++◌, List, ◌∷◌, ◌≡◌, refl, sym, ap, ◌∙◌, ◌⊎◌, inl, inr, true, arith, All, All-In, none, some, [],
  ok, err, Option-cases, Result-cases, Result, subst,
}
use meshelf.Base.Map.{nat_key, lookup, erase, insert, Distinct}
use meshelf.Base.Map.Laws.{
  insert-Distinct, insert-All, erase-Distinct, erase-All, lookup-insert, lookup-In, eqb_refl,
}
use meshelf.Core.Model.{ActivationId}
use meshelf.Base.Text.{Text, lit}
use meshelf.Core.Offer.{HostPath}
use meshelf.Core.Activation.{ActivationState, ActivationJournalEntry}
use meshelf.Core.Records.{StoreError, external}
use meshelf.Store.Database.{Faults, no_faults, RedbV2Store}
use meshelf.Platform.Filesystem.{TreeError, Directories, ensure_directory_tree}
use meshelf.Platform.Filesystem.Laws.{WasMissing, Grown, ensure_directory_tree-Grown}
use meshelf.Store.Journal.{
  JournalRows, journal_rows, journal_activation, get_activation_journal, Staged, ancestry_outcome,
  staging_ancestry, make_staging, after_journal, after_ancestry, prepare_staging, update_rows,
  update_activation_state,
}

pub record IsJournalRow (e : ActivationId × ActivationJournalEntry) : Type 0 where
  pub keyed : e.0 ≡ e.1.activation_id
  pub absolute : e.1.staging_root.is_absolute ≡ true

pub record IsJournal (rows : JournalRows) : Type 0 where
  pub distinct : Distinct rows
  pub fits : All IsJournalRow rows

pub erase-IsJournal :
    (id : ActivationId) (rows : JournalRows) → IsJournal rows → IsJournal (erase id rows)
erase-IsJournal id rows h = record {
  distinct = erase-Distinct id rows h.distinct;
  fits = erase-All IsJournalRow id rows h.fits;
}

insert-IsJournal :
    (entry : ActivationJournalEntry) (rows : JournalRows)
    → entry.staging_root.is_absolute ≡ true
    → IsJournal rows
    → IsJournal (insert entry.activation_id entry rows)
insert-IsJournal entry rows absolute h = record {
  distinct = insert-Distinct entry.activation_id entry rows h.distinct;
  fits =
      insert-All IsJournalRow entry.activation_id entry rows
        (record { keyed = refl; absolute = absolute }) h.fits;
}

-- Journaling an activation keeps the journal valid, whatever the database reports.
pub journal_activation-IsJournal :
    (db : Faults) (entry : ActivationJournalEntry) (store : RedbV2Store)
    → IsJournal store.activation_journal
    → IsJournal (journal_activation db entry store).1.activation_journal
unfolding journal_activation journal_rows
journal_activation-IsJournal db entry store h =
    elim (Result-cases (journal_rows db entry store.activation_journal)) [
      | inl ((u, rows'), e) ↦
          let absolute : entry.staging_root.is_absolute ≡ true = ground arith in
          let same : rows' ≡ insert entry.activation_id entry store.activation_journal =
            ground arith in
          rw (e, same) (insert-IsJournal entry store.activation_journal absolute h)
      | inr (x, e) ↦ rw e h
    ]

-- a change of state succeeds on an entry that is there, and writes nothing else
pub update_rows-eq-ok :
    (db : Faults) (id : ActivationId) (state : ActivationState) (rows rows' : JournalRows)
    → update_rows db id state rows ≡ ok (tt, rows')
    → (entry : ActivationJournalEntry) × (lookup id rows ≡ some entry)
      × (rows' ≡ insert id (record entry { state = state }) rows)
unfolding update_rows
update_rows-eq-ok db id state rows rows' e = elim (Option-cases (lookup id rows)) [
  | inl missing ↦ absurd (ground arith)
  | inr (entry, found) ↦ (entry, found, ground arith)
]

-- A change of an activation's state keeps the journal valid, whatever the database reports.
pub update_activation_state-IsJournal :
    (db : Faults) (id : ActivationId) (state : ActivationState) (store : RedbV2Store)
    → IsJournal store.activation_journal
    → IsJournal (update_activation_state db id state store).1.activation_journal
unfolding update_activation_state
update_activation_state-IsJournal db id state store h =
    let rows = store.activation_journal in
    elim (Result-cases (update_rows db id state rows)) [
      | inl ((u, rows'), e) ↦
          let (entry, found, same) = update_rows-eq-ok db id state rows rows' e in
          let fit = All-In IsJournalRow (id, entry) rows h.fits (lookup-In id entry rows found) in
          rw (e, same)
            (record {
              distinct = insert-Distinct id (record entry { state = state }) rows h.distinct;
              fits =
                  insert-All IsJournalRow id (record entry { state = state }) rows
                    (record { keyed = fit.keyed; absolute = fit.absolute }) h.fits;
            })
      | inr (x, e) ↦ rw e h
    ]

pub get_activation_journal_calm :
    (id : ActivationId) (store : RedbV2Store)
    → get_activation_journal no_faults id store ≡ ok (lookup id store.activation_journal)
unfolding get_activation_journal
get_activation_journal_calm id store = ground arith

journaled_rows :
    (db : Faults) (entry : ActivationJournalEntry) (rows : JournalRows) {u : Unit {0}}
    (rows' : JournalRows)
    → journal_rows db entry rows ≡ ok (u, rows')
    → lookup entry.activation_id rows' ≡ some entry
unfolding journal_rows
journaled_rows db entry rows rows' e =
    let same : rows' ≡ insert entry.activation_id entry rows = ground arith in
    ground (
      arith,
      lookup-insert entry.activation_id entry.activation_id entry rows,
      eqb_refl entry.activation_id,
    )

-- A journaled activation is read back.
journal_activation-get :
    (db : Faults) (entry : ActivationJournalEntry) (store store' : RedbV2Store)
    → journal_activation db entry store ≡ (ok tt, store')
    → get_activation_journal no_faults entry.activation_id store' ≡ ok (some entry)
unfolding journal_activation
journal_activation-get db entry store store' e =
    elim (Result-cases (journal_rows db entry store.activation_journal)) [
      | inl ((u, rows'), p) ↦
          let found = journaled_rows db entry store.activation_journal {u = u} rows' p in
          let same : record store { activation_journal = rows' } ≡ store' = ground arith in
          rw (sym same) (
            get_activation_journal_calm entry.activation_id
              (record store { activation_journal = rows' })
            ∙ ap ok found)
      | inr (x, p) ↦ absurd (ground arith)
    ]

-- a write that fails leaves the journal as it was
journal_activation-err :
    (db : Faults) (entry : ActivationJournalEntry) (store store' : RedbV2Store) (x : StoreError)
    → journal_activation db entry store ≡ (err x, store')
    → store' ≡ store
unfolding journal_activation
journal_activation-err db entry store store' x e =
    elim (Result-cases (journal_rows db entry store.activation_journal)) [
      | inl (done, p) ↦ absurd (ground arith)
      | inr (y, p) ↦ ground arith
    ]

make_staging_cases :
    (fs : Directories) (root : HostPath) (store : RedbV2Store) (made : List HostPath)
    → ((fs.create_dir root ≡ none)
        × (make_staging fs root store made ≡ (ok tt, (store, root ∷ made))))
      ⊎ ((error : Text) × (fs.create_dir root ≡ some error)
          × (x : StoreError) × (make_staging fs root store made ≡ (err x, (store, made))))
unfolding make_staging
make_staging_cases fs root store made = elim (Option-cases (fs.create_dir root)) [
  | inl e ↦ inl (e, rw (e, make_staging) refl)
  | inr (error, e) ↦
      inr (error, e, external (lit "staging creation failed: " ++ error), rw (e, make_staging) refl)
]

ancestry_outcome-made :
    (fs : Directories) (outcome : Result TreeError (Unit {0}) × List HostPath)
    → (ancestry_outcome fs outcome).1 ≡ outcome.1
ancestry_outcome-made fs (ok _, made) = refl
ancestry_outcome-made fs (err e, made) = refl

-- the directories above the staging root
abbrev pub above : Directories → ActivationJournalEntry → List HostPath
above fs entry = elim (fs.parent entry.staging_root) [
  | none ↦ []
  | some parent ↦ fs.prefixes parent
]

staging_ancestry-Grown :
    (fs : Directories) (entry : ActivationJournalEntry) (made : List HostPath)
    → Grown fs (above fs entry) made (staging_ancestry fs entry made).1
unfolding staging_ancestry
staging_ancestry-Grown fs entry made = elim (Option-cases (fs.parent entry.staging_root)) [
  | inl e ↦ rw (e, staging_ancestry) ([], refl, tt)
  | inr (parent, e) ↦
      let up : above fs entry ≡ fs.prefixes parent = rw (e, above) refl in
      let walked = ensure_directory_tree fs parent made in
      let ended : (staging_ancestry fs entry made).1 ≡ walked.1 =
        rw (e, staging_ancestry) (ancestry_outcome-made fs walked) in
      subst (λ paths. Grown fs paths made (staging_ancestry fs entry made).1) (sym up)
        (subst (Grown fs (fs.prefixes parent) made) (sym ended)
          (ensure_directory_tree-Grown fs parent made))
]

module _ (fs : Directories) (db : Faults) (entry : ActivationJournalEntry)
    (store : RedbV2Store) where
  -- the walk or the journal refused with this error
  abbrev pub Refused : Result StoreError (Unit {0}) → StoreError → Type 0
  Refused walked x = (walked ≡ err x) ⊎ ((journal_activation db entry store).0 ≡ err x)

  -- how prepare_staging ends, from the directories that are there after the walk
  abbrev pub Prepared : Result StoreError (Unit {0}) → List HostPath → Staged → Type 0
  Prepared walked made staged =
      ((x : StoreError) × Refused walked x × (staged ≡ (err x, (store, made))))
      ⊎ (store' : RedbV2Store) × (get_activation_journal no_faults entry.activation_id store'
          ≡ ok (some entry))
        × (((fs.create_dir entry.staging_root ≡ none)
              × (staged ≡ (ok tt, (store', entry.staging_root ∷ made))))
            ⊎ ((error : Text) × (fs.create_dir entry.staging_root ≡ some error)
                × (x : StoreError) × (staged ≡ (err x, (store', made)))))

  after_ancestry-Prepared :
      (walked : Result StoreError (Unit {0}) × List HostPath)
      → Prepared walked.0 walked.1 (after_ancestry fs db entry store walked)
  unfolding after_ancestry after_journal
  after_ancestry-Prepared (err x, made) = inl (x, inl refl, refl)
  after_ancestry-Prepared (ok _, made) =
      let after = (journal_activation db entry store).1 in
      elim (Result-cases (journal_activation db entry store).0) [
        | inl (v, p) ↦
            let held = journal_activation-get db entry store after (ap (λ r. (r, after)) p) in
            inr (
              after,
              held,
              rw (p, after_journal) (make_staging_cases fs entry.staging_root after made),
            )
        | inr (x, p) ↦
            let same = journal_activation-err db entry store after x (ap (λ r. (r, after)) p) in
            inl (x, inr p, rw (p, after_journal) (ap (λ s. (err x, (s, made))) same))
      ]

-- Whatever the database and the operating system report, prepare_staging adds to the directories
-- made before only ones above the staging root that were missing, and ends in one of three ways:
-- the walk over these or the journal refused, and it fails with that error, the store as it was and
-- no further directory; or the journal holds the entry, and the staging root is made last and the
-- result is ok; or the journal holds the entry, the system refused to make the staging root, no
-- further directory is made and the result is an error.
pub prepare_staging_write_ahead :
    (fs : Directories) (db : Faults) (entry : ActivationJournalEntry) (store : RedbV2Store)
    (made : List HostPath)
    → (new : List HostPath) × All (WasMissing fs (above fs entry)) new
      × Prepared fs db entry store
          (staging_ancestry fs entry made).0
          (new ++ made)
          (prepare_staging fs db entry store made)
unfolding prepare_staging
prepare_staging_write_ahead fs db entry store made =
    let walked = staging_ancestry fs entry made in
    let (new, same, was) = staging_ancestry-Grown fs entry made in
    (
      new,
      was,
      subst (λ m. Prepared fs db entry store walked.0 m (after_ancestry fs db entry store walked))
          same (after_ancestry-Prepared fs db entry store walked),
    )
