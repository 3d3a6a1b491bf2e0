-- ===== src/Metadata.antt =====
-- internal/metadata: collections of records behind transactions, and the in-memory engine of
-- memory.go. Locks and the writer token make updates sequential; what a concurrent call can still
-- change between the checks of one update is in `Weather`.
pub mod Laws
pub mod Scans
pub mod Newest
use kuma_box.Prelude.{
  ℕ, Bool, true, false, ◌||◌, Option, none, some, List, [], ◌∷◌, if◌then◌else◌, Text, text_compare,
  Dict, lookup, insert, without,
}
use kuma_box.Errdefs.{Result, ok, err, plain, ◌>>=◌, ◌>>◌, refuse_if}
use Prim.Native.Nat.{Ordering}

-- memoryTransaction: a copy of every declared collection. `cancelled` is what ctx.Err reports while
-- the callback runs; a context that is cancelled part way fails the update as a whole.
pub record Transaction (Raw : Type 0) : Type 0 where
  pub cancelled : Bool
  pub records : Dict (Dict Raw)

module _ {Raw : Type 0} where
  -- collection.
  unfoldable pub collection : Transaction Raw → Text → Result (Dict Raw)
  collection t c = do
    refuse_if t.cancelled plain
    elim (lookup c t.records) [ none ↦ err plain | some entries ↦ ok entries ]

  -- Get; the flag of the source is the constructor.
  unfoldable pub get : Transaction Raw → Text → Text → Result (Option Raw)
  unfolding collection
  get t c key = do entries ← collection t c; ok (lookup key entries)

  -- Put.
  unfoldable pub put : Transaction Raw → Text → Text → Raw → Result (Transaction Raw)
  unfolding collection
  put t c key value = do
    entries ← collection t c
    ok (record t { records = insert c (insert key value entries) t.records })

  -- Delete.
  unfoldable pub delete : Transaction Raw → Text → Text → Result (Transaction Raw)
  unfolding collection
  delete t c key = do
    entries ← collection t c
    ok (record t { records = insert c (without key entries) t.records })

  -- slices.Sort on the keys.
  unfoldable pub insert_entry : Text × Raw → Dict Raw → Dict Raw
  insert_entry e [] = e ∷ []
  insert_entry e (x ∷ xs) = elim (text_compare e.0 x.0) [
    | Ordering.gt ↦ x ∷ insert_entry e xs
    | _ ↦ e ∷ x ∷ xs
  ]

  unfoldable pub sort_entries : Dict Raw → Dict Raw
  unfolding insert_entry
  sort_entries [] = []
  sort_entries (e ∷ es) = insert_entry e (sort_entries es)

  -- Scan: the callback runs at each key in order, and its first error ends the scan.
  unfoldable pub scan_entries {ℓ} :
      {S : Type ℓ} → (Text → Raw → S → Result S) → Dict Raw → S → Result S
  scan_entries visit [] s = ok s
  scan_entries visit ((key, raw) ∷ es) s = visit key raw s >>= scan_entries visit es

  unfoldable pub scan {ℓ} :
      {S : Type ℓ} → Transaction Raw → Text → (Text → Raw → S → Result S) → S → Result S
  unfolding scan_entries sort_entries collection
  scan t c visit s = do entries ← collection t c; scan_entries visit (sort_entries entries) s

-- Memory.
pub record Store (Raw : Type 0) : Type 0 where
  pub records : Dict (Dict Raw)
  pub closed : Bool

-- What the checks of one call see: the context when the call waits for its turn, while the callback
-- runs and at the commit, and a Close that comes while the callback runs.
pub record Weather : Type 0 where
  pub cancelled_waiting : Bool
  pub cancelled : Bool
  pub cancelled_commit : Bool
  pub closing : Bool

module _ {Raw : Type 0} where
  abbrev close_if : Bool → Store Raw → Store Raw
  close_if b s = record s { closed = s.closed || b }

  -- A transaction on what the store holds.
  abbrev pub begin : Bool → Store Raw → Transaction Raw
  begin cancelled s = record { cancelled = cancelled; records = s.records }

  -- snapshot.
  unfoldable pub snapshot : Weather → Store Raw → Result (Transaction Raw)
  snapshot w s = do refuse_if w.cancelled plain; refuse_if s.closed plain; ok (begin w.cancelled s)

  -- View.
  unfoldable pub view {ℓ} :
      {A : Type ℓ} → Weather → (Transaction Raw → Result A) → Store Raw → Result A
  unfolding snapshot
  view w read s = do t ← snapshot w s; a ← read t; refuse_if w.cancelled_commit plain; ok a

  abbrev commit {ℓ} :
      {A : Type ℓ} → Weather → Store Raw → Result (A × Transaction Raw) → Result A × Store Raw
  commit w s (err e) = (err e, close_if w.closing s)
  commit w s (ok (a, t)) =
      if w.cancelled_commit
      then (err plain, close_if w.closing s)
      else if s.closed || w.closing
      then (err plain, close_if w.closing s)
      else (ok a, record s { records = t.records })

  -- Update.
  unfoldable pub update {ℓ} :
      {A : Type ℓ}
      → Weather
      → (Transaction Raw → Result (A × Transaction Raw))
      → Store Raw
      → Result A × Store Raw
  unfolding snapshot
  update w body s =
      if w.cancelled_waiting
      then (err plain, close_if w.closing s)
      else commit w s (snapshot w s >>= body)

  -- Close.
  unfoldable pub close : Store Raw → Store Raw
  close s = record s { closed = true }
