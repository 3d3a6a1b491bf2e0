-- ===== src/Snapshots/Access.antt =====
-- internal/snapshot/catalog/access.go: the buffer that holds usage times back from the store.
pub mod Persist
pub mod Retire
pub mod Steps
pub mod Bound
use kuma_box.Prelude.{
  ℕ, zero, suc, ◌+◌, Bool, true, false, not, ◌||◌, Option, none, some, List, [], ◌∷◌, if◌then◌else◌,
  ltb, ◌==◌, length, Text, text_eq, Dict, lookup, insert, without, u64,
}
use kuma_box.Errdefs.{Failure, Result, ok, err, plain, ◌>>=◌, ◌>>◌, refuse_if, in_context}
use kuma_box.Types.Snapshot.{Snapshot}
use kuma_box.Metadata.{Transaction, Store, Weather, get, view, update}
use kuma_box.Snapshots.Records.{SnapshotData, SnapshotCodecs, decode_snapshot, access_time}
use kuma_box.Snapshots.Operations.{
  snapshots, unknown_snapshot, corrupt_snapshot, bad_time, decode_data, load_data, put_data,
  finished, after, find_data,
}

-- accessBuffer, without its mutex and its flush token.
pub record Buffer : Type 0 where
  pub pending : Dict ℕ
  pub limit : ℕ
  pub generation : ℕ

-- Store, of a catalog that NewBuffered made.
pub record Buffered (Raw : Type 0) : Type 0 where
  pub store : Store Raw
  pub buffer : Buffer

-- NewBuffered: the capacity must be positive.
unfoldable pub new_buffered : {Raw : Type 0} → Store Raw → ℕ → Result (Buffered Raw)
new_buffered store capacity = do
  refuse_if (capacity == 0) plain
  ok (record { store = store; buffer = record { pending = []; limit = capacity; generation = 0 } })

-- The later of two times; a missing time is Go's zero time.
abbrev pub later : ℕ → ℕ → ℕ
later a b = if ltb a b then b else a

abbrev pub time_of : Option ℕ → ℕ
time_of none = 0
time_of (some a) = a

-- accesses.pending[id].
abbrev pub pending_at : Buffer → Text → ℕ
pending_at b id = time_of (lookup id b.pending)

abbrev pub is_pending : Option ℕ → Bool
is_pending none = false
is_pending (some a) = true

-- One pass of the loop of recordAccess: `none` is a buffer that is full.
unfoldable pub record_once : Buffer → Text → ℕ → Option (ℕ × Buffer)
record_once b id accessed =
    let latest = later accessed (pending_at b id) in
    if is_pending (lookup id b.pending) || ltb (length b.pending) b.limit
    then some (latest, record b { pending = insert id latest b.pending })
    else none

-- visibleAccess.
unfoldable pub visible_access : Buffer → Snapshot → Snapshot
visible_access b s = record s { last_accessed_at = later s.last_accessed_at (pending_at b s.id) }

-- What FlushAccesses forgets when its batch was committed.
unfoldable pub retire_entries : Dict ℕ → Dict ℕ → Dict ℕ
retire_entries [] pending = pending
retire_entries ((id, accessed) ∷ batch) pending =
    retire_entries batch
      (if ltb accessed (time_of (lookup id pending)) then pending else without id pending)

unfoldable pub retire : Dict ℕ → Buffer → Buffer
unfolding retire_entries
retire batch b = record b {
  pending = retire_entries batch b.pending;
  generation = u64 (b.generation + 1);
}

abbrev pub is_empty_batch : Dict ℕ → Bool
is_empty_batch [] = true
is_empty_batch (x ∷ xs) = false

module _ {Raw : Type 0} (c : SnapshotCodecs Raw) where
  abbrev persist_record : Transaction Raw → Text → ℕ → SnapshotData → Result (Transaction Raw)
  persist_record t id accessed d =
      if not d.ready || d.deleting || not (ltb (access_time d) accessed)
      then ok t
      else put_data c t id (record d { last_accessed_at = accessed })

  abbrev persist_raw : Transaction Raw → Text → ℕ → Option Raw → Result (Transaction Raw)
  persist_raw t id accessed none = ok t
  persist_raw t id accessed (some raw) = do
    d ← decode_data c raw
    refuse_if (not (text_eq d.id id)) corrupt_snapshot
    persist_record t id accessed d

  -- The callback of FlushAccesses for one entry.
  unfoldable pub persist_one : Transaction Raw → Text → ℕ → Result (Transaction Raw)
  persist_one t id accessed = do raw ← get t snapshots id; persist_raw t id accessed raw

  -- The callback of FlushAccesses, over the batch in the order in which the map gives it.
  unfoldable pub persist : Dict ℕ → Transaction Raw → Result (Unit {0} × Transaction Raw)
  persist [] t = ok (tt, t)
  persist ((id, accessed) ∷ batch) t = persist_one t id accessed >>= persist batch

  abbrev retire_if : {A : Type 0} → Dict ℕ → Buffer → Result A × Store Raw → Result A × Buffered Raw
  retire_if batch b (ok a, store) = (ok a, record { store = store; buffer = retire batch b })
  retire_if batch b (err e, store) = (err e, record { store = store; buffer = b })

  -- FlushAccesses, when nothing else comes in between.
  unfoldable pub flush_accesses : Weather → Buffered Raw → Result (Unit {0}) × Buffered Raw
  unfolding persist
  flush_accesses w s =
      if w.cancelled_waiting
      then (err plain, s)
      else if is_empty_batch s.buffer.pending
      then (ok tt, s)
      else retire_if s.buffer.pending s.buffer
          (finished false (update w (persist s.buffer.pending) s.store))

  abbrev replace_buffer : Buffered Raw → ℕ × Buffer → Result ℕ × Buffered Raw
  replace_buffer s (latest, b) = (ok latest, record s { buffer = b })

  -- recordAccess: each pass sees a context of its own; `none` is a loop that goes on after the last
  -- of the given contexts.
  unfoldable pub record_access :
      List Weather → Buffered Raw → Text → ℕ → Option (Result ℕ × Buffered Raw)
  record_access [] s id accessed = none
  record_access (w ∷ ws) s id accessed =
      if w.cancelled then some (err plain, s) else elim (record_once s.buffer id accessed) [
        | some found' ↦ some (replace_buffer s found')
        | none ↦
            let (flushed, s') = flush_accesses w s in
            elim flushed [ err e ↦ some (err e, s') | ok u ↦ record_access ws s' id accessed ]
      ]

  -- The read of bufferAccess.
  unfoldable pub read_access : Buffer → Text → Transaction Raw → Result Snapshot
  unfolding visible_access
  read_access b id t = do
    d ← load_data c t id
    refuse_if (not d.ready) unknown_snapshot
    s ← decode_snapshot d
    ok (visible_access b s)

  -- The callback of Resolve in a catalog with a buffer.
  unfoldable pub find_buffered : Buffer → Text → Transaction Raw → Result Snapshot
  unfolding visible_access
  find_buffered b reference t = do s ← find_data c reference t; ok (visible_access b s)

  abbrev with_latest :
      Snapshot → Option (Result ℕ × Buffered Raw) → Option (Result Snapshot × Buffered Raw)
  with_latest s none = none
  with_latest s (some (err e, b)) = some (in_context false (err e), b)
  with_latest s (some (ok latest, b)) =
      some (ok (record s { last_accessed_at = later s.last_accessed_at latest }), b)

  abbrev recorded :
      List Weather
      → Buffered Raw
      → Text
      → ℕ
      → Result Snapshot
      → Option (Result Snapshot × Buffered Raw)
  recorded ws b id accessed (err e) = some (in_context false (err e), b)
  recorded ws b id accessed (ok s) =
      if ltb s.last_accessed_at accessed
      then with_latest s (record_access ws b id accessed)
      else some (ok s, b)

  -- Touch in a catalog with a buffer, bufferAccess: the first context is that of its read.
  unfoldable pub touch_buffered :
      Weather → List Weather → Buffered Raw → Text → ℕ → Option (Result Snapshot × Buffered Raw)
  unfolding read_access record_access
  touch_buffered w ws b id accessed =
      if accessed == 0
      then some (err bad_time, b)
      else recorded ws b id accessed (view w (read_access b.buffer id) b.store)
