-- ===== src/Snapshots/Access/Bound.antt =====
-- The buffer stays within its limit, and recording a usage ends.
use kuma_box.Prelude.{
  ℕ, ◌≤◌, ◌<◌, ◌≡◌, refl, sym, ap, ◌∙◌, inl, inr, true, false, none, some, List, [], ◌∷◌, arith,
  ltb, length, Text, Unique, Unique-insert, Unique-without, text_eq_refl, Dict, lookup, insert,
  without, Bool-cases, Option-cases,
}
use kuma_box.Errdefs.{Failure, Result, ok, err, plain, Result-cases}
use kuma_box.Metadata.{Store, Weather, update}
use kuma_box.Snapshots.Records.{SnapshotCodecs}
use kuma_box.Snapshots.Operations.{finished}
use kuma_box.Snapshots.Access.{
  Buffer, Buffered, later, time_of, pending_at, record_once, retire_entries, retire, record_access,
  flush_accesses, persist, is_empty_batch, retire_if,
}
use kuma_box.Snapshots.Access.Retire.{record_once-IsRecorded, length-retire_entries}

pub record IsBounded (b : Buffer) : Type 0 where
  pub unique : Unique b.pending
  pub room : length b.pending ≤ b.limit
  pub positive : 0 < b.limit

Unique-retire_entries :
    (batch pending : Dict ℕ) → Unique pending → Unique (retire_entries batch pending)
unfolding retire_entries
Unique-retire_entries [] pending u = u
Unique-retire_entries ((id, accessed) ∷ batch) pending u =
    elim (Bool-cases (ltb accessed (time_of (lookup id pending)))) [
      | inl newer ↦ rw newer (Unique-retire_entries batch pending u)
      | inr older ↦
          rw older (Unique-retire_entries batch (without id pending) (Unique-without id pending u))
    ]

without_absent : (id : Text) (p : Dict ℕ) → lookup id p ≡ none → without id p ≡ p
unfolding without lookup
without_absent id [] h = refl
without_absent id ((j, b) ∷ p) h = ground (arith, without_absent id p)

-- A batch that nothing was added to is forgotten whole.
retire_entries_self : (p : Dict ℕ) → Unique p → retire_entries p p ≡ []
unfolding retire_entries without lookup
retire_entries_self [] u = refl
retire_entries_self ((id, a) ∷ p) u =
    ground (arith, text_eq_refl id, without_absent id p u.0, retire_entries_self p u.1)

record_once-Unique :
    (b : Buffer) (id : Text) (accessed latest : ℕ) (b' : Buffer)
    → record_once b id accessed ≡ some (latest, b')
    → Unique b.pending
    → Unique b'.pending
unfolding record_once
record_once-Unique b id accessed latest b' h u =
    let same : insert id (later accessed (pending_at b id)) b.pending ≡ b'.pending = ground arith in
    rw (sym same) (Unique-insert id (later accessed (pending_at b id)) b.pending u)

-- A recording keeps the buffer bounded: one entry for each ID, at most as many as its limit,
-- which is positive.
pub record_once-IsBounded :
    (b : Buffer) (id : Text) (accessed latest : ℕ) (b' : Buffer)
    → record_once b id accessed ≡ some (latest, b')
    → IsBounded b
    → IsBounded b'
record_once-IsBounded b id accessed latest b' h v =
    let r = record_once-IsRecorded b id accessed latest b' h in
    record {
      unique = record_once-Unique b id accessed latest b' h v.unique;
      room = r.bounded v.room;
      positive = omega (arith, r.same.0, v.positive);
    }

pub retire-IsBounded : (batch : Dict ℕ) (b : Buffer) → IsBounded b → IsBounded (retire batch b)
unfolding retire
retire-IsBounded batch b v = record {
  unique = Unique-retire_entries batch b.pending v.unique;
  room = omega (arith, length-retire_entries batch b.pending, v.room);
  positive = v.positive;
}

-- An empty buffer has room.
record_once_empty :
    (b : Buffer) (id : Text) (accessed : ℕ)
    → b.pending ≡ []
    → 0 < b.limit
    → (r : ℕ × Buffer) × (record_once b id accessed ≡ some r)
unfolding record_once lookup
record_once_empty b id accessed e h = elim (Option-cases (record_once b id accessed)) [
  | inl full ↦ absurd (ground arith)
  | inr (r, k) ↦ (r, k)
]

module _ {Raw : Type 0} (c : SnapshotCodecs Raw) where
  empty_batch : (p : Dict ℕ) → is_empty_batch p ≡ true → p ≡ []
  empty_batch [] h = refl
  empty_batch (x ∷ p) h = cc

  retired :
      (batch : Dict ℕ) (b : Buffer) (s' : Buffered Raw) (u : Unit {0})
      (r : Result (Unit {0}) × Store Raw)
      → Unique b.pending
      → batch ≡ b.pending
      → retire_if c batch b r ≡ (ok u, s')
      → (s'.buffer.pending ≡ []) × (s'.buffer.limit ≡ b.limit)
  unfolding retire
  retired batch b s' u (ok v, store) one same h = (
    ap (λ q. q.1.buffer.pending) (sym h) ∙ rw same (retire_entries_self b.pending one),
    ap (λ q. q.1.buffer.limit) (sym h),
  )
  retired batch b s' u (err f, store) one same h = absurd (ground arith)

  -- After a flush that succeeds, with nothing in between, nothing is pending.
  flush_accesses-empty :
      (w : Weather) (s s' : Buffered Raw) (u : Unit {0})
      → Unique s.buffer.pending
      → flush_accesses c w s ≡ (ok u, s')
      → (s'.buffer.pending ≡ []) × (s'.buffer.limit ≡ s.buffer.limit)
  unfolding flush_accesses retire
  flush_accesses-empty w s s' u one h = elim (Bool-cases w.cancelled_waiting) [
    | inl waits ↦ absurd (ground arith)
    | inr free ↦ elim (Bool-cases (is_empty_batch s.buffer.pending)) [
      | inl nothing ↦
          let same : s ≡ s' = ground arith in
          (
            ap (λ (q : Buffered Raw). q.buffer.pending) (sym same)
                ∙ empty_batch s.buffer.pending nothing,
            ap (λ (q : Buffered Raw). q.buffer.limit) (sym same),
          )
      | inr something ↦
          retired s.buffer.pending s.buffer s' u
            (finished false (update w (persist c s.buffer.pending) s.store)) one refl (ground arith)
    ]
  ]

  record_access_room :
      (w : Weather) (ws : List Weather) (s : Buffered Raw) (id : Text) (accessed : ℕ)
      → (r : ℕ × Buffer) × (record_once s.buffer id accessed ≡ some r)
      → (r : Result ℕ × Buffered Raw) × (record_access c (w ∷ ws) s id accessed ≡ some r)
  unfolding record_access
  record_access_room w ws s id accessed ((latest, b), h) = elim (Bool-cases w.cancelled) [
    | inl ended ↦ ((err plain, s), rw ended refl)
    | inr going ↦ ((ok latest, record s { buffer = b }), rw (going, h) refl)
  ]

  -- A full buffer is flushed, and the next pass goes on from there.
  record_access_full :
      (w : Weather) (ws : List Weather) (s : Buffered Raw) (id : Text) (accessed : ℕ)
      → w.cancelled ≡ false
      → record_once s.buffer id accessed ≡ none
      → (u : Unit {0}) → (flush_accesses c w s).0 ≡ ok u
      → record_access c (w ∷ ws) s id accessed
        ≡ record_access c ws (flush_accesses c w s).1 id accessed
  unfolding record_access
  record_access_full w ws s id accessed going full u h = simp (going, full, h)

  record_access_failed :
      (w : Weather) (ws : List Weather) (s : Buffered Raw) (id : Text) (accessed : ℕ)
      → w.cancelled ≡ false
      → record_once s.buffer id accessed ≡ none
      → (f : Failure) → (flush_accesses c w s).0 ≡ err f
      → record_access c (w ∷ ws) s id accessed ≡ some (err f, (flush_accesses c w s).1)
  unfolding record_access
  record_access_failed w ws s id accessed going full f h = simp (going, full, h)

  record_access_ended :
      (w : Weather) (ws : List Weather) (s : Buffered Raw) (id : Text) (accessed : ℕ)
      → w.cancelled ≡ true
      → record_access c (w ∷ ws) s id accessed ≡ some (err plain, s)
  unfolding record_access
  record_access_ended w ws s id accessed ended = rw ended refl

  -- In a bounded buffer, with nothing else in between, recording a usage ends within two passes:
  -- in a result or an error.
  pub record_access_total :
      (w v : Weather) (ws : List Weather) (s : Buffered Raw) (id : Text) (accessed : ℕ)
      → IsBounded s.buffer
      → (r : Result ℕ × Buffered Raw) × (record_access c (w ∷ v ∷ ws) s id accessed ≡ some r)
  record_access_total w v ws s id accessed b =
      elim (Option-cases (record_once s.buffer id accessed)) [
        | inr (r, h) ↦ record_access_room w (v ∷ ws) s id accessed (r, h)
        | inl full ↦ elim (Bool-cases w.cancelled) [
          | inl ended ↦ ((err plain, s), record_access_ended w (v ∷ ws) s id accessed ended)
          | inr going ↦
              let s' = (flush_accesses c w s).1 in
              elim (Result-cases (flush_accesses c w s).0) [
                | inr (f, h) ↦
                    ((err f, s'), record_access_failed w (v ∷ ws) s id accessed going full f h)
                | inl (u, h) ↦
                    let (nothing, limit) =
                      flush_accesses-empty w s s' u b.unique (ap (λ r. (r, s')) h) in
                    let (r, k) = record_access_room v ws s' id accessed (
                      record_once_empty s'.buffer id accessed nothing
                        (omega (arith, limit, b.positive))) in
                    (r, record_access_full w (v ∷ ws) s id accessed going full u h ∙ k)
              ]
        ]
      ]
