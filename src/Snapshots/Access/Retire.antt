-- ===== src/Snapshots/Access/Retire.antt =====
-- What the buffer keeps: usage times only grow, the buffer stays within its limit, and a batch takes
-- only times that it had.
use kuma_box.Prelude.{
  ℕ, ◌+◌, ◌≤◌, ◌≡◌, inl, inr, some, [], ◌∷◌, arith, ltb, if◌then◌else◌, length, Text, text_eq_iff,
  text_eq_refl, Dict, lookup, insert, without, lookup-insert, lookup-without, Bool-cases,
}
use kuma_box.Snapshots.Access.{
  Buffer, later, time_of, pending_at, is_pending, record_once, retire_entries, retire,
}
use kuma_box.Snapshots.Access.Persist.{latest_of}

length-insert :
    (id : Text) (a : ℕ) (p : Dict ℕ)
    → length (insert id a p) ≡ (if is_pending (lookup id p) then length p else length p + 1)
unfolding insert lookup
length-insert id a [] = omega arith
length-insert id a ((j, b) ∷ p) = ground (arith, length-insert id a p)

-- One pass that records a usage: nothing pending gets earlier, and the usage is there.
pub record IsRecorded (b : Buffer) (id : Text) (accessed latest : ℕ) (b' : Buffer) : Type 0 where
  pub grows : (j : Text) → pending_at b j ≤ pending_at b' j
  pub kept : (accessed ≤ latest) × (latest ≡ pending_at b' id)
  pub bounded : length b.pending ≤ b.limit → length b'.pending ≤ b'.limit
  pub same : (b'.limit ≡ b.limit) × (b'.generation ≡ b.generation)

pub record_once-IsRecorded :
    (b : Buffer) (id : Text) (accessed latest : ℕ) (b' : Buffer)
    → record_once b id accessed ≡ some (latest, b')
    → IsRecorded b id accessed latest b'
unfolding record_once
record_once-IsRecorded b id accessed latest b' h = record {
  grows = λ j.
      ground
        (arith, lookup-insert id j (later accessed (pending_at b id)) b.pending, text_eq_iff id j);
  kept =
      ground
        (arith, lookup-insert id id (later accessed (pending_at b id)) b.pending, text_eq_refl id);
  bounded = λ k. ground (arith, length-insert id (later accessed (pending_at b id)) b.pending);
  same = ground arith;
}

-- A batch that is retired takes no usage time that is later than its own.
retire_entries-le :
    (batch pending : Dict ℕ) (j : Text)
    → time_of (lookup j pending)
      ≤ later (latest_of batch j) (time_of (lookup j (retire_entries batch pending)))
unfolding retire_entries
retire_entries-le [] pending j = ground arith
retire_entries-le ((id, accessed) ∷ batch) pending j =
    elim (Bool-cases (ltb accessed (time_of (lookup id pending)))) [
      | inl newer ↦ rw newer (ground (arith, retire_entries-le batch pending j))
      | inr older ↦ rw older (
          ground (
            arith,
            retire_entries-le batch (without id pending) j,
            lookup-without id j pending,
            text_eq_iff id j,
          ))
    ]

pub retire-le :
    (batch : Dict ℕ) (b : Buffer) (j : Text)
    → pending_at b j ≤ later (latest_of batch j) (pending_at (retire batch b) j)
unfolding retire
retire-le batch b j = retire_entries-le batch b.pending j

length-without : (id : Text) (p : Dict ℕ) → length (without id p) ≤ length p
unfolding without
length-without id [] = omega arith
length-without id ((j, b) ∷ p) = ground (arith, length-without id p)

pub length-retire_entries :
    (batch pending : Dict ℕ) → length (retire_entries batch pending) ≤ length pending
unfolding retire_entries
length-retire_entries [] pending = omega arith
length-retire_entries ((id, accessed) ∷ batch) pending =
    elim (Bool-cases (ltb accessed (time_of (lookup id pending)))) [
      | inl newer ↦ rw newer (length-retire_entries batch pending)
      | inr older ↦ rw older (
          omega
            (arith, length-retire_entries batch (without id pending), length-without id pending))
    ]
