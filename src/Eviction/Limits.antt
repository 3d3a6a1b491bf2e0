-- ===== src/Eviction/Limits.antt =====
-- What pickSnapshotEvictions leaves passes every limit of the policy.
use kuma_box.Prelude.{
  amount, ℕ, ◌-◌, ◌≤◌, ◌≡◌, refl, ap, inl, inr, Bool, true, false, not, ◌&&◌, List, [], ltb, length,
  take, All, map-All, Dict, lookup, arith, Bool-cases,
}
use kuma_box.Types.Snapshot.{Snapshot}
use kuma_box.Eviction.{
  EvictionPolicy, EvictionReason, lru_all, lru_age, lru_keep, is_limit, is_old, has_no_limit,
  mark_where, mark, mark_all_if, mark_age_if, mark_keep_if, mark_size_if, sort_by_use, total_size,
  pick_evictions,
}
use kuma_box.Eviction.Marks.{
  is_marked, is_picked, Grows, Grows-mark_where, Grows-mark_size, mark_where-All, candidates-All,
}
use kuma_box.Eviction.Totals.{
  total, total-le, total-sort_by_use, total_none, total-take, total-mark_size,
}

Grows-age_if :
    (p : EvictionPolicy) (now : ℕ) (rs : List Snapshot) (m : Dict (List EvictionReason))
    → Grows m (mark_age_if p now rs m)
Grows-age_if p now rs m j h = elim (Bool-cases (is_limit p.max_age)) [
  | inl set ↦ rw set (Grows-mark_where (is_old now (amount p.max_age)) lru_age rs m j h)
  | inr unset ↦ rw unset h
]

Grows-keep_if :
    (p : EvictionPolicy) (rs : List Snapshot) (m : Dict (List EvictionReason))
    → Grows m (mark_keep_if p rs m)
Grows-keep_if p rs m j h =
    elim (Bool-cases (is_limit p.keep_last && ltb (amount p.keep_last) (length rs))) [
      | inl set ↦
          rw set
            (Grows-mark_where (λ r. true) lru_keep (take (length rs - amount p.keep_last) rs) m j h)
      | inr unset ↦ rw unset h
    ]

Grows-size_if :
    (p : EvictionPolicy) (rs : List Snapshot) (m : Dict (List EvictionReason))
    → Grows m (mark_size_if p rs m)
Grows-size_if p rs m j h = elim (Bool-cases (is_limit p.max_size)) [
  | inl set ↦ rw set (Grows-mark_size (amount p.max_size) (total_size rs) rs m j h)
  | inr unset ↦ rw unset h
]

module _ (p : EvictionPolicy) (now : ℕ) (rs : List Snapshot) where
  abbrev all_marks : Dict (List EvictionReason)
  all_marks = mark_all_if p rs []

  abbrev age_marks : Dict (List EvictionReason)
  age_marks = mark_age_if p now rs all_marks

  abbrev keep_marks : Dict (List EvictionReason)
  keep_marks = mark_keep_if p rs age_marks

  abbrev unmarked : Snapshot → Bool
  unmarked r = not (is_marked (mark p now rs) r.id)

  after_keep : Grows keep_marks (mark p now rs)
  unfolding mark
  after_keep = Grows-size_if p rs keep_marks

  after_age : Grows age_marks (mark p now rs)
  after_age j h = after_keep j (Grows-keep_if p rs age_marks j h)

  after_all : Grows all_marks (mark p now rs)
  after_all j h = after_age j (Grows-age_if p now rs all_marks j h)

  unmarked_keep : is_limit p.keep_last ≡ true → total (λ r. 1) unmarked rs ≤ amount p.keep_last
  unmarked_keep set = elim (Bool-cases (ltb (amount p.keep_last) (length rs))) [
    | inr few ↦ ground (arith, total-take unmarked 0 rs tt)
    | inl many ↦
        let n = length rs - amount p.keep_last in
        let first : All (λ r. unmarked r ≡ false) (take n rs) =
          map-All (λ r f. ap not (after_keep r.id (rw (set, many) (f refl)))) (take n rs)
            (mark_where-All (λ r. true) lru_keep (take n rs) age_marks) in
        ground (arith, total-take unmarked n rs first)
  ]

  unmarked_size :
      is_limit p.max_size ≡ true → total (λ r. amount r.size) unmarked rs ≤ amount p.max_size
  unfolding mark lookup
  unmarked_size set =
      total-mark_size (amount p.max_size) rs keep_marks (mark p now rs) unmarked
        (λ j h. rw (mark, set) h) (λ r h. ap not h)

  unmarked_age :
      is_limit p.max_age ≡ true
      → total (λ r. 1) (λ r. unmarked r && is_old now (amount p.max_age) r) rs ≡ 0
  unmarked_age set =
      total_none (λ r. 1) (λ r. unmarked r && is_old now (amount p.max_age) r) rs
        (map-All
          (λ r f. elim (Bool-cases (is_old now (amount p.max_age) r)) [
            | inl old ↦ let marked = after_age r.id (rw set (f old)) in rw marked refl
            | inr young ↦ ground (arith, young)
          ])
          rs (mark_where-All (is_old now (amount p.max_age)) lru_age rs all_marks))

  all_gone :
      (r : Snapshot)
      → has_no_limit p ≡ true
      → is_marked (mark_where (λ r. true) lru_all rs []) r.id ≡ true
      → unmarked r ≡ false
  all_gone r set h = ap not (after_all r.id (rw set h))

  unmarked_none : has_no_limit p ≡ true → total (λ r. 1) unmarked rs ≡ 0
  unmarked_none set =
      total_none (λ r. 1) unmarked rs
        (map-All (λ r f. all_gone r set (f refl)) rs (mark_where-All (λ r. true) lru_all rs []))

-- The snapshots that a collection leaves.
abbrev pub stays : List Snapshot → EvictionPolicy → ℕ → Snapshot → Bool
stays records p now r = not (is_picked r.id (pick_evictions records p now))

pub record IsWithinLimits (records : List Snapshot) (p : EvictionPolicy) (now : ℕ) : Type 0 where
  pub keep :
      is_limit p.keep_last ≡ true
      → total (λ r. 1) (stays records p now) records ≤ amount p.keep_last
  pub size :
      is_limit p.max_size ≡ true
      → total (λ r. amount r.size) (stays records p now) records ≤ amount p.max_size
  pub age :
      is_limit p.max_age ≡ true
      → total (λ r. 1) (λ r. stays records p now r && is_old now (amount p.max_age) r) records ≡ 0
  pub all : has_no_limit p ≡ true → total (λ r. 1) (stays records p now) records ≡ 0

-- What stays has no mark.
stays-unmarked :
    (records : List Snapshot) (p : EvictionPolicy) (now : ℕ)
    → All
        (λ r. stays records p now r ≡ true → unmarked p now (sort_by_use records) r ≡ true)
        (sort_by_use records)
unfolding pick_evictions
stays-unmarked records p now =
    map-All
      (λ r f h. elim (Bool-cases (is_marked (mark p now (sort_by_use records)) r.id)) [
        | inl marked ↦ absurd (ground (arith, f marked))
        | inr clear ↦ rw clear refl
      ])
      (sort_by_use records)
      (candidates-All (mark p now (sort_by_use records)) (sort_by_use records))

-- The snapshots that are not candidates for eviction pass each limit that the policy sets: no
-- more of them than KeepLast, no more than MaxSize in total, none that was last used before now
-- less MaxAge; and when no limit is set, none is left.
pub pick_evictions-IsWithinLimits :
    (records : List Snapshot) (p : EvictionPolicy) (now : ℕ) → IsWithinLimits records p now
pick_evictions-IsWithinLimits records p now =
    let sorted = sort_by_use records in
    let stay = stays records p now in
    let free = unmarked p now sorted in
    let less = λ (f : Snapshot → ℕ). total-le f stay free sorted (stays-unmarked records p now) in
    let old = is_old now (amount p.max_age) in
    let less_old =
      total-le (λ r. 1) (λ r. stay r && old r) (λ r. free r && old r) sorted
        (map-All (λ r f h. ground (arith, f)) sorted (stays-unmarked records p now)) in
    record {
      keep = λ set. omega (
        arith,
        total-sort_by_use (λ r. 1) stay records,
        less (λ r. 1),
        unmarked_keep p now sorted set,
      );
      size = λ set. omega (
        arith,
        total-sort_by_use (λ r. amount r.size) stay records,
        less (λ r. amount r.size),
        unmarked_size p now sorted set,
      );
      age = λ set. omega (
        arith,
        total-sort_by_use (λ r. 1) (λ r. stay r && old r) records,
        less_old,
        unmarked_age p now sorted set,
      );
      all = λ set. omega (
        arith,
        total-sort_by_use (λ r. 1) stay records,
        less (λ r. 1),
        unmarked_none p now sorted set,
      );
    }
