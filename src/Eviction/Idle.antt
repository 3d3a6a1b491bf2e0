-- ===== src/Eviction/Idle.antt =====
-- When the snapshots pass every limit already, nothing is evicted.
use kuma_box.Prelude.{
  amount, ℕ, ◌≤◌, ◌≡◌, refl, ◌∙◌, inl, inr, Bool, true, false, List, [], ◌∷◌, ltb, leb, length,
  Dict, lookup, arith, Bool-cases,
}
use kuma_box.Types.Snapshot.{Snapshot}
use kuma_box.Eviction.{
  EvictionPolicy, EvictionReason, lru_age, is_limit, is_old, has_no_limit, mark_where, mark_size,
  mark, mark_all_if, mark_age_if, mark_keep_if, mark_size_if, candidates, sort_by_use, total_size,
  pick_evictions,
}
use kuma_box.Eviction.Totals.{total, total-sort_by_use, total_size-total}

-- Every limit that the policy sets holds, and it sets one.
pub record IsSatisfied (records : List Snapshot) (p : EvictionPolicy) (now : ℕ) : Type 0 where
  pub limited : has_no_limit p ≡ false
  pub keep : is_limit p.keep_last ≡ true → total (λ r. 1) (λ r. true) records ≤ amount p.keep_last
  pub size :
      is_limit p.max_size ≡ true
      → total (λ r. amount r.size) (λ r. true) records ≤ amount p.max_size
  pub age : is_limit p.max_age ≡ true → total (λ r. 1) (is_old now (amount p.max_age)) records ≡ 0

mark_where-none :
    (q : Snapshot → Bool) (reason : EvictionReason) (rs : List Snapshot)
    (m : Dict (List EvictionReason))
    → total (λ r. 1) q rs ≡ 0
    → mark_where q reason rs m ≡ m
unfolding mark_where total
mark_where-none q reason [] m h = refl
mark_where-none q reason (r ∷ rs) m h = elim (Bool-cases (q r)) [
  | inl passes ↦ absurd (ground arith)
  | inr fails ↦
      let rest : total (λ r. 1) q rs ≡ 0 = ground arith in
      rw fails (mark_where-none q reason rs m rest)
]

mark_size-none :
    (limit : ℕ) (rs : List Snapshot) (m : Dict (List EvictionReason))
    → total_size rs ≤ limit
    → mark_size limit (total_size rs) rs m ≡ m
unfolding mark_size
mark_size-none limit [] m h = refl
mark_size-none limit (r ∷ rs) m h =
    let fits : leb (total_size (r ∷ rs)) limit ≡ true = ground arith in rw fits refl

total-length : (rs : List Snapshot) → total (λ r. 1) (λ r. true) rs ≡ length rs
unfolding total
total-length [] = refl
total-length (r ∷ rs) = omega (arith, total-length rs)

candidates-none : (rs : List Snapshot) → candidates [] rs ≡ []
unfolding candidates lookup
candidates-none [] = refl
candidates-none (r ∷ rs) = candidates-none rs

module _ (p : EvictionPolicy) (now : ℕ) (records : List Snapshot)
    (s : IsSatisfied records p now) where
  abbrev sorted : List Snapshot
  sorted = sort_by_use records

  all_idle : (m : Dict (List EvictionReason)) → mark_all_if p sorted m ≡ m
  all_idle m = rw s.limited refl

  age_idle : (m : Dict (List EvictionReason)) → mark_age_if p now sorted m ≡ m
  age_idle m = elim (Bool-cases (is_limit p.max_age)) [
    | inr unset ↦ rw unset refl
    | inl set ↦
        let young : total (λ r. 1) (is_old now (amount p.max_age)) sorted ≡ 0 =
          total-sort_by_use (λ r. 1) (is_old now (amount p.max_age)) records ∙ s.age set in
        rw set (mark_where-none (is_old now (amount p.max_age)) lru_age sorted m young)
  ]

  keep_idle : (m : Dict (List EvictionReason)) → mark_keep_if p sorted m ≡ m
  keep_idle m = elim (Bool-cases (is_limit p.keep_last)) [
    | inr unset ↦ rw unset refl
    | inl set ↦
        let few : length sorted ≤ amount p.keep_last = omega (
          arith,
          s.keep set,
          total-length sorted,
          total-sort_by_use (λ r. 1) (λ r. true) records,
        ) in
        let none_over : ltb (amount p.keep_last) (length sorted) ≡ false = ground arith in
        rw (set, none_over) refl
  ]

  size_idle : (m : Dict (List EvictionReason)) → mark_size_if p sorted m ≡ m
  size_idle m = elim (Bool-cases (is_limit p.max_size)) [
    | inr unset ↦ rw unset refl
    | inl set ↦
        let small : total_size sorted ≤ amount p.max_size = omega (
          arith,
          s.size set,
          total_size-total sorted,
          total-sort_by_use (λ r. amount r.size) (λ r. true) records,
        ) in
        rw set (mark_size-none (amount p.max_size) sorted m small)
  ]

  mark_idle : mark p now sorted ≡ []
  unfolding mark
  mark_idle = rw (all_idle [], age_idle [], keep_idle []) (size_idle [])

  -- When the policy sets a limit and the snapshots pass every limit that it sets already, none is
  -- picked for eviction.
  pub pick_evictions-none : pick_evictions records p now ≡ []
  unfolding pick_evictions
  pick_evictions-none = rw mark_idle (candidates-none sorted)
