-- ===== src/Eviction/Totals.antt =====
-- Weighted counts of the snapshots that pass a test.
use kuma_box.Prelude.{
  amount, ℕ, zero, suc, ◌+◌, ◌-◌, ◌≤◌, ◌≡◌, refl, subst, ◌∙◌, inl, inr, Bool, true, false, List, [],
  ◌∷◌, if◌then◌else◌, leb, length, take, All, Dict, arith, Bool-cases,
}
use kuma_box.Types.Snapshot.{Snapshot}
use kuma_box.Eviction.{
  EvictionReason, lru_size, mark_size, add_reason, use_order, insert_by_use, sort_by_use,
  total_size,
}
use kuma_box.Eviction.Marks.{is_marked, Grows, Grows-mark_size, mark_size-first}
use Prim.Native.Nat.{Ordering}

unfoldable pub total : (Snapshot → ℕ) → (Snapshot → Bool) → List Snapshot → ℕ
total f p [] = 0
total f p (r ∷ rs) = (if p r then f r else 0) + total f p rs

module _ (f : Snapshot → ℕ) where
  pub total-le :
      (p q : Snapshot → Bool) (rs : List Snapshot)
      → All (λ r. p r ≡ true → q r ≡ true) rs
      → total f p rs ≤ total f q rs
  unfolding total
  total-le p q [] a = omega arith
  total-le p q (r ∷ rs) a = elim (Bool-cases (p r)) [
    | inl passes ↦ rw (passes, a.0 passes) (omega (arith, total-le p q rs a.1))
    | inr fails ↦ rw fails (omega (arith, total-le p q rs a.1))
  ]

  -- The order does not matter.
  total-insert_by_use :
      (p : Snapshot → Bool) (r : Snapshot) (rs : List Snapshot)
      → total f p (insert_by_use r rs) ≡ total f p (r ∷ rs)
  unfolding total insert_by_use
  total-insert_by_use p r [] = refl
  total-insert_by_use p r (x ∷ xs) =
      elim (use_order r x)
        as (λ o.
          total f p (elim o [ Ordering.gt ↦ x ∷ insert_by_use r xs | _ ↦ r ∷ x ∷ xs ])
          ≡ total f p (r ∷ x ∷ xs)) [
            | Ordering.gt ↦ omega (arith, total-insert_by_use p r xs)
            | Ordering.lt ↦ refl
            | Ordering.eq ↦ refl
          ]

  pub total-sort_by_use :
      (p : Snapshot → Bool) (rs : List Snapshot) → total f p (sort_by_use rs) ≡ total f p rs
  unfolding total sort_by_use
  total-sort_by_use p [] = refl
  total-sort_by_use p (r ∷ rs) =
      total-insert_by_use p r (sort_by_use rs) ∙ omega (arith, total-sort_by_use p rs)

  pub total_none :
      (p : Snapshot → Bool) (rs : List Snapshot) → All (λ r. p r ≡ false) rs → total f p rs ≡ 0
  unfolding total
  total_none p [] a = refl
  total_none p (r ∷ rs) a = rw a.0 (omega (arith, total_none p rs a.1))

-- When the first n fail the test, the others are at most so many.
pub total-take :
    (p : Snapshot → Bool) (n : ℕ) (rs : List Snapshot)
    → All (λ r. p r ≡ false) (take n rs)
    → total (λ r. 1) p rs ≤ length rs - n
unfolding total
total-take p zero [] a = omega arith
total-take p (suc n) [] a = omega arith
total-take p zero (r ∷ rs) a = elim (Bool-cases (p r)) [
  | inl passes ↦ rw passes (omega (arith, total-take p zero rs tt))
  | inr fails ↦ rw fails (omega (arith, total-take p zero rs tt))
]
total-take p (suc n) (r ∷ rs) a = rw a.0 (omega (arith, total-take p n rs a.1))

pub total_size-total :
    (rs : List Snapshot) → total (λ r. amount r.size) (λ r. true) rs ≡ total_size rs
unfolding total total_size
total_size-total [] = refl
total_size-total (r ∷ rs) = omega (arith, total_size-total rs)

All-pass : (p : Snapshot → Bool) (rs : List Snapshot) → All (λ r. p r ≡ true → true ≡ true) rs
All-pass p [] = tt
All-pass p (r ∷ rs) = (λ h. refl, All-pass p rs)

-- What the loop over sizes leaves fits.
pub total-mark_size :
    (limit : ℕ) (rs : List Snapshot) (m m' : Dict (List EvictionReason)) (p : Snapshot → Bool)
    → Grows (mark_size limit (total_size rs) rs m) m'
    → ((r : Snapshot) → is_marked m' r.id ≡ true → p r ≡ false)
    → total (λ r. amount r.size) p rs ≤ limit
unfolding total total_size mark_size
total-mark_size limit [] m m' p g left = omega arith
total-mark_size limit (r ∷ rs) m m' p g left = elim (Bool-cases (leb (total_size (r ∷ rs)) limit)) [
  | inl fits ↦
      let below : total_size (r ∷ rs) ≤ limit = ground arith in
      let all = total-le (λ q. amount q.size) p (λ q. true) (r ∷ rs) (All-pass p (r ∷ rs)) in
      omega (arith, below, all, total_size-total (r ∷ rs))
  | inr above ↦
      let rest = total_size (r ∷ rs) - amount r.size in
      let same : rest ≡ total_size rs = omega arith in
      let g' : Grows (mark_size limit rest rs (add_reason r.id lru_size m)) m' = rw above at g in
      let gone = left r (
        mark_size-first r m m'
          (λ j h. g' j (Grows-mark_size limit rest rs (add_reason r.id lru_size m) j h))) in
      let later =
        total-mark_size limit rs (add_reason r.id lru_size m) m' p
          (subst (λ t. Grows (mark_size limit t rs (add_reason r.id lru_size m)) m') same g')
          left in
      rw gone (omega (arith, later))
]
