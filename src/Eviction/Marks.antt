-- ===== src/Eviction/Marks.antt =====
-- Who has a reason to be evicted after the loops of pickSnapshotEvictions.
use kuma_box.Prelude.{
  amount, ℕ, ◌-◌, ◌≡◌, refl, inl, inr, Bool, true, false, ◌&&◌, ◌||◌, List, [], ◌∷◌, ◌++◌,
  if◌then◌else◌, leb, All, map-All, Text, text_eq, text_eq_refl, Dict, lookup, lookup-insert, arith,
  Bool-cases,
}
use kuma_box.Types.Snapshot.{Snapshot}
use kuma_box.Eviction.{
  EvictionReason, lru_size, SnapshotEviction, reasons_at, add_reason, mark_where, mark_size,
  candidate_if, candidates,
}

abbrev has_some : List EvictionReason → Bool
has_some [] = false
has_some (x ∷ xs) = true

abbrev pub is_marked : Dict (List EvictionReason) → Text → Bool
is_marked m id = has_some (reasons_at (lookup id m))

has_some-append : (l : List EvictionReason) (x : EvictionReason) → has_some (l ++ (x ∷ [])) ≡ true
has_some-append [] x = refl
has_some-append (y ∷ l) x = refl

-- What is marked stays marked.
abbrev pub Grows : Dict (List EvictionReason) → Dict (List EvictionReason) → Type 0
Grows m m' = (j : Text) → is_marked m j ≡ true → is_marked m' j ≡ true

is_marked-add_reason :
    (id : Text) (reason : EvictionReason) (m : Dict (List EvictionReason)) (j : Text)
    → is_marked (add_reason id reason m) j ≡ (text_eq id j || is_marked m j)
is_marked-add_reason id reason m j = elim (Bool-cases (text_eq id j)) [
  | inl same ↦
      rw (lookup-insert id j (reasons_at (lookup id m) ++ (reason ∷ [])) m, same)
        (has_some-append (reasons_at (lookup id m)) reason)
  | inr apart ↦ rw (lookup-insert id j (reasons_at (lookup id m) ++ (reason ∷ [])) m, apart) refl
]

pub Grows-mark_where :
    (p : Snapshot → Bool) (reason : EvictionReason) (rs : List Snapshot)
    (m : Dict (List EvictionReason))
    → Grows m (mark_where p reason rs m)
unfolding mark_where
Grows-mark_where p reason [] m j h = h
Grows-mark_where p reason (r ∷ rs) m j h = elim (Bool-cases (p r)) [
  | inl passes ↦ rw passes (
      Grows-mark_where p reason rs (add_reason r.id reason m) j
        (ground (arith, is_marked-add_reason r.id reason m j, h)))
  | inr fails ↦ rw fails (Grows-mark_where p reason rs m j h)
]

-- After the loop, what passes the test is marked.
pub mark_where-All :
    (p : Snapshot → Bool) (reason : EvictionReason) (rs : List Snapshot)
    (m : Dict (List EvictionReason))
    → All (λ r. p r ≡ true → is_marked (mark_where p reason rs m) r.id ≡ true) rs
unfolding mark_where
mark_where-All p reason [] m = tt
mark_where-All p reason (r ∷ rs) m = (
  λ passes. rw passes (
      Grows-mark_where p reason rs (add_reason r.id reason m) r.id
        (ground (arith, is_marked-add_reason r.id reason m r.id, text_eq_refl r.id))),
  mark_where-All p reason rs (if p r then add_reason r.id reason m else m),
)

pub Grows-mark_size :
    (limit total : ℕ) (rs : List Snapshot) (m : Dict (List EvictionReason))
    → Grows m (mark_size limit total rs m)
unfolding mark_size
Grows-mark_size limit total [] m j h = h
Grows-mark_size limit total (r ∷ rs) m j h = elim (Bool-cases (leb total limit)) [
  | inl fits ↦ rw fits h
  | inr above ↦ rw above (
      Grows-mark_size limit (total - amount r.size) rs (add_reason r.id lru_size m) j
        (ground (arith, is_marked-add_reason r.id lru_size m j, h)))
]

pub mark_size-first :
    (r : Snapshot) (m m' : Dict (List EvictionReason))
    → Grows (add_reason r.id lru_size m) m'
    → is_marked m' r.id ≡ true
mark_size-first r m m' g =
    g r.id (ground (arith, is_marked-add_reason r.id lru_size m r.id, text_eq_refl r.id))

unfoldable pub is_picked : Text → List SnapshotEviction → Bool
is_picked id [] = false
is_picked id (c ∷ cs) = text_eq c.snapshot.id id || is_picked id cs

is_picked-candidate_if :
    (id : Text) (r : Snapshot) (l : List EvictionReason) (rest : List SnapshotEviction)
    → is_picked id (candidate_if r l rest) ≡ ((has_some l && text_eq r.id id) || is_picked id rest)
unfolding is_picked
is_picked-candidate_if id r [] rest = refl
is_picked-candidate_if id r (x ∷ xs) rest = refl

-- What is marked is a candidate.
pub candidates-All :
    (m : Dict (List EvictionReason)) (rs : List Snapshot)
    → All (λ r. is_marked m r.id ≡ true → is_picked r.id (candidates m rs) ≡ true) rs
unfolding candidates
candidates-All m [] = tt
candidates-All m (r ∷ rs) =
    let one : (id : Text)
        → is_picked id (candidates m (r ∷ rs))
          ≡ ((is_marked m r.id && text_eq r.id id) || is_picked id (candidates m rs)) =
      λ id. is_picked-candidate_if id r (reasons_at (lookup r.id m)) (candidates m rs) in
    (
      λ h. ground (arith, one r.id, h, text_eq_refl r.id),
      map-All (λ q f h. ground (arith, one q.id, f h)) rs (candidates-All m rs),
    )
