-- ===== src/Eviction.antt =====
-- internal/core/gc_snapshot_policy.go: which ready snapshots a collection evicts.
pub mod Marks
pub mod Totals
pub mod Limits
pub mod Idle
-- A size counts as its amount: the catalog lists valid snapshots only, whose size is not negative.
use kuma_box.Prelude.{
  amount, ℕ, ◌+◌, ◌-◌, Bool, true, false, not, ◌&&◌, ◌||◌, Option, none, some, List, [], ◌∷◌, ◌++◌,
  if◌then◌else◌, ltb, leb, ◌==◌, length, take, Text, text_compare, Dict, lookup, insert, ℤ, pos,
  negsuc, lt_int, eq_int,
}
use kuma_box.Errdefs.{Result, ok, plain, ◌>>◌, refuse_if}
use kuma_box.Types.Snapshot.{Snapshot}
use Prim.Native.Nat.{Ordering, compare}

-- SnapshotEvictionPolicy; a duration is a number of units of the clock.
pub record EvictionPolicy : Type 0 where
  pub enabled : Bool
  pub dry_run : Bool
  pub keep_last : ℤ
  pub max_age : ℤ
  pub max_size : ℤ

pub data EvictionReason : Type 0 where
  lru_all lru_age lru_keep lru_size : EvictionReason

-- snapshotEviction, its reasons not yet joined to one text.
pub record SnapshotEviction : Type 0 where
  pub snapshot : Snapshot
  pub reasons : List EvictionReason

abbrev pub is_unset : ℤ → Bool
is_unset limit = eq_int limit (pos 0)

abbrev pub is_limit : ℤ → Bool
is_limit limit = lt_int (pos 0) limit

-- validateSnapshotEviction.
unfoldable pub validate_eviction : EvictionPolicy → Result (Unit {0})
validate_eviction p = do
  refuse_if (lt_int p.keep_last (pos 0) || lt_int p.max_age (pos 0) || lt_int p.max_size (pos 0))
      plain
  refuse_if
      (not p.enabled
        && (p.dry_run
            || not (is_unset p.keep_last)
            || not (is_unset p.max_age)
            || not (is_unset p.max_size)))
      plain

-- The order of eviction: the least recently used first, then by ID.
abbrev pub use_order : Snapshot → Snapshot → Ordering
use_order a b = elim (compare a.last_accessed_at b.last_accessed_at) [
  | Ordering.lt ↦ Ordering.lt
  | Ordering.gt ↦ Ordering.gt
  | Ordering.eq ↦ text_compare a.id b.id
]

unfoldable pub insert_by_use : Snapshot → List Snapshot → List Snapshot
insert_by_use r [] = r ∷ []
insert_by_use r (x ∷ xs) = elim (use_order r x) [
  | Ordering.gt ↦ x ∷ insert_by_use r xs
  | _ ↦ r ∷ x ∷ xs
]

unfoldable pub sort_by_use : List Snapshot → List Snapshot
sort_by_use [] = []
sort_by_use (r ∷ rs) = insert_by_use r (sort_by_use rs)

-- reasons[id].
abbrev pub reasons_at : Option (List EvictionReason) → List EvictionReason
reasons_at none = []
reasons_at (some l) = l

abbrev pub add_reason :
    Text → EvictionReason → Dict (List EvictionReason) → Dict (List EvictionReason)
add_reason id reason m = insert id (reasons_at (lookup id m) ++ (reason ∷ [])) m

-- A loop that gives a reason to the snapshots that pass a test.
unfoldable pub mark_where :
    (Snapshot → Bool)
    → EvictionReason
    → List Snapshot
    → Dict (List EvictionReason)
    → Dict (List EvictionReason)
mark_where p reason [] m = m
mark_where p reason (r ∷ rs) m =
    mark_where p reason rs (if p r then add_reason r.id reason m else m)

-- The loop over sizes, with the total that is left.
unfoldable pub mark_size :
    ℕ → ℕ → List Snapshot → Dict (List EvictionReason) → Dict (List EvictionReason)
mark_size limit total [] m = m
mark_size limit total (r ∷ rs) m =
    let rest = mark_size limit (total - amount r.size) rs (add_reason r.id lru_size m) in
    if leb total limit then m else rest

unfoldable pub total_size : List Snapshot → ℕ
total_size [] = 0
total_size (r ∷ rs) = amount r.size + total_size rs

-- LastAccessedAt is before now less MaxAge.
abbrev pub is_old : ℕ → ℕ → Snapshot → Bool
is_old now age r = ltb (r.last_accessed_at + age) now

abbrev pub has_no_limit : EvictionPolicy → Bool
has_no_limit p = is_unset p.keep_last && is_unset p.max_age && is_unset p.max_size

-- The map is still empty here, and each ID comes once.
abbrev pub mark_all_if :
    EvictionPolicy → List Snapshot → Dict (List EvictionReason) → Dict (List EvictionReason)
mark_all_if p sorted m = if has_no_limit p then mark_where (λ r. true) lru_all sorted m else m

abbrev pub mark_age_if :
    EvictionPolicy → ℕ → List Snapshot → Dict (List EvictionReason) → Dict (List EvictionReason)
mark_age_if p now sorted m =
    if is_limit p.max_age then mark_where (is_old now (amount p.max_age)) lru_age sorted m else m

abbrev pub mark_keep_if :
    EvictionPolicy → List Snapshot → Dict (List EvictionReason) → Dict (List EvictionReason)
mark_keep_if p sorted m =
    if is_limit p.keep_last && ltb (amount p.keep_last) (length sorted)
    then mark_where (λ r. true) lru_keep (take (length sorted - amount p.keep_last) sorted) m
    else m

abbrev pub mark_size_if :
    EvictionPolicy → List Snapshot → Dict (List EvictionReason) → Dict (List EvictionReason)
mark_size_if p sorted m =
    if is_limit p.max_size then mark_size (amount p.max_size) (total_size sorted) sorted m else m

unfoldable pub mark : EvictionPolicy → ℕ → List Snapshot → Dict (List EvictionReason)
mark p now sorted =
    mark_size_if p sorted
      (mark_keep_if p sorted (mark_age_if p now sorted (mark_all_if p sorted [])))

abbrev pub candidate_if :
    Snapshot → List EvictionReason → List SnapshotEviction → List SnapshotEviction
candidate_if r [] rest = rest
candidate_if r (x ∷ xs) rest = record { snapshot = r; reasons = x ∷ xs } ∷ rest

unfoldable pub candidates : Dict (List EvictionReason) → List Snapshot → List SnapshotEviction
candidates m [] = []
candidates m (r ∷ rs) = candidate_if r (reasons_at (lookup r.id m)) (candidates m rs)

-- pickSnapshotEvictions.
unfoldable pub pick_evictions : List Snapshot → EvictionPolicy → ℕ → List SnapshotEviction
unfolding mark candidates sort_by_use
pick_evictions records p now =
    let sorted = sort_by_use records in candidates (mark p now sorted) sorted
