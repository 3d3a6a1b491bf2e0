-- ===== src/Examples/Eviction.antt =====
-- The theorems on snapshot eviction at a concrete policy.
use kuma_box.Prelude.{
  arith, ◌≡◌, refl, true, false, [], ◌∷◌, text, text_eq, text_compare, lookup, insert, pos,
}
use kuma_box.Types.Snapshot.{Snapshot}
use kuma_box.Eviction.{
  EvictionPolicy, lru_keep, lru_size, pick_evictions, mark, mark_where, mark_size, candidates,
  sort_by_use, insert_by_use, total_size,
}
use kuma_box.Eviction.Idle.{IsSatisfied, pick_evictions-none}
use kuma_box.Eviction.Totals.{total}
use kuma_box.Eviction.Limits.{IsWithinLimits, pick_evictions-IsWithinLimits}
use kuma_box.Examples.Snapshots.{published}

abbrev older : Snapshot
older = record published {
  id = text "0a1e9d04-33aa-4c5f-a6d2-f00e1b2c3d4e";
  last_accessed_at = 150;
}

abbrev keep_one : EvictionPolicy
keep_one = record {
  enabled = true;
  dry_run = false;
  keep_last = pos 1;
  max_age = pos 0;
  max_size = pos 4096;
}

older_evicted :
    pick_evictions (published ∷ older ∷ []) keep_one 1000
    ≡ record { snapshot = older; reasons = lru_keep ∷ lru_size ∷ [] } ∷ []
unfolding pick_evictions mark mark_where mark_size candidates sort_by_use insert_by_use total_size
    text_compare text_eq lookup insert
older_evicted = refl

pick_evictions-IsWithinLimits_example : IsWithinLimits (published ∷ older ∷ []) keep_one 1000
pick_evictions-IsWithinLimits_example =
    pick_evictions-IsWithinLimits (published ∷ older ∷ []) keep_one 1000

one-IsSatisfied : IsSatisfied (published ∷ []) keep_one 1000
unfolding total
one-IsSatisfied = record {
  limited = refl;
  keep = λ h. omega arith;
  size = λ h. omega arith;
  age = λ h. absurd (ground arith);
}

pick_evictions-none_example : pick_evictions (published ∷ []) keep_one 1000 ≡ []
pick_evictions-none_example = pick_evictions-none keep_one 1000 (published ∷ []) one-IsSatisfied
