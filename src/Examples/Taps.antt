-- ===== src/Examples/Taps.antt =====
-- The theorems on the pool of devices at a concrete run: one device is made, kept, lent and adopted.
use kuma_box.Taps.Alias.{pool_alias, parse_pool_alias, parse_pool_alias-pool_alias}
use kuma_box.Prelude.{
  ◌≡◌, refl, true, false, ◌==◌, any_of, arith, some, [], ◌∷◌, text, text_eq, lookup, insert,
  without, Text, ◌≤◌,
}
use kuma_box.Errdefs.{ok}
use kuma_box.Taps.{
  TapShape, PooledTap, PoolOptions, take_free, take_last, free_list, set_free, idle_count, new_tap,
  keep_ready, lend, pool_ready, pool_reserved, unused_tap,
}
use kuma_box.Taps.Steps.{
  Host, maintaining, borrowing, PoolStep, adds, keeps, takes, lends, PoolRun, halts, proceeds,
}
use kuma_box.Taps.Sound.{IsSound}
use kuma_box.Taps.Run.{PoolRun-IsSound, take_free-IsUnheld, IsUnheld, started, started-IsSound}
use kuma_box.Taps.Fenced.{IsFenced}
use kuma_box.Taps.Epochs.{PoolRun-IsFenced}
use kuma_box.Taps.Capacity.{PoolRun-idle_count}
use kuma_box.Examples.{id}

abbrev options : PoolOptions
options = record { pool_size = 2; pool_queues = 2 ∷ 4 ∷ [] }

abbrev shape : TapShape
shape = record { slot = 0; queues = 2 }

abbrev tap_name : Text
tap_name = text "kbp7f3"

abbrev idle_tap : PooledTap
idle_tap = record (unused_tap shape) { phase = pool_ready }

abbrev lent_tap : PooledTap
lent_tap = record idle_tap { epoch = 1; owner = id; phase = pool_reserved }

abbrev none_yet : Host
none_yet = started options

abbrev made : Host
made = record {
  pool = record none_yet.pool { entries = (tap_name, unused_tap shape) ∷ [] };
  jobs = (tap_name, maintaining) ∷ [];
}

abbrev kept : Host
kept = record {
  pool = record none_yet.pool {
    entries = (tap_name, idle_tap) ∷ [];
    free = (shape, tap_name ∷ []) ∷ [];
  };
  jobs = [];
}

abbrev borrowed : Host
borrowed = record {
  pool = record kept.pool { free = (shape, []) ∷ [] };
  jobs = (tap_name, borrowing) ∷ [];
}

abbrev lent : Host
lent = record {
  pool = record borrowed.pool { entries = (tap_name, lent_tap) ∷ []; wake = true };
  jobs = [];
}

new_device : new_tap tap_name shape none_yet.pool ≡ ok made.pool
unfolding new_tap lookup insert
new_device = refl

kept_device : keep_ready options tap_name (unused_tap shape) made.pool ≡ some kept.pool
unfolding keep_ready lookup insert free_list set_free idle_count text_eq
kept_device = refl

taken_device : take_free shape kept.pool ≡ ok (some tap_name, borrowed.pool)
unfolding take_free take_last free_list set_free
taken_device = refl

lent_device : lend options shape tap_name idle_tap id borrowed.pool ≡ (ok 1, lent.pool)
unfolding lend insert free_list text_eq
lent_device = refl

made_step : PoolStep options none_yet made
unfolding insert
made_step = adds tap_name shape maintaining made.pool (λ h. cc) new_device refl

kept_step : PoolStep options made kept
unfolding lookup without text_eq
kept_step = keeps tap_name (unused_tap shape) maintaining kept.pool refl refl kept_device refl

taken_step : PoolStep options kept borrowed
unfolding insert
taken_step = takes shape tap_name borrowed.pool taken_device refl

lent_step : PoolStep options borrowed lent
unfolding lookup without text_eq
lent_step = lends shape tap_name id idle_tap (ok 1) lent.pool refl refl lent_device refl

to_kept : PoolRun options none_yet kept
to_kept = proceeds made made_step (proceeds kept kept_step (halts refl))

from_kept : PoolRun options kept lent
from_kept = proceeds borrowed taken_step (proceeds lent lent_step (halts refl))

PoolRun-IsSound_example : IsSound kept
PoolRun-IsSound_example = PoolRun-IsSound options none_yet kept to_kept (started-IsSound options)

take_free-IsUnheld_example : IsUnheld options kept shape tap_name borrowed.pool
take_free-IsUnheld_example =
    take_free-IsUnheld options kept shape tap_name borrowed.pool to_kept taken_device

PoolRun-IsFenced_example : IsFenced idle_tap lent_tap
unfolding lookup text_eq from_kept
PoolRun-IsFenced_example =
    PoolRun-IsFenced options tap_name kept lent from_kept ((idle_tap, refl), ((lent_tap, refl), tt))
      idle_tap lent_tap refl refl

PoolRun-idle_count_example : idle_count kept.pool.free ≤ 4
PoolRun-idle_count_example = PoolRun-idle_count options kept to_kept

abbrev cluster : Text
cluster = text "4f2a"

no_colon : any_of (λ c. c == b':') cluster ≡ false
unfolding any_of
no_colon = refl

parse_pool_alias-pool_alias_example :
    parse_pool_alias cluster (pool_alias cluster (record { slot = 1; queues = 4 }) 12)
    ≡ some (record { slot = 1; queues = 4 }, 12)
parse_pool_alias-pool_alias_example =
    parse_pool_alias-pool_alias cluster (record { slot = 1; queues = 4 }) 12 no_colon (omega arith)
      (omega arith) (omega arith) (omega arith) (omega arith)
