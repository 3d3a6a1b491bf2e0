-- ===== src/Types/Cpu.antt =====
-- internal/types/resources.go: host CPU policy and CPU lists.
pub mod Ranges
pub mod Resolve
use kuma_box.Prelude.{
  ℕ, ◌*◌, ◌≡◌, refl, Bool, true, false, not, ◌&&◌, ◌||◌, List, [], ltb, ◌==◌, if◌then◌else◌, min,
  Text, ℤ, pos, negsuc, lt_int, eq_int, arith,
}
use kuma_box.Errdefs.{Result, ok, err, plain, ◌>>=◌, ◌>>◌, refuse_if, is_ok}
use Ranges.{cpu_ranges}

pub record CpuPolicy : Type 0 where
  pub weight : ℕ
  pub quota_us : ℤ
  pub period_us : ℤ
  pub burst_us : ℤ
  pub cpu_set : Text

-- int64(cpus) * p.PeriodUS, for an accepted period; it stays far below 2 ^ 63.
abbrev times : ℕ → ℤ → ℤ
times n (pos k) = pos (n * k)
times n (negsuc k) = pos 0

-- The weight and the period, with their defaults.
unfoldable pub fill_window : ℕ → CpuPolicy → CpuPolicy
fill_window cpus p = record p {
  weight = if p.weight == 0 then min cpus 10000 else p.weight;
  period_us = if eq_int p.period_us (pos 0) then pos 100000 else p.period_us;
}

fill_quota : ℕ → CpuPolicy → CpuPolicy
fill_quota cpus p = record p {
  quota_us = if eq_int p.quota_us (pos 0) then times cpus p.period_us else p.quota_us;
}

fill_burst : CpuPolicy → CpuPolicy
fill_burst p = record p { burst_us = if eq_int p.burst_us (pos 0) then p.quota_us else p.burst_us }

-- The quota, and then the burst, which defaults to the quota.
unfoldable pub fill_budget : ℕ → CpuPolicy → CpuPolicy
unfolding fill_quota fill_burst
fill_budget cpus p = fill_burst (fill_quota cpus p)

unfoldable pub has_bad_window : CpuPolicy → Bool
has_bad_window p =
    ltb 10000 p.weight || lt_int p.period_us (pos 1000) || lt_int (pos 1000000) p.period_us

unfoldable pub has_bad_budget : CpuPolicy → Bool
has_bad_budget p =
    lt_int p.quota_us (pos 1000) || lt_int p.burst_us (negsuc 0) || lt_int p.quota_us p.burst_us

-- CPUPolicy.Resolve.
unfoldable pub resolve_policy : ℕ → CpuPolicy → Result CpuPolicy
resolve_policy cpus p = do
  refuse_if (cpus == 0) plain
  let windowed = fill_window cpus p
  refuse_if (has_bad_window windowed) plain
  let funded = fill_budget cpus windowed
  refuse_if (has_bad_budget funded) plain
  ranges ← cpu_ranges funded.cpu_set
  ok funded
