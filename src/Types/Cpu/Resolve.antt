-- ===== src/Types/Cpu/Resolve.antt =====
-- CPUPolicy.Resolve: what it guarantees, and that it may be applied again.
use kuma_box.Prelude.{ℕ, ◌≤◌, ◌≡◌, refl, true, false, arith, ℤ, pos, negsuc, ◌==◌}
use kuma_box.Errdefs.{ok, is_ok}
use kuma_box.Types.Cpu.{
  CpuPolicy, resolve_policy, fill_window, fill_budget, has_bad_window, has_bad_budget,
}
use kuma_box.Types.Cpu.Ranges.{cpu_ranges}

abbrev Between : ℕ → ℕ → ℤ → Type 0
Between lo hi (pos k) = (lo ≤ k) × (k ≤ hi)
Between lo hi (negsuc k) = ⊥

-- A positive quota with a burst of at most that, or -1 for none.
abbrev Funds : ℤ → ℤ → Type 0
Funds (pos q) (pos b) = (1000 ≤ q) × (1 ≤ b) × (b ≤ q)
Funds (pos q) (negsuc b) = (1000 ≤ q) × (b ≡ 0)
Funds (negsuc q) burst = ⊥

-- The kernel's ranges, with no field left to a default.
pub record IsResolved (p : CpuPolicy) : Type 0 where
  pub weight : (1 ≤ p.weight) × (p.weight ≤ 10000)
  pub period : Between 1000 1000000 p.period_us
  pub budget : Funds p.quota_us p.burst_us

record Steps (cpus : ℕ) (p q : CpuPolicy) : Type 0 where
  some_cpu : (cpus == 0) ≡ false
  good_window : has_bad_window (fill_window cpus p) ≡ false
  filled : q ≡ fill_budget cpus (fill_window cpus p)
  good_budget : has_bad_budget q ≡ false
  good_set : is_ok (cpu_ranges q.cpu_set) ≡ true

resolve_policy-Steps : (cpus : ℕ) (p q : CpuPolicy) → resolve_policy cpus p ≡ ok q → Steps cpus p q
unfolding resolve_policy
resolve_policy-Steps cpus p q h = ground arith

fill_window_good :
    (cpus : ℕ) (p : CpuPolicy)
    → (cpus == 0) ≡ false
    → has_bad_window (fill_window cpus p) ≡ false
    → (1 ≤ (fill_window cpus p).weight)
      × ((fill_window cpus p).weight ≤ 10000)
      × Between 1000 1000000 (fill_window cpus p).period_us
unfolding fill_window has_bad_window
fill_window_good cpus p c h = ground arith

fill_budget_good :
    (cpus : ℕ) (p : CpuPolicy)
    → has_bad_budget (fill_budget cpus p) ≡ false
    → Funds (fill_budget cpus p).quota_us (fill_budget cpus p).burst_us
unfolding fill_budget has_bad_budget
fill_budget_good cpus p h = ground arith

fill_budget_window :
    (cpus : ℕ) (p : CpuPolicy)
    → ((fill_budget cpus p).weight ≡ p.weight) × ((fill_budget cpus p).period_us ≡ p.period_us)
unfolding fill_budget
fill_budget_window cpus p = (refl, refl)

Steps-IsResolved : (cpus : ℕ) (p q : CpuPolicy) → Steps cpus p q → IsResolved q
Steps-IsResolved cpus p q s = rw s.filled (record {
  weight = (rw same.0 good.0, rw same.0 good.1);
  period = rw same.1 good.2;
  budget = fill_budget_good cpus window (rw s.filled at s.good_budget);
})
  where
    window : CpuPolicy
    window = fill_window cpus p

    same :
        ((fill_budget cpus window).weight ≡ window.weight)
        × ((fill_budget cpus window).period_us ≡ window.period_us)
    same = fill_budget_window cpus window

    good : (1 ≤ window.weight) × (window.weight ≤ 10000) × Between 1000 1000000 window.period_us
    good = fill_window_good cpus p s.some_cpu s.good_window

fill_window_idem : (cpus : ℕ) (q : CpuPolicy) → IsResolved q → fill_window cpus q ≡ q
unfolding fill_window
fill_window_idem cpus q r = ground arith

fill_budget_idem : (cpus : ℕ) (q : CpuPolicy) → IsResolved q → fill_budget cpus q ≡ q
unfolding fill_budget
fill_budget_idem cpus q r = ground arith

has_bad_window_resolved : (q : CpuPolicy) → IsResolved q → has_bad_window q ≡ false
unfolding has_bad_window
has_bad_window_resolved q r = ground arith

resolve_policy_again :
    (cpus : ℕ) (q : CpuPolicy)
    → (cpus == 0) ≡ false
    → IsResolved q
    → has_bad_budget q ≡ false
    → is_ok (cpu_ranges q.cpu_set) ≡ true
    → resolve_policy cpus q ≡ ok q
unfolding resolve_policy
resolve_policy_again cpus q c r b s =
    ground
      (arith, fill_window_idem cpus q r, fill_budget_idem cpus q r, has_bad_window_resolved q r)

-- A resolved CPU policy lies within the kernel's ranges, and resolving it again gives it back.
pub resolve_policy-IsResolved :
    (cpus : ℕ) (p q : CpuPolicy)
    → resolve_policy cpus p ≡ ok q
    → IsResolved q × (resolve_policy cpus q ≡ ok q)
resolve_policy-IsResolved cpus p q h = (done, again)
  where
    s : Steps cpus p q
    s = resolve_policy-Steps cpus p q h

    done : IsResolved q
    done = Steps-IsResolved cpus p q s

    again : resolve_policy cpus q ≡ ok q
    again = resolve_policy_again cpus q s.some_cpu done s.good_budget s.good_set
