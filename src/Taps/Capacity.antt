-- ===== src/Taps/Capacity.antt =====
-- The pool keeps no more idle devices than its options allow.
use kuma_box.Prelude.{
  ℕ, suc, length-append, ◌<◌, ◌++◌, ◌∷◌, ◌+◌, ◌≤◌, ◌≡◌, refl, sym, ap, subst, ◌∙◌, inl, inr, not,
  ◌&&◌, ltb, ◌*◌, length, some, List, [], ◌==◌, arith, Text, Dict, lookup, Option-cases, Bool-cases,
}
use kuma_box.Errdefs.{Result, ok}
use kuma_box.Taps.{
  TapShape, shape_eq, PooledTap, TapPool, PoolOptions, TapLease, set_tap, set_free, idle_count,
  take_free, take_last, free_list, lend, new_tap, unused_tap, leased_tap, adopt, discover,
  keep_ready, max_uint64,
}
use kuma_box.Taps.Steps.{
  Job, Host, PoolStep, takes, adds, lends, prepares, fails, keeps, trims, claims, adopts, discovers,
  activates, releases, returns, disowns, closes, wakes, PoolRun, halts, proceeds,
}
use kuma_box.Taps.Free.{take_last-append}
use kuma_box.Taps.Run.{started}

idle_count-set_free :
    (shape : TapShape) (names : List Text) (free : List (TapShape × List Text))
    → idle_count (set_free shape names free) + length (free_list shape free)
      ≡ idle_count free + length names
unfolding idle_count set_free free_list
idle_count-set_free shape names [] = omega arith
idle_count-set_free shape names ((other, old) ∷ rest) = elim (Bool-cases (shape_eq other shape)) [
  | inl same ↦ rw same (omega arith)
  | inr apart ↦ rw apart (omega (arith, idle_count-set_free shape names rest))
]

length-take_last :
    (l left : List Text) (name : Text)
    → take_last l ≡ some (name, left)
    → length l ≡ suc (length left)
length-take_last l left name h =
    ap length (take_last-append l left name h) ∙ length-append left (name ∷ []) ∙ omega arith

-- No step makes the free lists longer than the capacity.
abbrev IsWithin : ℕ → TapPool → TapPool → Type 0
IsWithin capacity s p = idle_count s.free ≤ capacity → idle_count p.free ≤ capacity

IsWithin-same : (capacity : ℕ) (s p : TapPool) → p.free ≡ s.free → IsWithin capacity s p
IsWithin-same capacity s p same h = rw same h

IsWithin-take_free :
    (capacity : ℕ) (s p : TapPool) (shape : TapShape) (name : Text)
    → take_free shape s ≡ ok (some name, p)
    → IsWithin capacity s p
unfolding take_free
IsWithin-take_free capacity s p shape name h bound = elim (Bool-cases s.closed) [
  | inl shut ↦ absurd (ground arith)
  | inr going ↦ elim (Option-cases (take_last (free_list shape s.free))) [
    | inl none_left ↦ absurd (ground arith)
    | inr ((first, left), e) ↦
        let same : record s { free = set_free shape left s.free } ≡ p = ground arith in
        let lists : set_free shape left s.free ≡ p.free = ap (λ q. q.free) same in
        rw (sym lists) (
          omega (
            arith,
            bound,
            idle_count-set_free shape left s.free,
            length-take_last (free_list shape s.free) left first e,
          ))
  ]
]

IsWithin-keep_ready :
    (options : PoolOptions) (s p : TapPool) (name : Text) (e : PooledTap)
    → keep_ready options name e s ≡ some p
    → IsWithin (options.pool_size * length options.pool_queues) s p
unfolding keep_ready
IsWithin-keep_ready options s p name e h bound =
    let capacity = options.pool_size * length options.pool_queues in
    elim (Bool-cases (not s.closed && ltb (idle_count s.free) capacity && ltb e.epoch max_uint64)) [
      | inr full ↦ absurd (ground arith)
      | inl room ↦
          let old = free_list e.shape s.free in
          let lists : set_free e.shape (old ++ (name ∷ [])) s.free ≡ p.free = ground arith in
          let below : idle_count s.free < capacity = ground arith in
          rw (sym lists) (
            omega (
              arith,
              below,
              idle_count-set_free e.shape (old ++ (name ∷ [])) s.free,
              length-append old (name ∷ []),
            ))
    ]

IsWithin-new_tap :
    (capacity : ℕ) (s p : TapPool) (name : Text) (shape : TapShape)
    → new_tap name shape s ≡ ok p
    → IsWithin capacity s p
unfolding new_tap
IsWithin-new_tap capacity s p name shape h = elim (Bool-cases s.closed) [
  | inl shut ↦ absurd (ground arith)
  | inr going ↦ elim (Option-cases (lookup name s.entries)) [
    | inr (e, there) ↦ absurd (ground arith)
    | inl absent ↦
        let same : set_tap name (unused_tap shape) s ≡ p = ground arith in
        IsWithin-same capacity s p (ap (λ q. q.free) (sym same))
  ]
]

IsWithin-lend :
    (capacity : ℕ) (options : PoolOptions) (s p : TapPool) (shape : TapShape) (name id : Text)
    (e : PooledTap) (r : Result ℕ)
    → lend options shape name e id s ≡ (r, p)
    → IsWithin capacity s p
unfolding lend
IsWithin-lend capacity options s p shape name id e r h = elim (Bool-cases (e.epoch == max_uint64)) [
  | inl spent ↦ IsWithin-same capacity s p (ap (λ q. q.1.free) (sym (rw spent at h)))
  | inr more ↦ IsWithin-same capacity s p (ap (λ q. q.1.free) (sym (rw more at h)))
]

IsWithin-adopt :
    (capacity : ℕ) (s p : TapPool) (item : TapLease) → adopt item s ≡ ok p → IsWithin capacity s p
unfolding adopt
IsWithin-adopt capacity s p item h = elim (Option-cases (lookup item.tap s.entries)) [
  | inr (e, there) ↦
      let same : s ≡ p = ground arith in IsWithin-same capacity s p (ap (λ q. q.free) (sym same))
  | inl absent ↦ elim (Bool-cases (item.epoch == 0)) [
    | inl given_none ↦
        let same : s ≡ p = ground arith in IsWithin-same capacity s p (ap (λ q. q.free) (sym same))
    | inr given ↦
        let same : set_tap item.tap (leased_tap item) s ≡ p = ground arith in
        IsWithin-same capacity s p (ap (λ q. q.free) (sym same))
  ]
]

discover-free :
    (s : TapPool) (name : Text) (shape : TapShape) (epoch : ℕ)
    → (discover name shape epoch s).free ≡ s.free
unfolding discover
discover-free s name shape epoch = elim (Option-cases (lookup name s.entries)) [
  | inr (e, there) ↦ rw (there, discover) refl
  | inl absent ↦ rw (absent, discover) refl
]

module _ (options : PoolOptions) where
  abbrev capacity : ℕ
  capacity = options.pool_size * length options.pool_queues

  module _ (s s' : Host) where
    moved_to :
        (p : TapPool) (jobs : Dict Job)
        → s' ≡ record { pool = p; jobs = jobs }
        → IsWithin capacity s.pool p
        → IsWithin capacity s.pool s'.pool
    moved_to p jobs e w = subst (IsWithin capacity s.pool) (ap (λ q. q.pool) (sym e)) w

    PoolStep-IsWithin : PoolStep options s s' → IsWithin capacity s.pool s'.pool
    PoolStep-IsWithin (takes shape name p h e) =
        moved_to p _ e (IsWithin-take_free capacity s.pool p shape name h)
    PoolStep-IsWithin (adds name shape job p n h e) =
        moved_to p _ e (IsWithin-new_tap capacity s.pool p name shape h)
    PoolStep-IsWithin (lends shape name id t r p h k l e) =
        moved_to p _ e (IsWithin-lend capacity options s.pool p shape name id t r l)
    PoolStep-IsWithin (prepares name t h w e) =
        IsWithin-same capacity s.pool s'.pool (ap (λ q. q.pool.free) e)
    PoolStep-IsWithin (fails name t job f h k e) =
        IsWithin-same capacity s.pool s'.pool (ap (λ q. q.pool.free) e)
    PoolStep-IsWithin (keeps name t job p h k l e) =
        moved_to p _ e (IsWithin-keep_ready options s.pool p name t l)
    PoolStep-IsWithin (trims name job h e) =
        IsWithin-same capacity s.pool s'.pool (ap (λ q. q.pool.free) e)
    PoolStep-IsWithin (claims e) = IsWithin-same capacity s.pool s'.pool (ap (λ q. q.pool.free) e)
    PoolStep-IsWithin (adopts item p h e) = moved_to p _ e (IsWithin-adopt capacity s.pool p item h)
    PoolStep-IsWithin (discovers name shape epoch e) =
        IsWithin-same capacity s.pool s'.pool
          (ap (λ q. q.pool.free) e ∙ discover-free s.pool name shape epoch)
    PoolStep-IsWithin (activates name t h k owned e) =
        IsWithin-same capacity s.pool s'.pool (ap (λ q. q.pool.free) e)
    PoolStep-IsWithin (releases name t h k owned e) =
        IsWithin-same capacity s.pool s'.pool (ap (λ q. q.pool.free) e)
    PoolStep-IsWithin (returns name h e) =
        IsWithin-same capacity s.pool s'.pool (ap (λ q. q.pool.free) e)
    PoolStep-IsWithin (disowns name t f h k owned e) =
        IsWithin-same capacity s.pool s'.pool (ap (λ q. q.pool.free) e)
    PoolStep-IsWithin (closes e) = IsWithin-same capacity s.pool s'.pool (ap (λ q. q.pool.free) e)
    PoolStep-IsWithin (wakes h e) = IsWithin-same capacity s.pool s'.pool (ap (λ q. q.pool.free) e)

  IsWithin-run : (s s' : Host) → PoolRun options s s' → IsWithin capacity s.pool s'.pool
  IsWithin-run s s' (halts e) bound = rw e bound
  IsWithin-run s s' (proceeds m step rest) bound =
      IsWithin-run m s' rest (PoolStep-IsWithin s m step bound)

  -- In every state that steps lead to from an empty pool, the free lists hold no more devices
  -- than the pool size times the number of queue counts.
  pub PoolRun-idle_count :
      (s : Host)
      → PoolRun options (started options) s
      → idle_count s.pool.free ≤ options.pool_size * length options.pool_queues
  unfolding idle_count
  PoolRun-idle_count s run = IsWithin-run (started options) s run (omega arith)
