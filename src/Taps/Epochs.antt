-- ===== src/Taps/Epochs.antt =====
-- The epochs of the pool's devices over every step and every run.
use kuma_box.Prelude.{
  ◌≡◌, refl, sym, ap, subst, inl, inr, true, some, arith, Text, Dict, lookup, insert,
}
use kuma_box.Taps.{pool_active, pool_cleaning, PooledTap, TapPool, PoolOptions, fail_tap}
use kuma_box.Taps.Steps.{
  Job, Host, PoolStep, takes, adds, lends, prepares, fails, keeps, trims, claims, adopts, discovers,
  activates, releases, returns, disowns, closes, wakes, PoolRun, halts, proceeds,
}
use kuma_box.Taps.Fenced.{
  IsFenced, IsFenced-trans, Fences, Fences-same, Fences-written, Fences-without, Fences-claim,
  Fences-take_free, Fences-new_tap, Fences-lend, Fences-keep_ready, Fences-adopt, Fences-discover,
}

module _ (name : Text) where
  module _ (options : PoolOptions) (s s' : Host) where
    -- A step writes an entry that it has read.
    write_fenced :
        (other : Text) (t x : PooledTap)
        → lookup other s.pool.entries ≡ some t
        → IsFenced t x
        → s'.pool.entries ≡ insert other x s.pool.entries
        → Fences name s.pool.entries s'.pool.entries
    write_fenced other t x read f e =
        subst (Fences name s.pool.entries) (sym e)
          (Fences-written name other t x s.pool.entries read f)

    moved_to :
        (p : TapPool) (jobs : Dict Job)
        → s' ≡ record { pool = p; jobs = jobs }
        → p.entries ≡ s'.pool.entries
    moved_to p jobs e = ap (λ q. q.pool.entries) (sym e)

    PoolStep-Fences : PoolStep options s s' → Fences name s.pool.entries s'.pool.entries
    PoolStep-Fences (takes shape other p h e) =
        subst (Fences name s.pool.entries) (moved_to p _ e)
          (Fences-take_free name s.pool p shape other h)
    PoolStep-Fences (adds other shape job p n h e) =
        subst (Fences name s.pool.entries) (moved_to p _ e)
          (Fences-new_tap name s.pool p other shape h)
    PoolStep-Fences (lends shape other id t r p h k l e) =
        subst (Fences name s.pool.entries) (moved_to p _ e)
          (Fences-lend name options s.pool p shape other id t r k l)
    PoolStep-Fences (prepares other t h w e) =
        write_fenced other t (record t { prepared = true }) h
          (record { shape = refl; epoch = omega arith; owner = λ q. inl refl })
          (ap (λ q. q.pool.entries) e)
    PoolStep-Fences (fails other t job f h k e) =
        write_fenced other t (fail_tap f t) k
          (record { shape = refl; epoch = omega arith; owner = λ q. inr refl })
          (ap (λ q. q.pool.entries) e)
    PoolStep-Fences (keeps other t job p h k l e) =
        subst (Fences name s.pool.entries) (moved_to p _ e)
          (Fences-keep_ready name options s.pool p other t k l)
    PoolStep-Fences (trims other job h e) =
        subst (Fences name s.pool.entries) (ap (λ q. q.pool.entries) (sym e))
          (Fences-without name other s.pool.entries)
    PoolStep-Fences (claims e) =
        subst (Fences name s.pool.entries) (ap (λ q. q.pool.entries) (sym e))
          (Fences-claim name s.pool.entries)
    PoolStep-Fences (adopts item p h e) =
        subst (Fences name s.pool.entries) (moved_to p _ e) (Fences-adopt name s.pool p item h)
    PoolStep-Fences (discovers other shape epoch e) =
        subst (Fences name s.pool.entries) (ap (λ q. q.pool.entries) (sym e))
          (Fences-discover name s.pool other shape epoch)
    PoolStep-Fences (activates other t h k owned e) =
        write_fenced other t (record t { phase = pool_active }) h
          (record { shape = refl; epoch = omega arith; owner = λ q. inl refl })
          (ap (λ q. q.pool.entries) e)
    PoolStep-Fences (releases other t h k owned e) =
        write_fenced other t (record t { phase = pool_cleaning }) h
          (record { shape = refl; epoch = omega arith; owner = λ q. inl refl })
          (ap (λ q. q.pool.entries) e)
    PoolStep-Fences (returns other h e) =
        Fences-same name s.pool.entries s'.pool.entries (ap (λ q. lookup name q.pool.entries) e)
    PoolStep-Fences (disowns other t f h k owned e) =
        write_fenced other t (fail_tap f t) h
          (record { shape = refl; epoch = omega arith; owner = λ q. inr refl })
          (ap (λ q. q.pool.entries) e)
    PoolStep-Fences (closes e) =
        Fences-same name s.pool.entries s'.pool.entries (ap (λ q. lookup name q.pool.entries) e)
    PoolStep-Fences (wakes h e) =
        Fences-same name s.pool.entries s'.pool.entries (ap (λ q. lookup name q.pool.entries) e)

-- The device stays in the pool all along a run.
abbrev pub Stays :
    (options : PoolOptions) (name : Text) (s s' : Host) → PoolRun options s s' → Type 0
Stays options name s s' (halts e) = Unit
Stays options name s s' (proceeds m step rest) =
    ((e : PooledTap) × (lookup name m.pool.entries ≡ some e)) × Stays options name m s' rest

-- While a device stays in the pool, over any run of steps, its shape is the same and its epoch
-- never goes down, and if its epoch is the same at the end then it has the same owner or none:
-- under one epoch it is not lent twice.
pub PoolRun-IsFenced :
    (options : PoolOptions) (name : Text) (s s' : Host) (run : PoolRun options s s')
    → Stays options name s s' run
    → (e e' : PooledTap) → lookup name s.pool.entries ≡ some e
    → lookup name s'.pool.entries ≡ some e'
    → IsFenced e e'
PoolRun-IsFenced options name s s' (halts same) stays e e' h h' =
    Fences-same name s.pool.entries s'.pool.entries (ap (λ q. lookup name q.pool.entries) same) e e'
      h h'
PoolRun-IsFenced options name s s' (proceeds m step rest) stays e e' h h' =
    let (middle, there) = stays.0 in
    IsFenced-trans e middle e' (PoolStep-Fences name options s m step e middle h there)
      (PoolRun-IsFenced options name m s' rest stays.1 middle e' there h')
