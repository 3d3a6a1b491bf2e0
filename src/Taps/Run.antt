-- ===== src/Taps/Run.antt =====
-- The invariant of the pool over every step and every run.
use kuma_box.Prelude.{
  ◌≡◌, ◌⊎◌, refl, sym, subst, inl, inr, true, false, Option, none, some, [], arith, Text, is_empty,
  lookup, insert, Option-cases,
}
use kuma_box.Errdefs.{ok}
use kuma_box.Taps.{
  TapShape, shape_eq, is_ready, pool_active, pool_cleaning, PooledTap, TapPool, PoolOptions,
  free_list, set_tap, take_free, fail_tap, close_pool, take_wake,
}
use kuma_box.Taps.Steps.{
  Job, borrowing, maintaining, releasing, Host, PoolStep, takes, adds, lends, prepares, fails,
  keeps, trims, claims, adopts, discovers, activates, releases, returns, disowns, closes, wakes,
  PoolRun, halts, proceeds,
}
use kuma_box.Taps.Free.{has_name, free_list-set_free, IsOnce-take_last}
use kuma_box.Taps.Sound.{is_idle, fits, IsSound, IsOff}
use kuma_box.Taps.Local.{
  IsOff-held, IsOff-owned, ended-IsSound, begun-IsSound, kept-IsSound, trimmed-IsSound,
  returned-IsSound, new_tap-IsSound, lend-IsSound, adopt-IsSound, discover-IsSound,
}
use kuma_box.Taps.Taken.{take_free-idle, taken-IsSound}
use kuma_box.Taps.Kept.{keep_ready-IsSound}
use kuma_box.Taps.Claims.{claim-IsSound}

fits_prepared :
    (j : Option Job) (e : PooledTap)
    → fits j (some e) ≡ true
    → fits j (some (record e { prepared = true })) ≡ true
fits_prepared none e h = refl
fits_prepared (some borrowing) e h = h
fits_prepared (some maintaining) e h = h
fits_prepared (some releasing) e h = h

IsOff-prepared :
    (name : Text) (s : Host) (e : PooledTap)
    → lookup name s.pool.entries ≡ some e
    → ((job : Job) × (lookup name s.jobs ≡ some job)) ⊎ (is_empty e.owner ≡ false)
    → IsOff name s
IsOff-prepared name s e h (inl (job, k)) = IsOff-held name s job k
IsOff-prepared name s e h (inr owned) = IsOff-owned name s e h owned

shape_eq_refl : (a : TapShape) → shape_eq a a ≡ true
shape_eq_refl a = ground arith

take-IsSound :
    (s : Host) (shape : TapShape) (name : Text) (p : TapPool)
    → take_free shape s.pool ≡ ok (some name, p)
    → IsSound s
    → IsSound (record { pool = p; jobs = insert name borrowing s.jobs })
take-IsSound s shape name p h v =
    let (left, last, same, idle) = take_free-idle s v shape name p h in
    subst (λ q. IsSound (record { pool = q; jobs = insert name borrowing s.jobs })) (sym same)
      (taken-IsSound s v shape name left last idle)

flagged_sound :
    (s : Host) (p : TapPool)
    → IsSound s
    → p.free ≡ s.pool.free
    → p.entries ≡ s.pool.entries
    → IsSound (record s { pool = p })
flagged_sound s p v free entries = record {
  idle = λ shape name h. rw entries (v.idle shape name (rw free at h));
  held = λ name. rw entries (v.held name);
  once = λ shape. rw free (v.once shape);
  unique = rw entries v.unique;
}

module _ (options : PoolOptions) where
  pub PoolStep-IsSound : (s s' : Host) → PoolStep options s s' → IsSound s → IsSound s'
  PoolStep-IsSound s s' (takes shape name p h e) v =
      subst IsSound (sym e) (take-IsSound s shape name p h v)
  PoolStep-IsSound s s' (adds name shape job p other h e) v =
      subst IsSound (sym e) (new_tap-IsSound s v name shape job p other h)
  PoolStep-IsSound s s' (lends shape name id t r p h k l e) v =
      subst IsSound (sym e) (lend-IsSound s v options shape name id t r p h l)
  PoolStep-IsSound s s' (prepares name t h w e) v = subst IsSound (sym e) (
      kept-IsSound name s v (IsOff-prepared name s t h w) (record t { prepared = true })
        (set_tap name (record t { prepared = true }) s.pool) refl refl
        (fits_prepared (lookup name s.jobs) t (rw h at (v.held name))))
  PoolStep-IsSound s s' (fails name t job f h k e) v = subst IsSound (sym e) (
      ended-IsSound name s v (IsOff-held name s job h) (fail_tap f t)
        (set_tap name (fail_tap f t) s.pool) refl refl)
  PoolStep-IsSound s s' (keeps name t job p h k l e) v =
      subst IsSound (sym e) (keep_ready-IsSound s v name t (IsOff-held name s job h) options p l)
  PoolStep-IsSound s s' (trims name job h e) v =
      subst IsSound (sym e) (trimmed-IsSound name s v (IsOff-held name s job h))
  PoolStep-IsSound s s' (claims e) v = subst IsSound (sym e) (claim-IsSound s v)
  PoolStep-IsSound s s' (adopts item p h e) v = subst IsSound (sym e) (adopt-IsSound s v item p h)
  PoolStep-IsSound s s' (discovers name shape epoch e) v =
      subst IsSound (sym e) (discover-IsSound s v name shape epoch)
  PoolStep-IsSound s s' (activates name t h k owned e) v = subst IsSound (sym e) (
      kept-IsSound name s v (IsOff-owned name s t h owned) (record t { phase = pool_active })
        (set_tap name (record t { phase = pool_active }) s.pool) refl refl (rw k refl))
  PoolStep-IsSound s s' (releases name t h k owned e) v = subst IsSound (sym e) (
      begun-IsSound name s v (IsOff-owned name s t h owned) (record t { phase = pool_cleaning })
        (set_tap name (record t { phase = pool_cleaning }) s.pool) releasing refl refl
        (rw owned refl))
  PoolStep-IsSound s s' (returns name h e) v =
      subst IsSound (sym e) (returned-IsSound name s v (IsOff-held name s releasing h))
  PoolStep-IsSound s s' (disowns name t f h k owned e) v = subst IsSound (sym e) (
      kept-IsSound name s v (IsOff-owned name s t h owned) (fail_tap f t)
        (set_tap name (fail_tap f t) s.pool) refl refl (rw k refl))
  PoolStep-IsSound s s' (closes e) v =
      subst IsSound (sym e) (flagged_sound s (close_pool s.pool) v refl refl)
  PoolStep-IsSound s s' (wakes h e) v =
      subst IsSound (sym e) (flagged_sound s (take_wake s.pool) v refl refl)

  -- Every run of steps of concurrent calls keeps the pool sound: what is on a free list is there
  -- once, fits its shape, is ready, unowned and worked on by nobody, what a call works on is an
  -- entry that fits its job, and each name has one entry.
  pub PoolRun-IsSound : (s s' : Host) → PoolRun options s s' → IsSound s → IsSound s'
  PoolRun-IsSound s s' (halts e) v = subst IsSound (sym e) v
  PoolRun-IsSound s s' (proceeds m step rest) v =
      PoolRun-IsSound m s' rest (PoolStep-IsSound s m step v)

  abbrev pub started : Host
  started = record {
    pool = record { entries = []; free = []; wake = false; closed = false };
    jobs = [];
  }

  pub started-IsSound : IsSound started
  unfolding free_list lookup has_name
  started-IsSound = record {
    idle = λ shape name h. absurd (ground arith);
    held = λ name. refl;
    once = λ shape. tt;
    unique = tt;
  }

  -- What a borrower gets from the free list.
  pub record IsUnheld (s : Host) (shape : TapShape) (name : Text) (p : TapPool) : Type 0 where
    pub entry : PooledTap
    pub there : lookup name s.pool.entries ≡ some entry
    pub fitting : shape_eq entry.shape shape ≡ true
    pub ready : is_ready entry.phase ≡ true
    pub unowned : is_empty entry.owner ≡ true
    pub untouched : lookup name s.jobs ≡ none
    pub gone : has_name name (free_list shape p.free) ≡ false

  unheld :
      (s : Host) (shape : TapShape) (name : Text) (p : TapPool)
      → is_idle shape (lookup name s.pool.entries) (lookup name s.jobs) ≡ true
      → has_name name (free_list shape p.free) ≡ false
      → IsUnheld s shape name p
  unheld s shape name p i gone = elim (Option-cases (lookup name s.pool.entries)) [
    | inl n ↦
        let f : is_idle shape none (lookup name s.jobs) ≡ true = rw n at i in absurd (ground arith)
    | inr (e, h) ↦ elim (Option-cases (lookup name s.jobs)) [
      | inr (job, k) ↦
          let f : is_idle shape (some e) (some job) ≡ true = rw (h, k) at i in absurd (ground arith)
      | inl k ↦
          let f : is_idle shape (some e) none ≡ true = rw (h, k) at i in
          record {
            entry = e;
            there = h;
            fitting = ground arith;
            ready = ground arith;
            unowned = ground arith;
            untouched = k;
            gone = gone;
          }
    ]
  ]

  -- In every state that steps of concurrent calls lead to from an empty pool, a device that is
  -- taken from the free list of a shape is an entry of that shape that is ready, has no owner and
  -- is worked on by no other call, and it is on that list no more.
  pub take_free-IsUnheld :
      (s : Host) (shape : TapShape) (name : Text) (p : TapPool)
      → PoolRun options started s
      → take_free shape s.pool ≡ ok (some name, p)
      → IsUnheld s shape name p
  take_free-IsUnheld s shape name p run h =
      let v = PoolRun-IsSound started s run started-IsSound in
      let (left, last, same, idle) = take_free-idle s v shape name p h in
      let (out, rest) =
        IsOnce-take_last (free_list shape s.pool.free) left name last (v.once shape) in
      unheld s shape name p idle
        (rw (same, free_list-set_free shape shape left s.pool.free, shape_eq_refl shape) out)
