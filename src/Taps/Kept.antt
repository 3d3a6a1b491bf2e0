-- ===== src/Taps/Kept.antt =====
-- A device that goes on the free list.
use kuma_box.Prelude.{
  ◌*◌, ◌≡◌, refl, sym, subst, inl, inr, true, false, not, ◌&&◌, none, some, List, [], ◌∷◌, ◌++◌,
  arith, Text, text_eq, text_eq_iff, text_eq_refl, lookup, insert, without, lookup-insert,
  Unique-insert, Bool-cases, ltb, length,
}
use kuma_box.Taps.{
  TapShape, shape_eq, PooledTap, TapPool, PoolOptions, free_list, set_free, keep_ready, pool_ready,
  max_uint64, idle_count,
}
use kuma_box.Taps.Steps.{Host}
use kuma_box.Taps.Free.{has_name, free_list-set_free, has_name-append, IsOnce-append}
use kuma_box.Taps.Sound.{is_idle, fits, IsSound, IsOff}
use kuma_box.Taps.Local.{without_apart, lookup-removed}
use kuma_box.Taps.Taken.{idle_moves}

abbrev kept_tap : PooledTap → PooledTap
kept_tap e = record e { phase = pool_ready; owner = []; last_error = none }

module _ (s : Host) (v : IsSound s) (name : Text) (e : PooledTap) (off : IsOff name s) where
  abbrev old : List Text
  old = free_list e.shape s.pool.free

  abbrev lists : List (TapShape × List Text)
  lists = set_free e.shape (old ++ (name ∷ [])) s.pool.free

  absent : (shape : TapShape) → has_name name (free_list shape s.pool.free) ≡ false
  absent shape = ground (arith, off shape, v.idle shape name)

  idle_kept :
      (shape : TapShape) (other : Text)
      → text_eq name other ≡ false
      → has_name other (free_list shape lists) ≡ true
      → is_idle shape (lookup other s.pool.entries) (lookup other s.jobs) ≡ true
  idle_kept shape other apart h = elim (Bool-cases (shape_eq e.shape shape)) [
    | inl same ↦
        let inside : has_name other (old ++ (name ∷ [])) ≡ true =
          rw (free_list-set_free e.shape shape (old ++ (name ∷ [])) s.pool.free, same) at h in
        idle_moves e.shape shape (lookup other s.pool.entries) (lookup other s.jobs) same
          (v.idle e.shape other (ground (arith, has_name-append old name other)))
    | inr other_list ↦
        v.idle shape other
          (rw (free_list-set_free e.shape shape (old ++ (name ∷ [])) s.pool.free, other_list) at h)
  ]

  own_list :
      (shape : TapShape)
      → has_name name (free_list shape lists) ≡ true
      → shape_eq e.shape shape ≡ true
  own_list shape h = elim (Bool-cases (shape_eq e.shape shape)) [
    | inl same ↦ same
    | inr other_list ↦
        let inside : has_name name (free_list shape s.pool.free) ≡ true =
          rw (free_list-set_free e.shape shape (old ++ (name ∷ [])) s.pool.free, other_list) at h in
        absurd (ground (arith, absent shape))
  ]

  abbrev after : Host
  after = record {
    pool = record s.pool { entries = insert name (kept_tap e) s.pool.entries; free = lists };
    jobs = without name s.jobs;
  }

  idle_self :
      (shape : TapShape)
      → shape_eq e.shape shape ≡ true
      → is_idle shape (lookup name after.pool.entries) (lookup name after.jobs) ≡ true
  idle_self shape same =
      rw
        (
          lookup-insert name name (kept_tap e) s.pool.entries,
          text_eq_refl name,
          lookup-removed name s.jobs,
        )
        (ground arith)

  kept_sound : IsSound after
  kept_sound = record {
    idle = λ shape other h. elim (Bool-cases (text_eq name other)) [
      | inl same ↦
          let eq : name ≡ other = (text_eq_iff name other).0 same in
          subst (λ n. is_idle shape (lookup n after.pool.entries) (lookup n after.jobs) ≡ true) eq
            (idle_self shape (own_list shape (rw (sym eq) at h)))
      | inr apart ↦
          rw
            (
              lookup-insert name other (kept_tap e) s.pool.entries,
              apart,
              without_apart name s.jobs other apart,
            )
            (idle_kept shape other apart h)
    ];
    held = λ other. elim (Bool-cases (text_eq name other)) [
      | inl same ↦
          subst (λ n. fits (lookup n after.jobs) (lookup n after.pool.entries) ≡ true)
            ((text_eq_iff name other).0 same) (rw (lookup-removed name s.jobs) refl)
      | inr apart ↦
          rw
            (
              lookup-insert name other (kept_tap e) s.pool.entries,
              apart,
              without_apart name s.jobs other apart,
            )
            (v.held other)
    ];
    once = λ shape. elim (Bool-cases (shape_eq e.shape shape)) [
      | inl same ↦
          rw (free_list-set_free e.shape shape (old ++ (name ∷ [])) s.pool.free, same)
            (IsOnce-append old name (absent e.shape) (v.once e.shape))
      | inr other_list ↦
          rw (free_list-set_free e.shape shape (old ++ (name ∷ [])) s.pool.free, other_list)
            (v.once shape)
    ];
    unique = Unique-insert name (kept_tap e) s.pool.entries v.unique;
  }

  pub keep_ready-IsSound :
      (options : PoolOptions) (p : TapPool)
      → keep_ready options name e s.pool ≡ some p
      → IsSound (record { pool = p; jobs = without name s.jobs })
  unfolding keep_ready
  keep_ready-IsSound options p h =
      elim (Bool-cases (
        not s.pool.closed
        && ltb (idle_count s.pool.free) (options.pool_size * length options.pool_queues)
        && ltb e.epoch max_uint64)) [
          | inl room ↦
              let same : after.pool ≡ p = ground arith in
              subst (λ q. IsSound (record { pool = q; jobs = without name s.jobs })) same kept_sound
          | inr full ↦ absurd (ground arith)
        ]
