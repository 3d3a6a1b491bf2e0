-- ===== src/Taps/Taken.antt =====
-- A device that leaves the free list for a borrower.
use kuma_box.Prelude.{
  ◌≡◌, refl, sym, ap, subst, ◌∙◌, inl, inr, true, false, Option, none, some, List, arith, Text,
  text_eq, text_eq_iff, text_eq_refl, is_empty, lookup, insert, Bool-cases, Option-cases,
}
use kuma_box.Errdefs.{ok}
use kuma_box.Taps.{
  TapShape, shape_eq, is_ready, is_cleaning, PooledTap, TapPool, take_free, take_last, free_list,
  set_free, PoolPhase, pool_ready, pool_preparing, pool_reserved, pool_active, pool_cleaning,
}
use kuma_box.Taps.Steps.{Job, borrowing, Host}
use kuma_box.Taps.Free.{has_name, free_list-set_free, has_name-take_last, IsOnce-take_last}
use kuma_box.Taps.Sound.{is_idle, fits, IsSound}
use kuma_box.Taps.Local.{insert_apart, lookup-inserted}

idle_same :
    (a b : TapShape) (o : Option PooledTap) (j : Option Job)
    → is_idle a o j ≡ true
    → is_idle b o j ≡ true
    → shape_eq a b ≡ true
idle_same a b none j h k = absurd (ground arith)
idle_same a b (some e) none h k = ground arith
idle_same a b (some e) (some job) h k = absurd (ground arith)

pub idle_moves :
    (a b : TapShape) (o : Option PooledTap) (j : Option Job)
    → shape_eq a b ≡ true
    → is_idle a o j ≡ true
    → is_idle b o j ≡ true
idle_moves a b none j h k = absurd (ground arith)
idle_moves a b (some e) none h k = ground arith
idle_moves a b (some e) (some job) h k = absurd (ground arith)

pub ready_clean : (p : PoolPhase) → is_ready p ≡ true → is_cleaning p ≡ false
ready_clean pool_ready h = refl
ready_clean pool_preparing h = refl
ready_clean pool_reserved h = refl
ready_clean pool_active h = refl
ready_clean pool_cleaning h = absurd (ground arith)

ready_fits :
    (e : PooledTap)
    → is_ready e.phase ≡ true
    → is_empty e.owner ≡ true
    → fits (some borrowing) (some e) ≡ true
ready_fits e r o = rw (o, ready_clean e.phase r) refl

idle_fits :
    (a : TapShape) (o : Option PooledTap) (j : Option Job)
    → is_idle a o j ≡ true
    → fits (some borrowing) o ≡ true
idle_fits a none j h = absurd (ground arith)
idle_fits a (some e) none h = ready_fits e (ground arith) (ground arith)
idle_fits a (some e) (some job) h = absurd (ground arith)

module _ (s : Host) (v : IsSound s) where
  -- A device that is taken is the asked one: idle, owned by nobody, worked on by nobody.
  pub take_free-idle :
      (shape : TapShape) (name : Text) (p : TapPool)
      → take_free shape s.pool ≡ ok (some name, p)
      → (left : List Text) × (take_last (free_list shape s.pool.free) ≡ some (name, left))
        × (p ≡ record s.pool { free = set_free shape left s.pool.free })
        × (is_idle shape (lookup name s.pool.entries) (lookup name s.jobs) ≡ true)
  unfolding take_free
  take_free-idle shape name p h = elim (Bool-cases s.pool.closed) [
    | inl shut ↦ absurd (ground arith)
    | inr going ↦ elim (Option-cases (take_last (free_list shape s.pool.free))) [
      | inl none_left ↦ absurd (ground arith)
      | inr ((other, left), e) ↦
          let first : other ≡ name = ground arith in
          let rest : record s.pool { free = set_free shape left s.pool.free } ≡ p = ground arith in
          let there : has_name name (free_list shape s.pool.free) ≡ true = ground (
            arith,
            has_name-take_last (free_list shape s.pool.free) left other name e,
            text_eq_refl name,
            text_eq_iff other name,
          ) in
          (left, e ∙ ap (λ n. some (n, left)) first, sym rest, v.idle shape name there)
    ]
  ]

  pub taken-IsSound :
      (shape : TapShape) (name : Text) (left : List Text)
      → take_last (free_list shape s.pool.free) ≡ some (name, left)
      → is_idle shape (lookup name s.pool.entries) (lookup name s.jobs) ≡ true
      → IsSound (record {
        pool = record s.pool { free = set_free shape left s.pool.free };
        jobs = insert name borrowing s.jobs;
      })
  taken-IsSound shape name left e i =
      let (gone, still) =
        IsOnce-take_last (free_list shape s.pool.free) left name e (v.once shape) in
      record {
        idle = λ other_shape other h. elim (Bool-cases (shape_eq shape other_shape)) [
          | inl same ↦
              let inside : has_name other left ≡ true =
                rw (free_list-set_free shape other_shape left s.pool.free, same) at h in
              let apart : text_eq name other ≡ false =
                ground (arith, gone, text_eq_iff name other) in
              rw (insert_apart name s.jobs borrowing other apart) (
                idle_moves shape other_shape (lookup other s.pool.entries) (lookup other s.jobs)
                  same
                  (v.idle shape other (
                    ground
                      (arith, has_name-take_last (free_list shape s.pool.free) left name other e))))
          | inr other_list ↦
              let inside : has_name other (free_list other_shape s.pool.free) ≡ true =
                rw (free_list-set_free shape other_shape left s.pool.free, other_list) at h in
              let j = v.idle other_shape other inside in
              let apart : text_eq name other ≡ false = ground (
                arith,
                text_eq_iff name other,
                other_list,
                j,
                i,
                idle_same shape other_shape (lookup name s.pool.entries) (lookup name s.jobs),
              ) in
              rw (insert_apart name s.jobs borrowing other apart) j
        ];
        held = λ other. elim (Bool-cases (text_eq name other)) [
          | inl same ↦
              subst
                (λ n.
                  fits (lookup n (insert name borrowing s.jobs)) (lookup n s.pool.entries) ≡ true)
                ((text_eq_iff name other).0 same)
                (rw (lookup-inserted name s.jobs borrowing)
                  (idle_fits shape (lookup name s.pool.entries) (lookup name s.jobs) i))
          | inr apart ↦ rw (insert_apart name s.jobs borrowing other apart) (v.held other)
        ];
        once = λ other_shape. elim (Bool-cases (shape_eq shape other_shape)) [
          | inl same ↦ rw (free_list-set_free shape other_shape left s.pool.free, same) still
          | inr other_list ↦
              rw (free_list-set_free shape other_shape left s.pool.free, other_list)
                (v.once other_shape)
        ];
        unique = v.unique;
      }
