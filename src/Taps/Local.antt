-- ===== src/Taps/Local.antt =====
-- The steps that touch one device which is on no free list.
use kuma_box.Prelude.{
  ℕ, ◌+◌, ◌≡◌, ◌≢◌, refl, sym, ap, subst, inl, inr, true, false, none, some, ◌==◌, arith, Text,
  text_eq, text_eq_refl, is_empty, Dict, lookup, insert, without, lookup-insert, lookup-without,
  Unique-insert, Unique-without, Bool-cases, Option-cases,
}
use kuma_box.Errdefs.{Result, ok}
use kuma_box.Taps.{
  TapShape, PooledTap, TapPool, TapLease, PoolOptions, set_tap, unused_tap, leased_tap, found_tap,
  new_tap, lend, adopt, discover, remove_tap, max_uint64, pool_cleaning, pool_reserved,
}
use kuma_box.Taps.Steps.{Job, borrowing, maintaining, releasing, Host}
use kuma_box.Taps.Sound.{fits, IsSound, IsOff, IsLocal-IsSound}

pub IsOff-held : (name : Text) (s : Host) (job : Job) → lookup name s.jobs ≡ some job → IsOff name s
IsOff-held name s job h shape = elim (Option-cases (lookup name s.pool.entries)) [
  | inl e ↦ rw (h, e) refl
  | inr (t, e) ↦ rw (h, e) refl
]

pub IsOff-owned :
    (name : Text) (s : Host) (e : PooledTap)
    → lookup name s.pool.entries ≡ some e
    → is_empty e.owner ≡ false
    → IsOff name s
IsOff-owned name s e h owned shape = elim (Option-cases (lookup name s.jobs)) [
  | inl n ↦ rw (h, n) (ground arith)
  | inr (job, n) ↦ rw (h, n) refl
]

IsOff-absent : (name : Text) (s : Host) → lookup name s.pool.entries ≡ none → IsOff name s
IsOff-absent name s h shape = rw h refl

-- Nobody works on a device that is not there.
jobless :
    (name : Text) (s : Host)
    → lookup name s.pool.entries ≡ none
    → IsSound s
    → lookup name s.jobs ≡ none
jobless name s h v = elim (Option-cases (lookup name s.jobs)) [
  | inl n ↦ n
  | inr (job, n) ↦
      let f : fits (some job) none ≡ true = rw (n, h) at (v.held name) in absurd (ground arith)
]

module _ (name : Text) (jobs : Dict Job) where
  pub insert_apart :
      (job : Job) (other : Text)
      → text_eq name other ≡ false
      → lookup other (insert name job jobs) ≡ lookup other jobs
  insert_apart job other d = rw (lookup-insert name other job jobs, d) refl

  pub without_apart :
      (other : Text)
      → text_eq name other ≡ false
      → lookup other (without name jobs) ≡ lookup other jobs
  without_apart other d = rw (lookup-without name other jobs, d) refl

  pub lookup-inserted : (job : Job) → lookup name (insert name job jobs) ≡ some job
  lookup-inserted job = rw (lookup-insert name name job jobs, text_eq_refl name) refl

  pub lookup-removed : lookup name (without name jobs) ≡ none
  lookup-removed = rw (lookup-without name name jobs, text_eq_refl name) refl

module _ (name : Text) (s : Host) (v : IsSound s) (off : IsOff name s) where
  -- An entry is written, and the jobs of others stay.
  written :
      (e : PooledTap) (p : TapPool) (jobs : Dict Job)
      → p.free ≡ s.pool.free
      → p.entries ≡ insert name e s.pool.entries
      → ((other : Text) → text_eq name other ≡ false → lookup other jobs ≡ lookup other s.jobs)
      → fits (lookup name jobs) (some e) ≡ true
      → IsSound (record { pool = p; jobs = jobs })
  written e p jobs same new apart fit =
      IsLocal-IsSound name s (record { pool = p; jobs = jobs })
        (record {
          off = off;
          free = same;
          entries = λ other d. rw (new, lookup-insert name other e s.pool.entries, d) refl;
          jobs = apart;
          fit = rw (new, lookup-insert name name e s.pool.entries, text_eq_refl name) fit;
          one = rw new (Unique-insert name e s.pool.entries v.unique);
        })
        v

  -- An entry is written, and its job ends.
  pub ended-IsSound :
      (e : PooledTap) (p : TapPool)
      → p.free ≡ s.pool.free
      → p.entries ≡ insert name e s.pool.entries
      → IsSound (record { pool = p; jobs = without name s.jobs })
  ended-IsSound e p same new =
      written e p (without name s.jobs) same new (without_apart name s.jobs)
        (rw (lookup-removed name s.jobs) refl)

  -- An entry is written, and a job begins.
  pub begun-IsSound :
      (e : PooledTap) (p : TapPool) (job : Job)
      → p.free ≡ s.pool.free
      → p.entries ≡ insert name e s.pool.entries
      → fits (some job) (some e) ≡ true
      → IsSound (record { pool = p; jobs = insert name job s.jobs })
  begun-IsSound e p job same new fit =
      written e p (insert name job s.jobs) same new (insert_apart name s.jobs job)
        (rw (lookup-inserted name s.jobs job) fit)

  -- An entry is written, and its job, if there is one, goes on.
  pub kept-IsSound :
      (e : PooledTap) (p : TapPool)
      → p.free ≡ s.pool.free
      → p.entries ≡ insert name e s.pool.entries
      → fits (lookup name s.jobs) (some e) ≡ true
      → IsSound (record s { pool = p })
  kept-IsSound e p same new fit = written e p s.jobs same new (λ other d. refl) fit

  pub trimmed-IsSound :
      IsSound (record { pool = remove_tap name s.pool; jobs = without name s.jobs })
  trimmed-IsSound =
      IsLocal-IsSound name s (record { pool = remove_tap name s.pool; jobs = without name s.jobs })
        (record {
          off = off;
          free = refl;
          entries = λ other d. rw (lookup-without name other s.pool.entries, d) refl;
          jobs = without_apart name s.jobs;
          fit = rw (lookup-removed name s.jobs) refl;
          one = Unique-without name s.pool.entries v.unique;
        })
        v

  pub returned-IsSound : IsSound (record s { jobs = without name s.jobs })
  returned-IsSound =
      IsLocal-IsSound name s (record s { jobs = without name s.jobs })
        (record {
          off = off;
          free = refl;
          entries = λ other d. refl;
          jobs = without_apart name s.jobs;
          fit = rw (lookup-removed name s.jobs) refl;
          one = v.unique;
        })
        v

unused_fits :
    (shape : TapShape) (job : Job)
    → job ≢ releasing
    → fits (some job) (some (unused_tap shape)) ≡ true
unused_fits shape borrowing h = refl
unused_fits shape maintaining h = refl
unused_fits shape releasing h = absurd (h refl)

module _ (s : Host) (v : IsSound s) where
  added :
      (name : Text) (e : PooledTap)
      → lookup name s.pool.entries ≡ none
      → IsSound (record s { pool = set_tap name e s.pool })
  added name e absent =
      kept-IsSound name s v (IsOff-absent name s absent) e (set_tap name e s.pool) refl refl
        (rw (jobless name s absent v) refl)

  pub new_tap-IsSound :
      (name : Text) (shape : TapShape) (job : Job) (p : TapPool)
      → job ≢ releasing
      → new_tap name shape s.pool ≡ ok p
      → IsSound (record { pool = p; jobs = insert name job s.jobs })
  unfolding new_tap
  new_tap-IsSound name shape job p other h = elim (Bool-cases s.pool.closed) [
    | inl shut ↦ absurd (ground arith)
    | inr going ↦ elim (Option-cases (lookup name s.pool.entries)) [
      | inr (e, there) ↦ absurd (ground arith)
      | inl absent ↦
          let same : set_tap name (unused_tap shape) s.pool ≡ p = ground arith in
          subst (λ q. IsSound (record { pool = q; jobs = insert name job s.jobs })) same
            (begun-IsSound name s v (IsOff-absent name s absent) (unused_tap shape)
              (set_tap name (unused_tap shape) s.pool) job refl refl (unused_fits shape job other))
    ]
  ]

  pub lend-IsSound :
      (options : PoolOptions) (shape : TapShape) (name id : Text) (e : PooledTap) (r : Result ℕ)
      (p : TapPool)
      → lookup name s.jobs ≡ some borrowing
      → lend options shape name e id s.pool ≡ (r, p)
      → IsSound (record { pool = p; jobs = without name s.jobs })
  unfolding lend
  lend-IsSound options shape name id e r p h k = elim (Bool-cases (e.epoch == max_uint64)) [
    | inl spent ↦
        let k' = rw spent at k in
        ended-IsSound name s v (IsOff-held name s borrowing h) (record e { phase = pool_cleaning })
          p (ap (λ q. q.1.free) (sym k')) (ap (λ q. q.1.entries) (sym k'))
    | inr more ↦
        let k' = rw more at k in
        ended-IsSound name s v (IsOff-held name s borrowing h)
          (record e { epoch = e.epoch + 1; owner = id; phase = pool_reserved }) p
          (ap (λ q. q.1.free) (sym k')) (ap (λ q. q.1.entries) (sym k'))
  ]

  pub adopt-IsSound :
      (item : TapLease) (p : TapPool) → adopt item s.pool ≡ ok p → IsSound (record s { pool = p })
  unfolding adopt
  adopt-IsSound item p h = elim (Bool-cases (item.epoch == 0)) [
    | inl none_given ↦
        let same : s.pool ≡ p = ground arith in subst (λ q. IsSound (record s { pool = q })) same v
    | inr given ↦ elim (Option-cases (lookup item.tap s.pool.entries)) [
      | inr (e, there) ↦
          let same : s.pool ≡ p = ground arith in
          subst (λ q. IsSound (record s { pool = q })) same v
      | inl absent ↦
          let same : set_tap item.tap (leased_tap item) s.pool ≡ p = ground arith in
          subst (λ q. IsSound (record s { pool = q })) same
            (added item.tap (leased_tap item) absent)
    ]
  ]

  pub discover-IsSound :
      (name : Text) (shape : TapShape) (epoch : ℕ)
      → IsSound (record s { pool = discover name shape epoch s.pool })
  unfolding discover
  discover-IsSound name shape epoch = elim (Option-cases (lookup name s.pool.entries)) [
    | inr (e, there) ↦ rw (there, discover) v
    | inl absent ↦ rw (absent, discover) (added name (found_tap shape epoch) absent)
  ]
