-- ===== src/Taps/Steps.antt =====
-- The pool under concurrent calls. A step is what one call does while it holds the mutex; a job is a
-- call that holds a pointer to an entry and works on the device. Calls for one sandbox follow each
-- other, since they hold the lock of the sandbox.
use kuma_box.Prelude.{
  ℕ, ◌≡◌, ◌≢◌, ◌⊎◌, true, false, none, some, List, [], ◌∷◌, Text, is_empty, Dict, lookup, insert,
  without,
}
use kuma_box.Errdefs.{Failure, Result, ok}
use kuma_box.Taps.{
  TapShape, PooledTap, TapPool, PoolOptions, TapLease, pool_active, pool_cleaning, set_tap,
  take_free, lend, new_tap, adopt, discover, fail_tap, keep_ready, remove_tap, claim, claimed_names,
  close_pool, take_wake,
}

pub data Job : Type 0 where
  borrowing maintaining releasing : Job

pub record Host : Type 0 where
  pub pool : TapPool
  pub jobs : Dict Job

-- maintainPool goes on with every device that it claimed.
unfoldable pub hold_all : List Text → Dict Job → Dict Job
hold_all [] jobs = jobs
hold_all (name ∷ names) jobs = insert name maintaining (hold_all names jobs)

pub data PoolStep (options : PoolOptions) (s s' : Host) : Type 0 where
  -- borrowTAP
  takes :
      (shape : TapShape) (name : Text) (p : TapPool)
      → take_free shape s.pool ≡ ok (some name, p)
      → s' ≡ record { pool = p; jobs = insert name borrowing s.jobs }
      → PoolStep options s s'
  -- newPooledTAP, in borrowTAP and in maintainPool
  adds :
      (name : Text) (shape : TapShape) (job : Job) (p : TapPool)
      → job ≢ releasing
      → new_tap name shape s.pool ≡ ok p
      → s' ≡ record { pool = p; jobs = insert name job s.jobs }
      → PoolStep options s s'
  lends :
      (shape : TapShape) (name id : Text) (e : PooledTap) (r : Result ℕ) (p : TapPool)
      → lookup name s.jobs ≡ some borrowing
      → lookup name s.pool.entries ≡ some e
      → lend options shape name e id s.pool ≡ (r, p)
      → s' ≡ record { pool = p; jobs = without name s.jobs }
      → PoolStep options s s'
  -- preparePoolLink, for a job or in ensurePooledTAP
  prepares :
      (name : Text) (e : PooledTap)
      → lookup name s.pool.entries ≡ some e
      → ((job : Job) × (lookup name s.jobs ≡ some job)) ⊎ (is_empty e.owner ≡ false)
      → s' ≡ record s { pool = set_tap name (record e { prepared = true }) s.pool }
      → PoolStep options s s'
  -- poolFailure, at the end of a job
  fails :
      (name : Text) (e : PooledTap) (job : Job) (f : Failure)
      → lookup name s.jobs ≡ some job
      → lookup name s.pool.entries ≡ some e
      → s' ≡ record { pool = set_tap name (fail_tap f e) s.pool; jobs = without name s.jobs }
      → PoolStep options s s'
  -- markPoolReady
  keeps :
      (name : Text) (e : PooledTap) (job : Job) (p : TapPool)
      → lookup name s.jobs ≡ some job
      → lookup name s.pool.entries ≡ some e
      → keep_ready options name e s.pool ≡ some p
      → s' ≡ record { pool = p; jobs = without name s.jobs }
      → PoolStep options s s'
  -- markPoolReady of a device that is not kept, and maintainPool of one that is gone
  trims :
      (name : Text) (job : Job)
      → lookup name s.jobs ≡ some job
      → s' ≡ record { pool = remove_tap name s.pool; jobs = without name s.jobs }
      → PoolStep options s s'
  -- maintainPool
  claims :
      s' ≡ record { pool = claim s.pool; jobs = hold_all (claimed_names s.pool.entries) s.jobs }
      → PoolStep options s s'
  adopts :
      (item : TapLease) (p : TapPool)
      → adopt item s.pool ≡ ok p
      → s' ≡ record s { pool = p }
      → PoolStep options s s'
  -- StartPool
  discovers :
      (name : Text) (shape : TapShape) (epoch : ℕ)
      → s' ≡ record s { pool = discover name shape epoch s.pool }
      → PoolStep options s s'
  -- ensurePooledTAP
  activates :
      (name : Text) (e : PooledTap)
      → lookup name s.pool.entries ≡ some e
      → lookup name s.jobs ≡ none
      → is_empty e.owner ≡ false
      → s' ≡ record s { pool = set_tap name (record e { phase = pool_active }) s.pool }
      → PoolStep options s s'
  -- releasePooledTAP, and its return while the lease is still there
  releases :
      (name : Text) (e : PooledTap)
      → lookup name s.pool.entries ≡ some e
      → lookup name s.jobs ≡ none
      → is_empty e.owner ≡ false
      → s' ≡ record {
        pool = set_tap name (record e { phase = pool_cleaning }) s.pool;
        jobs = insert name releasing s.jobs;
      }
      → PoolStep options s s'
  returns :
      (name : Text)
      → lookup name s.jobs ≡ some releasing
      → s' ≡ record s { jobs = without name s.jobs }
      → PoolStep options s s'
  -- allocateLease, when nothing was published
  disowns :
      (name : Text) (e : PooledTap) (f : Failure)
      → lookup name s.pool.entries ≡ some e
      → lookup name s.jobs ≡ none
      → is_empty e.owner ≡ false
      → s' ≡ record s { pool = set_tap name (fail_tap f e) s.pool }
      → PoolStep options s s'
  closes : s' ≡ record s { pool = close_pool s.pool } → PoolStep options s s'
  wakes : s.pool.wake ≡ true → s' ≡ record s { pool = take_wake s.pool } → PoolStep options s s'

pub data PoolRun (options : PoolOptions) : Host → Host → Type 0 where
  halts : {s s' : Host} → s' ≡ s → PoolRun options s s'
  proceeds :
      {s s' : Host} (m : Host) → PoolStep options s m → PoolRun options m s' → PoolRun options s s'
