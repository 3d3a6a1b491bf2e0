-- ===== src/Taps.antt =====
-- internal/network/tap/pool_linux.go: the pool of idle TAP devices. A function here is what the code
-- does while it holds the mutex of the pool; the work on devices stands between them.
pub mod Steps
pub mod Alias
pub mod Free
pub mod Sound
pub mod Local
pub mod Taken
pub mod Kept
pub mod Claims
pub mod Run
pub mod Fenced
pub mod Epochs
pub mod Capacity
use kuma_box.Prelude.{
  ℕ, ◌+◌, ◌*◌, ◌/◌, ◌^◌, ◌-◌, Bool, true, false, not, ◌&&◌, ◌||◌, Option, none, some, List, [], ◌∷◌,
  ◌++◌, if◌then◌else◌, ltb, leb, ◌==◌, length, Text, text_eq, is_empty, Dict, lookup, insert,
  without,
}
use kuma_box.Errdefs.{Failure, Result, ok, err, plain, ◌>>=◌, ◌>>◌, refuse_if}

-- poolPhase.
pub data PoolPhase : Type 0 where
  pool_preparing pool_ready pool_reserved pool_active pool_cleaning : PoolPhase

abbrev pub is_ready : PoolPhase → Bool
is_ready pool_ready = true
is_ready p = false

abbrev pub is_cleaning : PoolPhase → Bool
is_cleaning pool_cleaning = true
is_cleaning p = false

-- tapShape.
pub record TapShape : Type 0 where
  pub slot : ℕ
  pub queues : ℕ

abbrev pub shape_eq : TapShape → TapShape → Bool
shape_eq a b = (a.slot == b.slot) && (a.queues == b.queues)

-- pooledTAP, less its name, which is its key in `entries`.
pub record PooledTap : Type 0 where
  pub shape : TapShape
  pub epoch : ℕ
  pub owner : Text
  pub phase : PoolPhase
  pub prepared : Bool
  pub last_error : Option Failure

-- tapPool. A pointer to an entry is the entry's name.
pub record TapPool : Type 0 where
  pub entries : Dict PooledTap
  pub free : List (TapShape × List Text)
  pub wake : Bool
  pub closed : Bool

-- What Options says of the pool.
pub record PoolOptions : Type 0 where
  pub pool_size : ℕ
  pub pool_queues : List ℕ

-- What the pool reads of a lease.
pub record TapLease : Type 0 where
  pub sandbox : Text
  pub tap : Text
  pub index : ℕ
  pub queues : ℕ
  pub epoch : ℕ

abbrev pub max_uint64 : ℕ
max_uint64 = 2 ^ 64 - 1

-- s.ready[shape], and the assignment to it.
unfoldable pub free_list : TapShape → List (TapShape × List Text) → List Text
free_list shape [] = []
free_list shape ((other, names) ∷ rest) =
    if shape_eq other shape then names else free_list shape rest

unfoldable pub set_free :
    TapShape → List Text → List (TapShape × List Text) → List (TapShape × List Text)
set_free shape names [] = (shape, names) ∷ []
set_free shape names ((other, old) ∷ rest) =
    if shape_eq other shape then (other, names) ∷ rest else (other, old) ∷ set_free shape names rest

-- free[len(free)-1] and free[:len(free)-1].
unfoldable pub take_last : List Text → Option (Text × List Text)
take_last [] = none
take_last (x ∷ xs) = elim (take_last xs) [ none ↦ some (x, []) | some (y, ys) ↦ some (y, x ∷ ys) ]

-- idleCountLocked.
unfoldable pub idle_count : List (TapShape × List Text) → ℕ
idle_count [] = 0
idle_count ((shape, names) ∷ rest) = length names + idle_count rest

abbrev pub set_tap : Text → PooledTap → TapPool → TapPool
set_tap name e s = record s { entries = insert name e s.entries }

-- The first part of borrowTAP: a device from the free list, if there is one.
unfoldable pub take_free : TapShape → TapPool → Result (Option Text × TapPool)
take_free shape s = do
  refuse_if s.closed plain
  ok (elim (take_last (free_list shape s.free)) [
    | none ↦ (none, s)
    | some (name, left) ↦ (some name, record s { free = set_free shape left s.free })
  ])

-- The last part of borrowTAP. The epoch that it returns is the fence of the new lease.
unfoldable pub lend :
    PoolOptions → TapShape → Text → PooledTap → Text → TapPool → Result ℕ × TapPool
lend options shape name e id s =
    if e.epoch == max_uint64
    then (err plain, set_tap name (record e { phase = pool_cleaning }) s)
    else (
      ok (e.epoch + 1),
      record (set_tap name (record e { epoch = e.epoch + 1; owner = id; phase = pool_reserved })
          s) { wake = leb (length (free_list shape s.free)) (options.pool_size / 2) || s.wake },
    )

abbrev pub unused_tap : TapShape → PooledTap
unused_tap shape = record {
  shape = shape;
  epoch = 0;
  owner = [];
  phase = pool_preparing;
  prepared = false;
  last_error = none;
}

-- newPooledTAP, with the name that it draws.
unfoldable pub new_tap : Text → TapShape → TapPool → Result TapPool
new_tap name shape s = do
  refuse_if s.closed plain
  elim (lookup name s.entries) [
    | some e ↦ err plain
    | none ↦ ok (set_tap name (unused_tap shape) s)
  ]

abbrev pub lease_shape : TapLease → TapShape
lease_shape item = record { slot = item.index; queues = item.queues }

abbrev pub leased_tap : TapLease → PooledTap
leased_tap item = record {
  shape = lease_shape item;
  epoch = item.epoch;
  owner = item.sandbox;
  phase = pool_active;
  prepared = false;
  last_error = none;
}

-- adoptPooledLease.
unfoldable pub adopt : TapLease → TapPool → Result TapPool
adopt item s = if item.epoch == 0 then ok s else elim (lookup item.tap s.entries) [
  | none ↦ ok (set_tap item.tap (leased_tap item) s)
  | some e ↦
      if not (text_eq e.owner item.sandbox)
        || not (e.epoch == item.epoch)
        || not (shape_eq e.shape (lease_shape item))
      then err plain
      else ok s
]

abbrev pub found_tap : TapShape → ℕ → PooledTap
found_tap shape epoch = record {
  shape = shape;
  epoch = epoch;
  owner = [];
  phase = pool_cleaning;
  prepared = false;
  last_error = none;
}

-- What StartPool does with a device that it finds.
unfoldable pub discover : Text → TapShape → ℕ → TapPool → TapPool
discover name shape epoch s = elim (lookup name s.entries) [
  | some e ↦ s
  | none ↦ set_tap name (found_tap shape epoch) s
]

-- poolFailure.
abbrev pub fail_tap : Failure → PooledTap → PooledTap
fail_tap f e = record e { phase = pool_cleaning; owner = []; last_error = some f }

-- The first part of markPoolReady: `none` is a device that is to be trimmed.
unfoldable pub keep_ready : PoolOptions → Text → PooledTap → TapPool → Option TapPool
keep_ready options name e s =
    if not s.closed
      && ltb (idle_count s.free) (options.pool_size * length options.pool_queues)
      && ltb e.epoch max_uint64
    then some
        (record (set_tap name (record e { phase = pool_ready; owner = []; last_error = none }) s) {
          free = set_free e.shape (free_list e.shape s.free ++ (name ∷ [])) s.free;
        })
    else none

-- The deletion of an entry, in markPoolReady and in maintainPool.
abbrev pub remove_tap : Text → TapPool → TapPool
remove_tap name s = record s { entries = without name s.entries }

-- The first part of maintainPool: what is to be cleaned and has no owner.
abbrev pub awaits_cleaning : PooledTap → Bool
awaits_cleaning e = is_cleaning e.phase && is_empty e.owner

abbrev pub claim_tap : PooledTap → PooledTap
claim_tap e = if awaits_cleaning e then record e { phase = pool_preparing } else e

unfoldable pub claim_entries : Dict PooledTap → Dict PooledTap
claim_entries [] = []
claim_entries ((name, e) ∷ d) = (name, claim_tap e) ∷ claim_entries d

unfoldable pub claimed_names : Dict PooledTap → List Text
claimed_names [] = []
claimed_names ((name, e) ∷ d) =
    if awaits_cleaning e then name ∷ claimed_names d else claimed_names d

abbrev pub claim : TapPool → TapPool
claim s = record s { entries = claim_entries s.entries }

-- The tests of maintainPool before it makes new devices.
unfoldable pub has_failed : TapShape → Dict PooledTap → Bool
has_failed shape [] = false
has_failed shape ((name, e) ∷ d) =
    (shape_eq e.shape shape && awaits_cleaning e) || has_failed shape d

unfoldable pub wants_refill : Bool → PoolOptions → TapShape → TapPool → Bool
wants_refill initial options shape s =
    (initial || leb (length (free_list shape s.free)) (options.pool_size / 2))
    && not (has_failed shape s.entries)

unfoldable pub is_full : PoolOptions → TapShape → TapPool → Bool
is_full options shape s =
    leb options.pool_size (length (free_list shape s.free))
    || leb (options.pool_size * length options.pool_queues) (idle_count s.free)

-- tapPool.close.
abbrev pub close_pool : TapPool → TapPool
close_pool s = record s { closed = true }

-- runPool, when it was woken.
abbrev pub take_wake : TapPool → TapPool
take_wake s = record s { wake = false }
