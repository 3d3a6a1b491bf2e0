-- ===== src/Errdefs.antt =====
-- internal/errdefs/error.go: stable failure classes and codes, and the results of fallible code.
-- Of an error the class, the code and the committed mark are kept; its texts and its cause tree,
-- which only people read, are left out.
use kuma_box.Prelude.{◌≡◌, refl, ◌⊎◌, inl, inr, Bool, true, false, ◌||◌, Option, none, some}

pub data Class : Type 0 where
  unknown not_found invalid conflict unavailable corrupt internal : Class

pub data Code : Type 0 where
  missing name_taken state_conflict invalid_argument host_incompatible image_incompatible : Code
  digest_mismatch artifact_corrupt artifact_unavailable referenced store_busy unexpected : Code

-- `plain` is an error that no boundary has classified: errors.New, fmt.Errorf, a context's error.
pub data Failure : Type 0 where
  plain : Failure
  classified : Class → Code → Bool → Failure

-- New.
abbrev pub failure : Class → Code → Failure
failure class code = classified class code false

-- The committed mark can only become true; what has no class becomes internal.
unfoldable pub with_context : Bool → Failure → Failure
with_context committed plain = classified internal unexpected committed
with_context committed (classified class code before) = classified class code (committed || before)

unfoldable pub code_of : Failure → Option Code
code_of plain = none
code_of (classified class code committed) = some code

pub data Result {ℓ} (A : Type ℓ) : Type ℓ where
  ok : A → Result A
  err : Failure → Result A

abbrev pub is_ok {ℓ} : {A : Type ℓ} → Result A → Bool
is_ok (ok a) = true
is_ok (err e) = false

infixl 5 ◌>>◌
infixl 5 ◌>>=◌
-- What follows a step runs only if the step succeeded.
abbrev pub ◌>>=◌ {κ ℓ} : {B : Type κ} {A : Type ℓ} → Result A → (A → Result B) → Result B
err failed >>= next = err failed
ok value >>= next = next value

-- `if bad { return err }`.
abbrev pub refuse_if : Bool → Failure → Result (Unit {0})
refuse_if true e = err e
refuse_if false e = ok tt

abbrev pub ◌>>◌ {ℓ} : {B : Type ℓ} → Result (Unit {0}) → Result B → Result B
check >> rest = check >>= λ _. rest

-- The boundary that replaces any error of a check by one of its own.
abbrev pub or_else {ℓ} : {A : Type ℓ} → Failure → Result A → Result A
or_else e (ok a) = ok a
or_else e (err _) = err e

-- The deferred `errdefs.WithContext(err, ...)` of an operation.
abbrev pub in_context {ℓ} : {A : Type ℓ} → Bool → Result A → Result A
in_context committed (ok a) = ok a
in_context committed (err e) = err (with_context committed e)

pub in_context-eq-ok {ℓ} :
    {A : Type ℓ} (committed : Bool) (m : Result A) {a : A}
    → in_context committed m ≡ ok a
    → m ≡ ok a
in_context-eq-ok committed (ok a) h = h
in_context-eq-ok committed (err e) h = cc

pub Result-cases {ℓ} :
    {A : Type ℓ} (m : Result A) → ((a : A) × (m ≡ ok a)) ⊎ ((e : Failure) × (m ≡ err e))
Result-cases (ok a) = inl (a, refl)
Result-cases (err e) = inr (e, refl)

-- A sequence that succeeds has a first step that did, and goes on from its value.
pub >>=-eq-ok {κ ℓ} :
    {B : Type κ} {A : Type ℓ} (m : Result A) {next : A → Result B} {b : B}
    → (m >>= next) ≡ ok b
    → (a : A) × (m ≡ ok a) × (next a ≡ ok b)
>>=-eq-ok (ok a) h = (a, refl, h)
>>=-eq-ok (err e) h = cc

-- A check that succeeds found nothing wrong.
pub refuse_if-eq-ok : (bad : Bool) (e : Failure) → refuse_if bad e ≡ ok tt → bad ≡ false
refuse_if-eq-ok true e h = cc
refuse_if-eq-ok false e h = refl

pub or_else-eq-ok {ℓ} :
    {A : Type ℓ} (e : Failure) (m : Result A) {a : A} → or_else e m ≡ ok a → m ≡ ok a
or_else-eq-ok e (ok a) h = h
or_else-eq-ok e (err f) h = cc
