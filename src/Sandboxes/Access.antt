-- ===== src/Sandboxes/Access.antt =====
-- Reads and writes of the two collections inside a transaction.
use kuma_box.Prelude.{
  Bool, true, false, not, Option, none, some, Text, text, text_eq, if◌then◌else◌,
}
use kuma_box.Errdefs.{
  Failure, Result, ok, err, plain, failure, not_found, missing, ◌>>=◌, ◌>>◌, refuse_if, or_else,
  code_of,
}
use kuma_box.Types.Ids.{parse_sandbox_id, Digest, digest_eq}
use kuma_box.Types.Sandbox.{Sandbox, validate_sandbox}
use kuma_box.Metadata.{Transaction, get, put, delete, scan}
use kuma_box.Sandboxes.Records.{Codecs}
use kuma_box.Sandboxes.Decode.{encode, decode, corrupt_record, parsed}

abbrev pub sandboxes : Text
sandboxes = text "sandboxes"

abbrev pub sandbox_names : Text
sandbox_names = text "sandbox_names"

abbrev pub absent : Failure
absent = failure not_found missing

abbrev present {ℓ} : {A : Type ℓ} → Option A → Result A
present none = err absent
present (some a) = ok a

abbrev marshalled {ℓ} : {A : Type ℓ} → Option A → Result A
marshalled none = err plain
marshalled (some a) = ok a

module _ {Raw : Type 0} (c : Codecs Raw) where
  -- load.
  unfoldable pub load : Transaction Raw → Text → Result Sandbox
  load t id = do
    raw ← get t sandboxes id
    stored ← present raw
    record' ← decode c stored
    refuse_if (not (text_eq record'.id id)) corrupt_record
    ok record'

  -- putJSON, of a record at its own ID.
  unfoldable pub put_record : Transaction Raw → Sandbox → Result (Transaction Raw)
  put_record t r = do raw ← marshalled (c.record_json.marshal (encode r)); put t sandboxes r.id raw

  -- putJSON, of a name binding.
  unfoldable pub put_name : Transaction Raw → Text → Text → Result (Transaction Raw)
  put_name t name id = do
    raw ← marshalled (c.name_json.marshal (record { id = id }))
    put t sandbox_names name raw

  -- The tail that every edit of a record ends in: Validate, then putJSON.
  unfoldable pub save : Transaction Raw → Sandbox → Result (Sandbox × Transaction Raw)
  save t r = do
    or_else corrupt_record (validate_sandbox c.parsers r)
    t' ← put_record t r
    ok (r, t')

  -- The owner that a name binding gives, if there is one.
  unfoldable pub name_owner : Transaction Raw → Text → Result (Option Text)
  name_owner t name = do
    raw ← get t sandbox_names name
    elim raw [
      | none ↦ ok none
      | some stored ↦ do binding ← parsed (c.name_json.unmarshal stored); ok (some binding.id)
    ]

  abbrev is_absence : Failure → Bool
  is_absence e = elim (code_of e) [
    | none ↦ false
    | some code ↦ elim code [ missing ↦ true | _ ↦ false ]
  ]

  -- A name whose record is gone is corruption, not absence.
  abbrev owned_record : Result Sandbox → Result Sandbox
  owned_record (ok r) = ok r
  owned_record (err e) = elim (is_absence e) [ true ↦ err corrupt_record | false ↦ err e ]

  abbrev by_id : Transaction Raw → Text → Result Sandbox
  by_id t reference = do id ← or_else absent (parse_sandbox_id reference); load t id

  abbrev by_owner : Transaction Raw → Text → Option Text → Result Sandbox
  by_owner t reference none = by_id t reference
  by_owner t reference (some owner) = do
    id ← or_else corrupt_record (parse_sandbox_id owner)
    owned_record (load t id)

  -- resolveRecord.
  unfoldable pub resolve_record : Transaction Raw → Text → Result Sandbox
  unfolding code_of
  resolve_record t reference = do owner ← name_owner t reference; by_owner t reference owner

  abbrev checked_owner : Text → Option Text → Result (Unit {0})
  checked_owner id none = err corrupt_record
  checked_owner id (some owner) = refuse_if (not (text_eq owner id)) corrupt_record

  -- deleteRecord.
  unfoldable pub delete_record : Transaction Raw → Sandbox → Result (Transaction Raw)
  delete_record t r = do
    owner ← name_owner t r.config.name
    checked_owner r.id owner
    t' ← delete t sandbox_names r.config.name
    delete t' sandboxes r.id

  -- Usage.InUse.
  unfoldable pub in_use : Transaction Raw → Digest → Result Bool
  in_use t digest =
      scan t sandboxes
        (λ key raw used. do
          r ← decode c raw
          ok (if digest_eq r.image_digest digest then true else used))
        false
