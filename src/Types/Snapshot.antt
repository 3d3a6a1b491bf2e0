-- ===== src/Types/Snapshot.antt =====
-- internal/types/snapshot.go: the description of one captured sandbox.
use kuma_box.Prelude.{
  ℕ, ◌≡◌, Bool, not, ◌&&◌, ◌||◌, List, [], ◌∷◌, ltb, ◌==◌, length, Text, is_empty, ℤ, pos, lt_int,
  inl, inr, arith,
}
use kuma_box.Errdefs.{Result, ok, err, plain, ◌>>=◌, ◌>>◌, refuse_if, Result-cases}
use kuma_box.Types.Ids.{
  Digest, parse_sandbox_id, parse_sandbox_id_same, parse_digest, digest_string,
}
use kuma_box.Types.Text.{is_snapshot_name, contains_any}
use kuma_box.Types.Sandbox.{VmmType, validate_vmm, SandboxConfig, validate_config}

-- MemoryRestoreMode; `unset_mode` is the empty string.
pub data MemoryRestoreMode : Type 0 where
  unset_mode auto_mode copy_mode on_demand mmap_mode : MemoryRestoreMode
  other_mode : Text → MemoryRestoreMode

unfoldable pub validate_restore_mode : MemoryRestoreMode → Result (Unit {0})
validate_restore_mode (other_mode s) = err plain
validate_restore_mode _ = ok tt

-- ParseSnapshotID.
unfoldable pub parse_snapshot_id : Text → Result Text
parse_snapshot_id value = do id ← parse_sandbox_id value; ok value

pub record Snapshot : Type 0 where
  pub id : Text
  pub name : Text
  pub description : Text
  pub sandbox_id : Text
  pub source_generation : ℕ
  pub image_digest : Digest
  pub registry_reference : Text
  pub vmm : VmmType
  pub config : SandboxConfig
  pub size : ℤ
  pub created_at : ℕ
  pub last_accessed_at : ℕ

abbrev control_bytes : List ℕ
control_bytes = 0 ∷ 13 ∷ 10 ∷ 9 ∷ []

unfoldable pub has_bad_reference : Text → Bool
has_bad_reference s = ltb 512 (length s) || contains_any control_bytes s

unfoldable pub has_bad_name : Text → Bool
has_bad_name s = not (is_empty s) && not (is_snapshot_name s)

-- Snapshot.Validate.
unfoldable pub validate_snapshot : Snapshot → Result (Unit {0})
unfolding parse_snapshot_id
validate_snapshot s = do
  id ← parse_snapshot_id s.id
  refuse_if (has_bad_name s.name) plain
  sandbox ← parse_sandbox_id s.sandbox_id
  refuse_if (s.source_generation == 0) plain
  digest ← parse_digest (digest_string s.image_digest)
  refuse_if (has_bad_reference s.registry_reference) plain
  validate_vmm s.vmm
  validate_config s.config
  refuse_if (lt_int s.size (pos 0) || s.created_at == 0) plain

-- The identities of a valid snapshot parse to themselves.
pub validate_snapshot-ids :
    (s : Snapshot)
    → validate_snapshot s ≡ ok tt
    → (parse_snapshot_id s.id ≡ ok s.id) × (parse_sandbox_id s.sandbox_id ≡ ok s.sandbox_id)
unfolding validate_snapshot parse_snapshot_id
validate_snapshot-ids s h = elim (Result-cases (parse_sandbox_id s.id)) [
  | inr (f, e) ↦ absurd (ground arith)
  | inl (i, e) ↦ elim (Result-cases (parse_sandbox_id s.sandbox_id)) [
    | inr (f, g) ↦ absurd (ground arith)
    | inl (j, g) ↦ let same = parse_sandbox_id_same s.sandbox_id j g in (ground arith, ground arith)
  ]
]
