-- ===== src/Types/Sandbox.antt =====
-- internal/types/sandbox.go: the sandbox aggregate and what makes it valid. A time is its distance
-- from Go's zero time, which is 0.
use kuma_box.Prelude.{
  bool_eq, ℕ, ◌≡◌, ◌↔◌, inl, inr, arith, Bool, true, false, not, ◌&&◌, ◌||◌, Option, none, some,
  List, [], ◌∷◌, ltb, ◌==◌, if◌then◌else◌, length, all_of, Text, text_eq, is_empty, ℤ, pos, lt_int,
  eq_int,
}
use kuma_box.Errdefs.{
  Failure, Result, ok, err, plain, failure, invalid, invalid_argument, ◌>>=◌, ◌>>◌, refuse_if,
  or_else, Result-cases,
}
use kuma_box.Types.Ids.{Digest, parse_sandbox_id, parse_sandbox_id_same, is_zero_digest}
use kuma_box.Types.Text.{is_resource_name}
use kuma_box.Types.Network.{
  Parsers, Backend, unset, cni, bridge, backend_eq, validate_backend, NetworkInterface,
  NetworkSetup, validate_setup, is_nil,
}
use kuma_box.Types.Cpu.{CpuPolicy, resolve_policy}
use kuma_box.Types.Disks.{DataDiskSpec, validate_disk, max_data_disks}
use kuma_box.Types.Disks.Fresh.{contains}

-- DiskIOMode; `default_io` is the empty string.
pub data DiskIoMode : Type 0 where
  default_io auto direct buffered : DiskIoMode
  other_io : Text → DiskIoMode

unfoldable pub validate_io_mode : DiskIoMode → Result (Unit {0})
validate_io_mode (other_io s) = err plain
validate_io_mode _ = ok tt

-- DirectIO.
abbrev pub direct_io : DiskIoMode → Bool
direct_io buffered = false
direct_io _ = true

-- VMMType; `no_vmm` is the empty string.
pub data VmmType : Type 0 where
  no_vmm cloud_hypervisor firecracker : VmmType
  other_vmm : Text → VmmType

unfoldable pub validate_vmm : VmmType → Result (Unit {0})
validate_vmm cloud_hypervisor = ok tt
validate_vmm firecracker = ok tt
validate_vmm _ = err plain

pub data SandboxState : Type 0 where
  creating created starting running stopping stopped error deleting : SandboxState
  other_state : Text → SandboxState

abbrev pub state_eq : SandboxState → SandboxState → Bool
state_eq creating creating = true
state_eq created created = true
state_eq starting starting = true
state_eq running running = true
state_eq stopping stopping = true
state_eq stopped stopped = true
state_eq error error = true
state_eq deleting deleting = true
state_eq (other_state s) (other_state t) = text_eq s t
state_eq _ _ = false

pub record SandboxConfig : Type 0 where
  pub name : Text
  pub cpus : ℕ
  pub cpu_policy : CpuPolicy
  pub memory : ℤ
  pub shared_memory : Bool
  pub huge_pages : Bool
  pub mergeable : Bool
  pub no_balloon : Bool
  pub storage : ℤ
  pub cow_io_mode : DiskIoMode
  pub nics : ℤ
  pub network_name : Text
  pub network_backend : Backend
  pub bridge_static : Bool
  pub data_disks : List DataDiskSpec

abbrev bad_argument : Failure
bad_argument = failure invalid invalid_argument

-- The names, the CPUs, the memory and the storage of SandboxConfig.Validate.
unfoldable pub validate_shape : SandboxConfig → Result (Unit {0})
validate_shape c = do
  or_else bad_argument (validate_io_mode c.cow_io_mode)
  refuse_if (not (is_resource_name c.name)) bad_argument
  refuse_if (c.cpus == 0 || ltb 1024 c.cpus) bad_argument
  policy ← or_else bad_argument (resolve_policy c.cpus c.cpu_policy)
  refuse_if (c.mergeable && (c.huge_pages || c.shared_memory)) bad_argument
  refuse_if (lt_int c.memory (pos 536870912)) bad_argument
  refuse_if (lt_int c.storage (pos 10737418240)) bad_argument
  refuse_if (lt_int c.nics (pos 0) || lt_int (pos 64) c.nics) bad_argument

-- The network request.
unfoldable pub validate_request : SandboxConfig → Result (Unit {0})
validate_request c = do
  if backend_eq c.network_backend unset
      then ok tt
      else or_else bad_argument (validate_backend c.network_backend)
  refuse_if (backend_eq c.network_backend bridge && is_empty c.network_name) bad_argument
  refuse_if (backend_eq c.network_backend bridge && ltb 15 (length c.network_name)) bad_argument
  refuse_if (not (is_empty c.network_name) && not (is_resource_name c.network_name)) bad_argument

-- The loop over the disks.
unfoldable pub validate_disks : List Text → List DataDiskSpec → Result (Unit {0})
validate_disks seen [] = ok tt
validate_disks seen (d ∷ ds) =
    let rest = validate_disks (d.name ∷ seen) ds in
    do or_else bad_argument (validate_disk d); refuse_if (contains seen d.name) bad_argument; rest

-- SandboxConfig.Validate.
unfoldable pub validate_config : SandboxConfig → Result (Unit {0})
validate_config c = do
  validate_shape c
  validate_request c
  refuse_if (ltb max_data_disks (length c.data_disks)) bad_argument
  validate_disks [] c.data_disks

-- effectiveNetworkBackend.
abbrev pub effective_backend : Backend → Backend
effective_backend unset = cni
effective_backend b = b

abbrev same_direct_io : Option Bool → Option Bool → Bool
same_direct_io none none = true
same_direct_io (some true) (some b) = b
same_direct_io (some false) (some b) = not b
same_direct_io _ _ = false

unfoldable pub same_disks : List DataDiskSpec → List DataDiskSpec → Bool
same_disks [] [] = true
same_disks (d ∷ ds) (e ∷ es) =
    text_eq d.name e.name
    && eq_int d.size e.size
    && text_eq d.fs_type e.fs_type
    && same_direct_io d.direct_io e.direct_io
    && same_disks ds es
same_disks _ _ = false

-- SameGuest: the guest's shape, without the host's scheduling policy.
unfoldable pub same_guest : SandboxConfig → SandboxConfig → Bool
unfolding same_disks
same_guest c o =
    text_eq c.name o.name
    && c.cpus == o.cpus
    && eq_int c.memory o.memory
    && bool_eq c.shared_memory o.shared_memory
    && bool_eq c.huge_pages o.huge_pages
    && bool_eq c.mergeable o.mergeable
    && bool_eq c.no_balloon o.no_balloon
    && eq_int c.storage o.storage
    && bool_eq (direct_io c.cow_io_mode) (direct_io o.cow_io_mode)
    && eq_int c.nics o.nics
    && text_eq c.network_name o.network_name
    && backend_eq (effective_backend c.network_backend) (effective_backend o.network_backend)
    && bool_eq c.bridge_static o.bridge_static
    && same_disks c.data_disks o.data_disks

pub record SandboxFailure : Type 0 where
  pub phase : Text
  pub message : Text

pub record Sandbox : Type 0 where
  pub id : Text
  pub config : SandboxConfig
  pub image_digest : Digest
  pub vmm : VmmType
  pub network : NetworkSetup
  pub state : SandboxState
  pub generation : ℕ
  pub failed : Option SandboxFailure
  pub created_at : ℕ
  pub updated_at : ℕ

abbrev may_lack_network : SandboxState → Bool
may_lack_network creating = true
may_lack_network error = true
may_lack_network deleting = true
may_lack_network _ = false

abbrev pub is_known : SandboxState → Bool
is_known (other_state s) = false
is_known _ = true

abbrev pub is_some {ℓ} : {A : Type ℓ} → Option A → Bool
is_some none = false
is_some (some a) = true

-- The handoff that a setup with a backend must give.
unfoldable pub validate_handoff : Sandbox → Result (Unit {0})
unfolding all_of text_eq
validate_handoff s =
    if backend_eq s.network.backend unset
    then refuse_if (lt_int (pos 0) s.config.nics && not (may_lack_network s.state)) plain
    else do
      refuse_if
          (not (backend_eq s.config.network_backend unset)
            && not (backend_eq s.network.backend s.config.network_backend))
          plain
      refuse_if (not (eq_int (pos (length s.network.interfaces)) s.config.nics)) plain
      refuse_if
          (not (
            all_of (λ (c : NetworkInterface). text_eq c.network s.config.network_name)
              s.network.interfaces))
          plain

unfoldable pub lacks_facts : Sandbox → Bool
lacks_facts s =
    is_zero_digest s.image_digest || s.generation == 0 || s.created_at == 0 || s.updated_at == 0

-- Interfaces, or a network name with no owner, on a sandbox without NICs.
unfoldable pub has_stray_interfaces : Sandbox → Bool
has_stray_interfaces s = eq_int s.config.nics (pos 0) && not (is_nil s.network.interfaces)

unfoldable pub has_stray_name : Sandbox → Bool
has_stray_name s =
    not (state_eq s.state creating)
    && eq_int s.config.nics (pos 0)
    && backend_eq s.network.backend unset
    && not (is_empty s.config.network_name)

-- A failure is there exactly in the error state.
unfoldable pub has_misplaced_failure : SandboxState → Option SandboxFailure → Bool
has_misplaced_failure state failed = not (bool_eq (state_eq state error) (is_some failed))

-- Sandbox.Validate.
unfoldable pub validate_sandbox : Parsers → Sandbox → Result (Unit {0})
validate_sandbox p s = do
  id ← parse_sandbox_id s.id
  validate_config s.config
  refuse_if (lacks_facts s) plain
  validate_vmm s.vmm
  validate_setup p s.network
  refuse_if (has_stray_interfaces s) plain
  refuse_if (has_stray_name s) plain
  validate_handoff s
  refuse_if (not (is_known s.state)) plain
  refuse_if (has_misplaced_failure s.state s.failed) plain

-- What a valid sandbox is, check by check.
pub record IsValid (p : Parsers) (s : Sandbox) : Type 0 where
  pub id : parse_sandbox_id s.id ≡ ok s.id
  pub config : validate_config s.config ≡ ok tt
  pub facts : lacks_facts s ≡ false
  pub vmm : validate_vmm s.vmm ≡ ok tt
  pub network : validate_setup p s.network ≡ ok tt
  pub interfaces : has_stray_interfaces s ≡ false
  pub name : has_stray_name s ≡ false
  pub handoff : validate_handoff s ≡ ok tt
  pub state : is_known s.state ≡ true
  pub failed : has_misplaced_failure s.state s.failed ≡ false

-- Sandbox.Validate accepts exactly the sandboxes that pass every one of its checks.
pub validate_sandbox-IsValid :
    (p : Parsers) (s : Sandbox) → (validate_sandbox p s ≡ ok tt) ↔ IsValid p s
unfolding validate_sandbox
validate_sandbox-IsValid p s = (there, back)
  where
    there : validate_sandbox p s ≡ ok tt → IsValid p s
    there h = elim (Result-cases (parse_sandbox_id s.id)) [
      | inl (i, e) ↦ let same = parse_sandbox_id_same s.id i e in ground arith
      | inr (f, e) ↦ absurd (ground arith)
    ]

    back : IsValid p s → validate_sandbox p s ≡ ok tt
    back v = ground arith
