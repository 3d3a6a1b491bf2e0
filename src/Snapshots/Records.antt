-- ===== src/Snapshots/Records.antt =====
-- The stored form of a snapshot.
use kuma_box.Prelude.{ℕ, ◌≡◌, ◌≢◌, Bool, false, List, arith, ◌==◌, if◌then◌else◌, Text, ℤ}
use kuma_box.Errdefs.{Result, ok, ◌>>=◌, ◌>>◌}
use kuma_box.Types.Ids.{IsDigest, parse_sandbox_id, parse_digest, digest_string}
use kuma_box.Types.Ids.RoundTrip.{parse_digest-digest_string}
use kuma_box.Types.Network.{Backend}
use kuma_box.Types.Cpu.{CpuPolicy}
use kuma_box.Types.Disks.{DataDiskSpec}
use kuma_box.Types.Sandbox.{DiskIoMode, VmmType}
use kuma_box.Types.Snapshot.{Snapshot, parse_snapshot_id, validate_snapshot, validate_snapshot-ids}
use kuma_box.Sandboxes.Records.{Codec}

-- recordData.
pub record SnapshotData : Type 0 where
  pub id : Text
  pub name : Text
  pub description : Text
  pub sandbox_id : Text
  pub sandbox_name : Text
  pub source_generation : ℕ
  pub image_digest : Text
  pub registry_reference : Text
  pub vmm : VmmType
  pub cpus : ℕ
  pub memory : ℤ
  pub shared_memory : Bool
  pub cpu_policy : CpuPolicy
  pub huge_pages : Bool
  pub mergeable : Bool
  pub no_balloon : Bool
  pub storage : ℤ
  pub cow_io_mode : DiskIoMode
  pub data_disks : List DataDiskSpec
  pub nics : ℤ
  pub network_name : Text
  pub network_backend : Backend
  pub bridge_static : Bool
  pub size : ℤ
  pub created_at : ℕ
  pub last_accessed_at : ℕ
  pub ready : Bool
  pub deleting : Bool

-- nameData.
pub record SnapshotName : Type 0 where
  pub id : Text

-- encoding/json at the two types of this catalog.
pub record SnapshotCodecs (Raw : Type 0) : Type 0 where
  pub record_json : Codec Raw SnapshotData
  pub name_json : Codec Raw SnapshotName

unfoldable pub encode_snapshot : Snapshot → Bool → SnapshotData
encode_snapshot s ready = record {
  id = s.id;
  name = s.name;
  description = s.description;
  sandbox_id = s.sandbox_id;
  sandbox_name = s.config.name;
  source_generation = s.source_generation;
  image_digest = digest_string s.image_digest;
  registry_reference = s.registry_reference;
  vmm = s.vmm;
  cpus = s.config.cpus;
  memory = s.config.memory;
  shared_memory = s.config.shared_memory;
  cpu_policy = s.config.cpu_policy;
  huge_pages = s.config.huge_pages;
  mergeable = s.config.mergeable;
  no_balloon = s.config.no_balloon;
  storage = s.config.storage;
  cow_io_mode = s.config.cow_io_mode;
  data_disks = s.config.data_disks;
  nics = s.config.nics;
  network_name = s.config.network_name;
  network_backend = s.config.network_backend;
  bridge_static = s.config.bridge_static;
  size = s.size;
  created_at = s.created_at;
  last_accessed_at = s.last_accessed_at;
  ready = ready;
  deleting = false;
}

-- A record without an access time was last accessed when it was created.
abbrev pub access_time : SnapshotData → ℕ
access_time d = if d.last_accessed_at == 0 then d.created_at else d.last_accessed_at

-- decodeSnapshot.
unfoldable pub decode_snapshot : SnapshotData → Result Snapshot
decode_snapshot d = do
  id ← parse_snapshot_id d.id
  sandbox ← parse_sandbox_id d.sandbox_id
  digest ← parse_digest d.image_digest
  let s : Snapshot = record {
    id = id;
    name = d.name;
    description = d.description;
    sandbox_id = sandbox;
    source_generation = d.source_generation;
    image_digest = digest;
    registry_reference = d.registry_reference;
    vmm = d.vmm;
    config = record {
      name = d.sandbox_name;
      cpus = d.cpus;
      cpu_policy = d.cpu_policy;
      memory = d.memory;
      shared_memory = d.shared_memory;
      huge_pages = d.huge_pages;
      mergeable = d.mergeable;
      no_balloon = d.no_balloon;
      storage = d.storage;
      cow_io_mode = d.cow_io_mode;
      nics = d.nics;
      network_name = d.network_name;
      network_backend = d.network_backend;
      bridge_static = d.bridge_static;
      data_disks = d.data_disks;
    };
    size = d.size;
    created_at = d.created_at;
    last_accessed_at = access_time d;
  }
  validate_snapshot s
  ok s

accessed_same : (n m : ℕ) → n ≢ 0 → (if n == 0 then m else n) ≡ n
accessed_same n m h = ground arith

-- A valid snapshot with a 32-byte digest and an access time is decoded from its stored form as it
-- was, ready or not.
pub decode_snapshot-encode_snapshot :
    (s : Snapshot) (ready : Bool)
    → validate_snapshot s ≡ ok tt
    → IsDigest s.image_digest
    → s.last_accessed_at ≢ 0
    → decode_snapshot (encode_snapshot s ready) ≡ ok s
unfolding decode_snapshot encode_snapshot
decode_snapshot-encode_snapshot s ready v d used =
    let (i, j) = validate_snapshot-ids s v in
    rw (
      i,
      j,
      parse_digest-digest_string s.image_digest d,
      accessed_same s.last_accessed_at s.created_at used,
      v,
    )
