-- ===== src/Examples.antt =====
-- Concrete values on which the theorems are run: a sandbox, a codec, a store.
pub mod Catalog
pub mod Values
pub mod Snapshots
pub mod Access
pub mod Taps
pub mod Agent
pub mod Listing
pub mod Eviction
pub mod Images
pub mod Layers
use kuma_box.Prelude.{
  ℕ, ◌≡◌, refl, Bool, true, false, Option, none, some, List, [], ◌∷◌, Text, text, pos,
}
use kuma_box.Errdefs.{Result, ok, err}
use kuma_box.Types.Ids.{Digest, IsDigest}
use kuma_box.Types.Cpu.{CpuPolicy}
use kuma_box.Types.Network.{Parsers, unset, no_network}
use kuma_box.Types.Sandbox.{Sandbox, SandboxConfig, creating, cloud_hypervisor, default_io}
use kuma_box.Metadata.{Transaction, Store, Weather}
use kuma_box.Sandboxes.Records.{RecordData, NameData, Codec, Codecs}
use kuma_box.Sandboxes.Access.{sandboxes, sandbox_names}

-- A stored value, before it is bytes.
pub data Stored : Type 0 where
  stored_record : RecordData → Stored
  stored_name : NameData → Stored

abbrev pub read_record : Stored → Option RecordData
read_record (stored_record d) = some d
read_record (stored_name d) = none

abbrev pub read_name : Stored → Option NameData
read_name (stored_record d) = none
read_name (stored_name d) = some d

pub read_record-stored :
    (a : RecordData) (raw : Stored) → some (stored_record a) ≡ some raw → read_record raw ≡ some a
read_record-stored a (stored_record d) h = cc
read_record-stored a (stored_name d) h = cc

pub read_name-stored :
    (a : NameData) (raw : Stored) → some (stored_name a) ≡ some raw → read_name raw ≡ some a
read_name-stored a (stored_record d) h = cc
read_name-stored a (stored_name d) h = cc

abbrev pub parsers : Parsers
parsers = record { is_ipv4 = λ s. true; is_mac = λ s. true }

abbrev pub codecs : Codecs Stored
codecs = record {
  record_json = record {
    marshal = λ d. some (stored_record d);
    unmarshal = read_record;
    unmarshal-marshal = read_record-stored;
  };
  name_json = record {
    marshal = λ d. some (stored_name d);
    unmarshal = read_name;
    unmarshal-marshal = read_name-stored;
  };
  parsers = parsers;
}

abbrev pub digest : Digest
digest = record {
  value =
      1 ∷ 2 ∷ 3 ∷ 4 ∷ 5 ∷ 6 ∷ 7 ∷ 8 ∷ 9 ∷ 10 ∷ 11 ∷ 12 ∷ 13 ∷ 14 ∷ 15 ∷ 16 ∷ 17 ∷ 18 ∷ 19 ∷ 20 ∷ 21
      ∷ 22 ∷ 23 ∷ 24 ∷ 25 ∷ 26 ∷ 27 ∷ 28 ∷ 29 ∷ 30 ∷ 31 ∷ 255 ∷ [];
}

abbrev pub policy : CpuPolicy
policy = record { weight = 0; quota_us = pos 0; period_us = pos 0; burst_us = pos 0; cpu_set = [] }

abbrev pub id : Text
id = text "0d6f1c52-9a3e-4b7d-8c21-5e0f4a9b6d13"

-- A sandbox as Reserve takes it.
abbrev pub demo : Sandbox
demo = record {
  id = id;
  config = record {
    name = text "demo";
    cpus = 2;
    cpu_policy = policy;
    memory = pos 1073741824;
    shared_memory = false;
    huge_pages = false;
    mergeable = false;
    no_balloon = false;
    storage = pos 10737418240;
    cow_io_mode = default_io;
    nics = pos 0;
    network_name = [];
    network_backend = unset;
    bridge_static = false;
    data_disks = [];
  };
  image_digest = digest;
  vmm = cloud_hypervisor;
  network = no_network;
  state = creating;
  generation = 1;
  failed = none;
  created_at = 100;
  updated_at = 100;
}

abbrev pub calm : Weather
calm = record {
  cancelled_waiting = false;
  cancelled = false;
  cancelled_commit = false;
  closing = false;
}

abbrev pub empty_store : Store Stored
empty_store = record { records = (sandboxes, []) ∷ (sandbox_names, []) ∷ []; closed = false }
