-- ===== src/Sandboxes/Records.antt =====
-- The stored form of a sandbox. A Go conversion between string types changes nothing, so a field of
-- such a type keeps its type here.
use kuma_box.Prelude.{
  ℕ, ◌≡◌, refl, ap, Bool, Option, none, some, List, [], ◌∷◌, arith, map, Text, ℤ,
}
use kuma_box.Types.Network.{
  Parsers, Backend, AddressMode, Ipv4Config, NetworkInterface, NetworkSetup,
}
use kuma_box.Types.Cpu.{CpuPolicy}
use kuma_box.Types.Disks.{DataDiskSpec}
use kuma_box.Types.Sandbox.{DiskIoMode, VmmType, SandboxState, SandboxFailure}

-- ipv4Data.
pub record Ipv4Data : Type 0 where
  pub address : Text
  pub gateway : Text
  pub prefix : ℤ

-- networkInterfaceData.
pub record InterfaceData : Type 0 where
  pub index : ℤ
  pub name : Text
  pub tap : Text
  pub mac : Text
  pub queues : ℤ
  pub queue_size : ℤ
  pub network : Text
  pub ipv4 : Option Ipv4Data
  pub address_mode : AddressMode
  pub host_address : Text

-- networkData.
pub record NetworkData : Type 0 where
  pub backend : Backend
  pub namespace : Text
  pub interfaces : List InterfaceData

-- recordData.
pub record RecordData : Type 0 where
  pub id : Text
  pub name : Text
  pub cpus : ℕ
  pub memory : ℤ
  pub shared_memory : Bool
  pub cpu_policy : CpuPolicy
  pub huge_pages : Bool
  pub mergeable : Bool
  pub no_balloon : Bool
  pub storage : ℤ
  pub cow_io_mode : DiskIoMode
  pub data_disks : List DataDiskSpec
  pub nics : ℤ
  pub network_name : Text
  pub network_backend : Backend
  pub bridge_static : Bool
  pub network : Option NetworkData
  pub image_digest : Text
  pub vmm : VmmType
  pub state : SandboxState
  pub generation : ℕ
  pub failed : Option SandboxFailure
  pub created_at : ℕ
  pub updated_at : ℕ

-- nameData.
pub record NameData : Type 0 where
  pub id : Text

-- encoding/json at one type. Of text in UTF-8 it loses nothing.
pub record Codec (Raw A : Type 0) : Type 0 where
  pub marshal : A → Option Raw
  pub unmarshal : Raw → Option A
  pub unmarshal-marshal : (a : A) (raw : Raw) → marshal a ≡ some raw → unmarshal raw ≡ some a

-- What the catalog takes from the standard library: JSON at its two types, and address parsing.
pub record Codecs (Raw : Type 0) : Type 0 where
  pub record_json : Codec Raw RecordData
  pub name_json : Codec Raw NameData
  pub parsers : Parsers

encode_ipv4 : Option Ipv4Config → Option Ipv4Data
encode_ipv4 none = none
encode_ipv4 (some c) = some (record { address = c.address; gateway = c.gateway; prefix = c.prefix })

decode_ipv4 : Option Ipv4Data → Option Ipv4Config
decode_ipv4 none = none
decode_ipv4 (some c) = some (record { address = c.address; gateway = c.gateway; prefix = c.prefix })

encode_interface : NetworkInterface → InterfaceData
unfolding encode_ipv4
encode_interface c = record {
  index = c.index;
  name = c.name;
  tap = c.tap;
  mac = c.mac;
  queues = c.queues;
  queue_size = c.queue_size;
  network = c.network;
  ipv4 = encode_ipv4 c.ipv4;
  address_mode = c.address_mode;
  host_address = c.host_address;
}

decode_interface : InterfaceData → NetworkInterface
unfolding decode_ipv4
decode_interface c = record {
  index = c.index;
  name = c.name;
  tap = c.tap;
  mac = c.mac;
  queues = c.queues;
  queue_size = c.queue_size;
  network = c.network;
  ipv4 = decode_ipv4 c.ipv4;
  address_mode = c.address_mode;
  host_address = c.host_address;
}

unfoldable pub encode_network : NetworkSetup → NetworkData
unfolding encode_interface
encode_network s = record {
  backend = s.backend;
  namespace = s.namespace;
  interfaces = map encode_interface s.interfaces;
}

unfoldable pub decode_network : NetworkData → NetworkSetup
unfolding decode_interface
decode_network d = record {
  backend = d.backend;
  namespace = d.namespace;
  interfaces = map decode_interface d.interfaces;
}

interface_there_and_back : (c : NetworkInterface) → decode_interface (encode_interface c) ≡ c
unfolding decode_interface encode_interface
interface_there_and_back c = ground arith

interfaces_there_and_back :
    (cs : List NetworkInterface) → map decode_interface (map encode_interface cs) ≡ cs
interfaces_there_and_back [] = refl
interfaces_there_and_back (c ∷ cs) = cc (interface_there_and_back c, interfaces_there_and_back cs)

-- A network setup is stored without loss.
pub decode_network-encode_network : (s : NetworkSetup) → decode_network (encode_network s) ≡ s
unfolding decode_network encode_network
decode_network-encode_network s =
    ap (λ (cs : List NetworkInterface). record s { interfaces = cs })
      (interfaces_there_and_back s.interfaces)
