-- ===== src/Sandboxes/Decode.antt =====
-- encode and decode of whole records, and that a valid record survives both.
use kuma_box.Prelude.{
  ◌≡◌, ap, true, Option, none, some, arith, if◌then◌else◌, Option-cases, inl, inr, ◌∙◌, subst,
}
use kuma_box.Errdefs.{
  Failure, Result, ok, err, failure, corrupt, artifact_corrupt, ◌>>=◌, ◌>>◌, or_else, Result-cases,
}
use kuma_box.Types.Ids.{IsDigest, parse_sandbox_id, parse_digest, digest_string}
use kuma_box.Types.Ids.RoundTrip.{parse_digest-digest_string, parse_digest-IsDigest}
use kuma_box.Types.Network.{Parsers, unset, backend_eq, NetworkSetup, validate_setup, no_network}
use kuma_box.Types.Sandbox.{
  VmmType, no_vmm, cloud_hypervisor, Sandbox, IsValid, validate_sandbox, validate_sandbox-IsValid,
  validate_vmm,
}
use kuma_box.Sandboxes.Records.{
  RecordData, NetworkData, Codecs, encode_network, decode_network, decode_network-encode_network,
}

-- encode.
unfoldable pub encode : Sandbox → RecordData
unfolding encode_network
encode r = record {
  id = r.id;
  name = r.config.name;
  cpus = r.config.cpus;
  memory = r.config.memory;
  shared_memory = r.config.shared_memory;
  cpu_policy = r.config.cpu_policy;
  huge_pages = r.config.huge_pages;
  mergeable = r.config.mergeable;
  no_balloon = r.config.no_balloon;
  storage = r.config.storage;
  cow_io_mode = r.config.cow_io_mode;
  data_disks = r.config.data_disks;
  nics = r.config.nics;
  network_name = r.config.network_name;
  network_backend = r.config.network_backend;
  bridge_static = r.config.bridge_static;
  network = if backend_eq r.network.backend unset then none else some (encode_network r.network);
  image_digest = digest_string r.image_digest;
  vmm = r.vmm;
  state = r.state;
  generation = r.generation;
  failed = r.failed;
  created_at = r.created_at;
  updated_at = r.updated_at;
}

-- What every malformed record is reported as.
abbrev pub corrupt_record : Failure
corrupt_record = failure corrupt artifact_corrupt

abbrev legacy_vmm : VmmType → VmmType
legacy_vmm no_vmm = cloud_hypervisor
legacy_vmm v = v

abbrev stored_network : Option NetworkData → NetworkSetup
stored_network none = no_network
stored_network (some d) = decode_network d

-- The part of decode that follows json.Unmarshal, up to the last validation.
unfoldable pub rebuild : RecordData → Result Sandbox
rebuild d = do
  id ← or_else corrupt_record (parse_sandbox_id d.id)
  digest ← or_else corrupt_record (parse_digest d.image_digest)
  ok (record {
    id = id;
    config = record {
      name = d.name;
      cpus = d.cpus;
      cpu_policy = d.cpu_policy;
      memory = d.memory;
      shared_memory = d.shared_memory;
      huge_pages = d.huge_pages;
      mergeable = d.mergeable;
      no_balloon = d.no_balloon;
      storage = d.storage;
      cow_io_mode = d.cow_io_mode;
      nics = d.nics;
      network_name = d.network_name;
      network_backend = d.network_backend;
      bridge_static = d.bridge_static;
      data_disks = d.data_disks;
    };
    image_digest = digest;
    vmm = legacy_vmm d.vmm;
    network = stored_network d.network;
    state = d.state;
    generation = d.generation;
    failed = d.failed;
    created_at = d.created_at;
    updated_at = d.updated_at;
  })

abbrev pub parsed {ℓ} : {A : Type ℓ} → Option A → Result A
parsed none = err corrupt_record
parsed (some a) = ok a

-- decode.
unfoldable pub decode : {Raw : Type 0} → Codecs Raw → Raw → Result Sandbox
decode c raw = do
  d ← parsed (c.record_json.unmarshal raw)
  r ← rebuild d
  or_else corrupt_record (validate_sandbox c.parsers r)
  ok r

validate_vmm_known : (v : VmmType) → validate_vmm v ≡ ok tt → legacy_vmm v ≡ v
unfolding validate_vmm
validate_vmm_known v h = ground arith

validate_setup_offline :
    (p : Parsers) (s : NetworkSetup)
    → validate_setup p s ≡ ok tt
    → backend_eq s.backend unset ≡ true
    → s ≡ no_network
unfolding validate_setup
validate_setup_offline p s h b = ground arith

stored_network-encode :
    (p : Parsers) (s : NetworkSetup)
    → validate_setup p s ≡ ok tt
    → stored_network (if backend_eq s.backend unset then none else some (encode_network s)) ≡ s
stored_network-encode p s h =
    ground (arith, validate_setup_offline p s h, decode_network-encode_network s)

-- The stored form of a valid sandbox is rebuilt into that sandbox.
pub rebuild-encode :
    (p : Parsers) (r : Sandbox) → IsValid p r → IsDigest r.image_digest → rebuild (encode r) ≡ ok r
unfolding rebuild encode
rebuild-encode p r v d = rw (
  v.id,
  parse_digest-digest_string r.image_digest d,
  validate_vmm_known r.vmm v.vmm,
  stored_network-encode p r.network v.network,
)

module _ {Raw : Type 0} (c : Codecs Raw) where
  -- A valid sandbox with a 32-byte digest whose stored form is marshalled is decoded into that
  -- same sandbox.
  pub decode-marshal :
      (r : Sandbox) (raw : Raw)
      → IsValid c.parsers r
      → IsDigest r.image_digest
      → c.record_json.marshal (encode r) ≡ some raw
      → decode c raw ≡ ok r
  unfolding decode
  decode-marshal r raw v d h = rw (
    c.record_json.unmarshal-marshal (encode r) raw h,
    rebuild-encode c.parsers r v d,
    (validate_sandbox-IsValid c.parsers r).1 v,
  )

  rebuild-IsDigest : (d : RecordData) (r : Sandbox) → rebuild d ≡ ok r → IsDigest r.image_digest
  unfolding rebuild
  rebuild-IsDigest d r h = elim (Result-cases (parse_digest d.image_digest)) [
    | inl (digest, e) ↦
        subst IsDigest (ground arith) (parse_digest-IsDigest d.image_digest digest e)
    | inr (f, e) ↦ absurd (ground arith)
  ]

  -- Whatever decode lets through is valid.
  pub decode-IsValid :
      (raw : Raw) (r : Sandbox)
      → decode c raw ≡ ok r
      → IsValid c.parsers r × IsDigest r.image_digest
  unfolding decode
  decode-IsValid raw r h = elim (Option-cases (c.record_json.unmarshal raw)) [
    | inl e ↦ absurd (ground arith)
    | inr (d, e) ↦ elim (Result-cases (rebuild d)) [
      | inl (s, f) ↦
          let same : s ≡ r = ground arith in
          let valid : validate_sandbox c.parsers r ≡ ok tt = ground arith in
          ((validate_sandbox-IsValid c.parsers r).0 valid, rebuild-IsDigest d r (f ∙ ap ok same))
      | inr (g, f) ↦ absurd (ground arith)
    ]
  ]
