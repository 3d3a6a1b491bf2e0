-- ===== src/Examples/Snapshots.antt =====
-- The theorems on the snapshot catalog at a concrete store.
use kuma_box.Prelude.{
  ◌≡◌, refl, true, false, Option, some, none, [], ◌∷◌, text, text_eq, all_of, any_of, has_prefix,
  lookup, insert, without, Text, pos, arith,
}
use kuma_box.Errdefs.{ok}
use kuma_box.Types.Text.{is_resource_name, is_snapshot_name, contains_any}
use kuma_box.Types.Ids.{
  parse_sandbox_id, has_uuid_shape, compact_uuid, hex_value, hex_decode, digest_string, hex_encode,
  hex_digit, parse_digest, has_digest_shape, is_lower_text,
}
use kuma_box.Types.Cpu.{resolve_policy, fill_window, fill_budget, has_bad_window, has_bad_budget}
use kuma_box.Types.Cpu.Ranges.{cpu_ranges}
use kuma_box.Types.Sandbox.{
  cloud_hypervisor, validate_config, validate_shape, validate_request, validate_disks,
  validate_io_mode, validate_vmm,
}
use kuma_box.Types.Snapshot.{
  Snapshot, validate_snapshot, parse_snapshot_id, has_bad_reference, has_bad_name,
}
use kuma_box.Metadata.{Store, begin, update, snapshot, get, put, delete, collection}
use kuma_box.Snapshots.Records.{
  SnapshotData, SnapshotName, SnapshotCodecs, encode_snapshot, decode_snapshot,
  decode_snapshot-encode_snapshot,
}
use kuma_box.Snapshots.Operations.{
  decode_data, load_data, put_data, resolve_data, bind_name, reserve_data, commit_data, touch_data,
  release, finalize_data, begin_delete_data, reserve_snapshot, commit_snapshot, touch_snapshot,
  begin_delete_snapshot, finalize_delete_snapshot,
}
use kuma_box.Snapshots.Effects.{IsPublished, commit_snapshot-IsPublished}
use kuma_box.Snapshots.Release.{
  IsReleased, finalize_delete_snapshot-IsReleased, IsTouched, touch_snapshot-IsTouched,
}
use kuma_box.Examples.{digest, demo, id, calm}
use kuma_box.Examples.Values.{demo_digest}

pub data StoredSnapshot : Type 0 where
  stored_snapshot : SnapshotData → StoredSnapshot
  stored_binding : SnapshotName → StoredSnapshot

abbrev pub read_snapshot : StoredSnapshot → Option SnapshotData
read_snapshot (stored_snapshot d) = some d
read_snapshot (stored_binding d) = none

abbrev pub read_binding : StoredSnapshot → Option SnapshotName
read_binding (stored_snapshot d) = none
read_binding (stored_binding d) = some d

pub read_snapshot-stored :
    (a : SnapshotData) (raw : StoredSnapshot)
    → some (stored_snapshot a) ≡ some raw
    → read_snapshot raw ≡ some a
read_snapshot-stored a (stored_snapshot d) h = cc
read_snapshot-stored a (stored_binding d) h = cc

pub read_binding-stored :
    (a : SnapshotName) (raw : StoredSnapshot)
    → some (stored_binding a) ≡ some raw
    → read_binding raw ≡ some a
read_binding-stored a (stored_snapshot d) h = cc
read_binding-stored a (stored_binding d) h = cc

abbrev pub snapshot_codecs : SnapshotCodecs StoredSnapshot
snapshot_codecs = record {
  record_json = record {
    marshal = λ d. some (stored_snapshot d);
    unmarshal = read_snapshot;
    unmarshal-marshal = read_snapshot-stored;
  };
  name_json = record {
    marshal = λ d. some (stored_binding d);
    unmarshal = read_binding;
    unmarshal-marshal = read_binding-stored;
  };
}

abbrev pub snapshot_id : Text
snapshot_id = text "7b1e9d04-33aa-4c5f-a6d2-f00e1b2c3d4e"

abbrev pub captured : Snapshot
captured = record {
  id = snapshot_id;
  name = text "snap";
  description = [];
  sandbox_id = id;
  source_generation = 3;
  image_digest = digest;
  registry_reference = [];
  vmm = cloud_hypervisor;
  config = demo.config;
  size = pos 0;
  created_at = 100;
  last_accessed_at = 100;
}

abbrev no_snapshots : Store StoredSnapshot
no_snapshots = record {
  records = (text "snapshots", []) ∷ (text "snapshot_names", []) ∷ [];
  closed = false;
}

abbrev pub holding : SnapshotData → Store StoredSnapshot
holding d = record no_snapshots {
  records =
      (text "snapshots", (snapshot_id, stored_snapshot d) ∷ [])
      ∷ (text "snapshot_names", (text "snap", stored_binding (record { id = snapshot_id })) ∷ [])
      ∷ [];
}

abbrev pending_data : SnapshotData
pending_data = encode_snapshot captured false

abbrev pub ready_data : SnapshotData
ready_data = record pending_data { size = pos 4096; last_accessed_at = 200; ready = true }

abbrev pub touched_data : SnapshotData
touched_data = record ready_data { last_accessed_at = 300 }

abbrev deleting_data : SnapshotData
deleting_data = record touched_data { deleting = true }

abbrev pub published : Snapshot
published = record captured { size = pos 4096; last_accessed_at = 200 }

abbrev pub touched : Snapshot
touched = record published { last_accessed_at = 300 }

captured_valid : validate_snapshot captured ≡ ok tt
unfolding validate_snapshot parse_snapshot_id has_bad_reference has_bad_name is_snapshot_name
    contains_any parse_sandbox_id has_uuid_shape compact_uuid hex_value hex_decode any_of all_of
    resolve_policy fill_window fill_budget has_bad_window has_bad_budget cpu_ranges validate_config
    validate_shape validate_request validate_disks validate_io_mode validate_vmm is_resource_name
    digest_string hex_encode hex_digit parse_digest has_digest_shape is_lower_text has_prefix
captured_valid = refl

reserved_snapshot :
    reserve_snapshot snapshot_codecs calm no_snapshots captured ≡ (ok tt, holding pending_data)
unfolding reserve_snapshot reserve_data bind_name update snapshot get put delete collection lookup
    insert without text_eq load_data decode_data put_data encode_snapshot decode_snapshot
    validate_snapshot parse_snapshot_id has_bad_reference has_bad_name is_snapshot_name contains_any
    parse_sandbox_id has_uuid_shape compact_uuid hex_value hex_decode any_of all_of resolve_policy
    fill_window fill_budget has_bad_window has_bad_budget cpu_ranges validate_config validate_shape
    validate_request validate_disks validate_io_mode validate_vmm is_resource_name digest_string
    hex_encode hex_digit parse_digest has_digest_shape is_lower_text has_prefix
reserved_snapshot = refl

committed_snapshot :
    commit_snapshot snapshot_codecs calm (holding pending_data) snapshot_id (pos 4096) 200
    ≡ (ok published, holding ready_data)
unfolding commit_snapshot commit_data update snapshot get put delete collection lookup insert
    without text_eq load_data decode_data put_data encode_snapshot decode_snapshot validate_snapshot
    parse_snapshot_id has_bad_reference has_bad_name is_snapshot_name contains_any parse_sandbox_id
    has_uuid_shape compact_uuid hex_value hex_decode any_of all_of resolve_policy fill_window
    fill_budget has_bad_window has_bad_budget cpu_ranges validate_config validate_shape
    validate_request validate_disks validate_io_mode validate_vmm is_resource_name digest_string
    hex_encode hex_digit parse_digest has_digest_shape is_lower_text has_prefix
committed_snapshot = refl

touched_snapshot :
    touch_snapshot snapshot_codecs calm (holding ready_data) snapshot_id 300
    ≡ (ok touched, holding touched_data)
unfolding touch_snapshot touch_data update snapshot get put delete collection lookup insert without
    text_eq load_data decode_data put_data encode_snapshot decode_snapshot validate_snapshot
    parse_snapshot_id has_bad_reference has_bad_name is_snapshot_name contains_any parse_sandbox_id
    has_uuid_shape compact_uuid hex_value hex_decode any_of all_of resolve_policy fill_window
    fill_budget has_bad_window has_bad_budget cpu_ranges validate_config validate_shape
    validate_request validate_disks validate_io_mode validate_vmm is_resource_name digest_string
    hex_encode hex_digit parse_digest has_digest_shape is_lower_text has_prefix
touched_snapshot = refl

tombstone :
    begin_delete_snapshot snapshot_codecs calm (holding touched_data) (text "snap")
    ≡ (ok touched, holding deleting_data)
unfolding begin_delete_snapshot begin_delete_data resolve_data update snapshot get put delete
    collection lookup insert without text_eq load_data decode_data put_data encode_snapshot
    decode_snapshot validate_snapshot parse_snapshot_id has_bad_reference has_bad_name
    is_snapshot_name contains_any parse_sandbox_id has_uuid_shape compact_uuid hex_value hex_decode
    any_of all_of resolve_policy fill_window fill_budget has_bad_window has_bad_budget cpu_ranges
    validate_config validate_shape validate_request validate_disks validate_io_mode validate_vmm
    is_resource_name digest_string hex_encode hex_digit parse_digest has_digest_shape is_lower_text
    has_prefix
tombstone = refl

finalized :
    finalize_delete_snapshot snapshot_codecs calm (holding deleting_data) snapshot_id
    ≡ (ok tt, no_snapshots)
unfolding finalize_delete_snapshot finalize_data release update snapshot get put delete collection
    lookup insert without text_eq load_data decode_data put_data encode_snapshot decode_snapshot
    validate_snapshot parse_snapshot_id has_bad_reference has_bad_name is_snapshot_name contains_any
    parse_sandbox_id has_uuid_shape compact_uuid hex_value hex_decode any_of all_of resolve_policy
    fill_window fill_budget has_bad_window has_bad_budget cpu_ranges validate_config validate_shape
    validate_request validate_disks validate_io_mode validate_vmm is_resource_name digest_string
    hex_encode hex_digit parse_digest has_digest_shape is_lower_text has_prefix
finalized = refl

decode_snapshot-encode_snapshot_example :
    decode_snapshot (encode_snapshot captured true) ≡ ok captured
decode_snapshot-encode_snapshot_example =
    decode_snapshot-encode_snapshot captured true captured_valid demo_digest (λ h. omega arith)

commit_snapshot-IsPublished_example :
    IsPublished snapshot_codecs
      (begin false (holding pending_data))
      snapshot_id
      published
      (begin false (holding ready_data))
commit_snapshot-IsPublished_example =
    commit_snapshot-IsPublished snapshot_codecs calm (holding pending_data) (holding ready_data)
      snapshot_id (pos 4096) 200 published committed_snapshot

touch_snapshot-IsTouched_example :
    IsTouched snapshot_codecs
      (begin false (holding ready_data))
      snapshot_id
      300
      touched
      (begin false (holding touched_data))
touch_snapshot-IsTouched_example =
    touch_snapshot-IsTouched snapshot_codecs calm (holding ready_data) (holding touched_data)
      snapshot_id 300 touched touched_snapshot

finalize_delete_snapshot-IsReleased_example :
    (r : IsReleased snapshot_codecs
      (begin false (holding deleting_data))
      snapshot_id
      (begin false no_snapshots))
    × (r.before.deleting ≡ true)
finalize_delete_snapshot-IsReleased_example =
    finalize_delete_snapshot-IsReleased snapshot_codecs calm (holding deleting_data) no_snapshots
      snapshot_id finalized
