-- ===== src/Examples/Access.antt =====
-- The theorems on the access buffer at a concrete store.
use kuma_box.Prelude.{
  ◌≡◌, refl, some, [], ◌∷◌, text_eq, any_of, all_of, has_prefix, lookup, insert, without, Text,
  arith, ◌≤◌, ℕ,
}
use kuma_box.Errdefs.{Result, ok}
use kuma_box.Types.Text.{is_resource_name, is_snapshot_name, contains_any}
use kuma_box.Types.Ids.{
  parse_sandbox_id, has_uuid_shape, compact_uuid, hex_value, hex_decode, digest_string, hex_encode,
  hex_digit, parse_digest, has_digest_shape, is_lower_text,
}
use kuma_box.Types.Cpu.{resolve_policy, fill_window, fill_budget, has_bad_window, has_bad_budget}
use kuma_box.Types.Cpu.Ranges.{cpu_ranges}
use kuma_box.Types.Sandbox.{
  validate_config, validate_shape, validate_request, validate_disks, validate_io_mode, validate_vmm,
}
use kuma_box.Types.Snapshot.{validate_snapshot, parse_snapshot_id, has_bad_reference, has_bad_name}
use kuma_box.Metadata.{update, snapshot, get, put, delete, collection}
use kuma_box.Snapshots.Records.{decode_snapshot, encode_snapshot, SnapshotData}
use kuma_box.Snapshots.Operations.{decode_data, load_data, put_data}
use kuma_box.Snapshots.Access.{
  Buffer, Buffered, record_once, retire, retire_entries, persist_one, persist, record_access,
}
use kuma_box.Snapshots.Access.Steps.{
  idle, taken, written, Shared, records, takes, writes, retires, AccessRun, rests, goes,
  AccessRun-IsForward, idle-not-written, stored_at, visible,
}
use kuma_box.Snapshots.Access.Persist.{IsCarried}
use kuma_box.Snapshots.Access.Bound.{IsBounded, record_access_total}
use kuma_box.Examples.{calm}
use kuma_box.Examples.Snapshots.{
  StoredSnapshot, snapshot_codecs, snapshot_id, holding, ready_data, touched_data,
}

abbrev small : Buffer
small = record { pending = []; limit = 1; generation = 0 }

abbrev at : Text → ℕ → Buffer
at id accessed = record small { pending = (id, accessed) ∷ [] }

abbrev start : Shared StoredSnapshot
start = record { store = holding ready_data; buffer = small; flush = idle }

abbrev held : Shared StoredSnapshot
held = record start { buffer = at snapshot_id 300 }

abbrev started : Shared StoredSnapshot
started = record held { flush = taken ((snapshot_id, 300) ∷ []) }

abbrev used_again : Shared StoredSnapshot
used_again = record started { buffer = at snapshot_id 350 }

abbrev stored : Shared StoredSnapshot
stored = record used_again {
  store = holding touched_data;
  flush = written ((snapshot_id, 300) ∷ []);
}

abbrev retired : Shared StoredSnapshot
retired = record stored { buffer = record (at snapshot_id 350) { generation = 1 }; flush = idle }

first_recording : record_once small snapshot_id 300 ≡ some (300, at snapshot_id 300)
unfolding record_once lookup insert
first_recording = refl

second_recording : record_once (at snapshot_id 300) snapshot_id 350 ≡ some (350, at snapshot_id 350)
unfolding record_once lookup insert text_eq
second_recording = refl

written_batch :
    update calm (persist snapshot_codecs ((snapshot_id, 300) ∷ [])) (holding ready_data)
    ≡ (ok tt, holding touched_data)
unfolding persist persist_one update snapshot get put delete collection lookup insert without
    text_eq decode_data put_data decode_snapshot validate_snapshot parse_snapshot_id
    has_bad_reference has_bad_name is_snapshot_name contains_any parse_sandbox_id has_uuid_shape
    compact_uuid hex_value hex_decode any_of all_of resolve_policy fill_window fill_budget
    has_bad_window has_bad_budget cpu_ranges validate_config validate_shape validate_request
    validate_disks validate_io_mode validate_vmm is_resource_name digest_string hex_encode hex_digit
    parse_digest has_digest_shape is_lower_text has_prefix encode_snapshot
written_batch = refl

retired_batch :
    retired
    ≡ record stored { buffer = retire ((snapshot_id, 300) ∷ []) stored.buffer; flush = idle }
unfolding retire retire_entries lookup text_eq
retired_batch = refl

loaded : stored_at snapshot_codecs start snapshot_id ≡ ok ready_data
unfolding load_data decode_data get collection lookup text_eq decode_snapshot validate_snapshot
    parse_snapshot_id has_bad_reference has_bad_name is_snapshot_name contains_any parse_sandbox_id
    has_uuid_shape compact_uuid hex_value hex_decode any_of all_of resolve_policy fill_window
    fill_budget has_bad_window has_bad_budget cpu_ranges validate_config validate_shape
    validate_request validate_disks validate_io_mode validate_vmm is_resource_name digest_string
    hex_encode hex_digit parse_digest has_digest_shape is_lower_text has_prefix encode_snapshot
loaded = refl

interleaved : AccessRun snapshot_codecs start retired
interleaved =
    goes start held retired (records snapshot_id 300 300 held.buffer first_recording refl) (
      goes held started retired (takes refl refl) (
        goes started used_again retired
          (records snapshot_id 350 350 used_again.buffer second_recording refl)
          (goes used_again stored retired
            (writes ((snapshot_id, 300) ∷ []) calm stored.store refl written_batch refl)
            (goes stored retired retired (retires ((snapshot_id, 300) ∷ []) refl retired_batch)
              (rests retired)))))

small-IsBounded : IsBounded small
small-IsBounded = record { unique = tt; room = omega arith; positive = omega arith }

AccessRun-IsForward_example :
    (d : SnapshotData) × (stored_at snapshot_codecs retired snapshot_id ≡ ok d)
    × IsCarried ready_data d
    × (visible snapshot_codecs start snapshot_id ready_data
        ≤ visible snapshot_codecs retired snapshot_id d)
unfolding encode_snapshot
AccessRun-IsForward_example =
    AccessRun-IsForward snapshot_codecs start retired
      (λ batch j d t. absurd (idle-not-written snapshot_codecs t)) interleaved snapshot_id
      ready_data loaded refl refl

record_access_total_example :
    (r : Result ℕ × Buffered StoredSnapshot) × (record_access snapshot_codecs
        (calm ∷ calm ∷ [])
        (record { store = holding ready_data; buffer = small })
        snapshot_id
        300
      ≡ some r)
record_access_total_example =
    record_access_total snapshot_codecs calm calm []
      (record { store = holding ready_data; buffer = small }) snapshot_id 300 small-IsBounded
