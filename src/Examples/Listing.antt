-- ===== src/Examples/Listing.antt =====
-- The listings and the usage scan of the snapshot catalog at a concrete store.
use kuma_box.Prelude.{
  Has, ◌≡◌, refl, true, false, some, some, [], ◌∷◌, text_eq, any_of, all_of, has_prefix, lookup,
}
use kuma_box.Errdefs.{ok}
use kuma_box.Types.Text.{is_resource_name, is_snapshot_name, contains_any}
use kuma_box.Types.Ids.{
  parse_sandbox_id, has_uuid_shape, compact_uuid, hex_value, hex_decode, digest_string, hex_encode,
  hex_digit, parse_digest, has_digest_shape, is_lower_text,
}
use kuma_box.Types.Cpu.{resolve_policy, fill_window, fill_budget, has_bad_window, has_bad_budget}
use kuma_box.Types.Cpu.Ranges.{cpu_ranges}
use kuma_box.Types.Sandbox.{
  validate_config, validate_shape, validate_request, validate_disks, validate_io_mode, validate_vmm,
}
use kuma_box.Types.Snapshot.{validate_snapshot, parse_snapshot_id, has_bad_reference, has_bad_name}
use kuma_box.Metadata.{get, collection}
use kuma_box.Snapshots.Records.{decode_snapshot, encode_snapshot}
use kuma_box.Snapshots.Operations.{decode_data, load_data}
use kuma_box.Metadata.{scan, scan_entries, sort_entries, insert_entry, begin}
use kuma_box.Metadata.Newest.{sort_newest, insert_newest}
use kuma_box.Snapshots.Listing.{
  SnapshotState, listed_data, list_data, list_data-Has, stated_data, states_in, state_in,
  states_in-state_in, in_use_data,
}
use kuma_box.Examples.{digest}
use kuma_box.Examples.Snapshots.{snapshot_codecs, snapshot_id, holding, ready_data, published}

abbrev ready_state : SnapshotState
ready_state = record { id = snapshot_id; ready = true; deleting = false }

ready_loads :
    load_data snapshot_codecs (begin false (holding ready_data)) snapshot_id ≡ ok ready_data
unfolding load_data decode_data get collection lookup text_eq decode_snapshot validate_snapshot
    parse_snapshot_id has_bad_reference has_bad_name is_snapshot_name contains_any parse_sandbox_id
    has_uuid_shape compact_uuid hex_value hex_decode any_of all_of resolve_policy fill_window
    fill_budget has_bad_window has_bad_budget cpu_ranges validate_config validate_shape
    validate_request validate_disks validate_io_mode validate_vmm is_resource_name digest_string
    hex_encode hex_digit parse_digest has_digest_shape is_lower_text has_prefix encode_snapshot
ready_loads = refl

all_snapshots :
    list_data snapshot_codecs (λ s. s) (begin false (holding ready_data)) ≡ ok (published ∷ [])
unfolding list_data listed_data sort_newest insert_newest scan scan_entries sort_entries
    insert_entry load_data decode_data get collection lookup text_eq decode_snapshot
    validate_snapshot parse_snapshot_id has_bad_reference has_bad_name is_snapshot_name contains_any
    parse_sandbox_id has_uuid_shape compact_uuid hex_value hex_decode any_of all_of resolve_policy
    fill_window fill_budget has_bad_window has_bad_budget cpu_ranges validate_config validate_shape
    validate_request validate_disks validate_io_mode validate_vmm is_resource_name digest_string
    hex_encode hex_digit parse_digest has_digest_shape is_lower_text has_prefix encode_snapshot
all_snapshots = refl

all_states : states_in snapshot_codecs (begin false (holding ready_data)) ≡ ok (ready_state ∷ [])
unfolding states_in stated_data scan scan_entries sort_entries insert_entry load_data decode_data
    get collection lookup text_eq decode_snapshot validate_snapshot parse_snapshot_id
    has_bad_reference has_bad_name is_snapshot_name contains_any parse_sandbox_id has_uuid_shape
    compact_uuid hex_value hex_decode any_of all_of resolve_policy fill_window fill_budget
    has_bad_window has_bad_budget cpu_ranges validate_config validate_shape validate_request
    validate_disks validate_io_mode validate_vmm is_resource_name digest_string hex_encode hex_digit
    parse_digest has_digest_shape is_lower_text has_prefix encode_snapshot
all_states = refl

one_state :
    state_in snapshot_codecs snapshot_id (begin false (holding ready_data)) ≡ ok (some ready_state)
unfolding state_in load_data decode_data get collection lookup text_eq decode_snapshot
    validate_snapshot parse_snapshot_id has_bad_reference has_bad_name is_snapshot_name contains_any
    parse_sandbox_id has_uuid_shape compact_uuid hex_value hex_decode any_of all_of resolve_policy
    fill_window fill_budget has_bad_window has_bad_budget cpu_ranges validate_config validate_shape
    validate_request validate_disks validate_io_mode validate_vmm is_resource_name digest_string
    hex_encode hex_digit parse_digest has_digest_shape is_lower_text has_prefix encode_snapshot
one_state = refl

parsed : parse_snapshot_id snapshot_id ≡ ok snapshot_id
unfolding parse_snapshot_id parse_sandbox_id has_uuid_shape compact_uuid hex_value hex_decode any_of
    all_of
parsed = refl

decoded : decode_snapshot ready_data ≡ ok published
unfolding load_data decode_data get collection lookup text_eq decode_snapshot validate_snapshot
    parse_snapshot_id has_bad_reference has_bad_name is_snapshot_name contains_any parse_sandbox_id
    has_uuid_shape compact_uuid hex_value hex_decode any_of all_of resolve_policy fill_window
    fill_budget has_bad_window has_bad_budget cpu_ranges validate_config validate_shape
    validate_request validate_disks validate_io_mode validate_vmm is_resource_name digest_string
    hex_encode hex_digit parse_digest has_digest_shape is_lower_text has_prefix encode_snapshot
decoded = refl

pinned : in_use_data snapshot_codecs (begin false (holding ready_data)) digest ≡ ok true
unfolding in_use_data scan scan_entries sort_entries insert_entry load_data decode_data get
    collection lookup text_eq decode_snapshot validate_snapshot parse_snapshot_id has_bad_reference
    has_bad_name is_snapshot_name contains_any parse_sandbox_id has_uuid_shape compact_uuid
    hex_value hex_decode any_of all_of resolve_policy fill_window fill_budget has_bad_window
    has_bad_budget cpu_ranges validate_config validate_shape validate_request validate_disks
    validate_io_mode validate_vmm is_resource_name digest_string hex_encode hex_digit parse_digest
    has_digest_shape is_lower_text has_prefix encode_snapshot
pinned = refl

list_data-Has_example : Has published (published ∷ [])
unfolding encode_snapshot text_eq
list_data-Has_example =
    list_data-Has snapshot_codecs (λ s. s) (begin false (holding ready_data)) snapshot_id ready_data
      published (published ∷ []) ready_loads refl refl refl decoded all_snapshots

states_in-state_in_example : Has ready_state (ready_state ∷ [])
states_in-state_in_example =
    states_in-state_in snapshot_codecs (begin false (holding ready_data)) snapshot_id snapshot_id
      ready_state (ready_state ∷ []) parsed one_state all_states
