-- ===== src/Examples/Catalog.antt =====
-- The theorems on the catalog at a concrete store.
use kuma_box.Prelude.{
  none, arith, ◌≡◌, refl, true, false, some, [], ◌∷◌, Text, all_of, any_of, text, text_eq,
  has_prefix, lookup, insert, without,
}
use kuma_box.Errdefs.{ok, err, classified, conflict, state_conflict, with_context}
use kuma_box.Types.Text.{is_resource_name}
use kuma_box.Types.Ids.{
  parse_sandbox_id, has_uuid_shape, compact_uuid, hex_value, hex_decode, is_zero_digest,
  digest_string, hex_encode, hex_digit, parse_digest, has_digest_shape, is_lower_text,
}
use kuma_box.Types.Network.{validate_setup, no_network}
use kuma_box.Types.Cpu.{resolve_policy, fill_window, fill_budget, has_bad_window, has_bad_budget}
use kuma_box.Types.Cpu.Ranges.{cpu_ranges}
use kuma_box.Types.Sandbox.{
  stopping, state_eq, Sandbox, creating, created, starting, running, validate_sandbox,
  validate_config, validate_shape, validate_request, validate_disks, validate_io_mode, validate_vmm,
  lacks_facts, has_stray_interfaces, has_stray_name, validate_handoff, has_misplaced_failure,
  validate_sandbox-IsValid,
}
use kuma_box.Metadata.{
  Store, begin, update, snapshot, get, put, delete, collection, scan, scan_entries, sort_entries,
}
use kuma_box.Sandboxes.Records.{encode_network, decode_network}
use kuma_box.Sandboxes.Decode.{encode, decode, rebuild, decode-marshal}
use kuma_box.Sandboxes.Access.{
  absent, load, put_record, put_name, save, name_owner, delete_record, in_use,
}
use kuma_box.Sandboxes.Operations.{
  begin_stop, reserve, reserve_in, apply_change, edit, mark_created, begin_start, remove_from,
  forget,
}
use kuma_box.Sandboxes.Changes.{moved, mark_created_change, created_name, begin_start_change}
use kuma_box.Sandboxes.Edits.{run, creates, starts}
use kuma_box.Sandboxes.Reachable.{
  edits, reserves, fails_reserve, Reachable, starts_empty, steps, Reachable-unique, reserve-IsAdded,
  remove-IsRemoved,
}
use kuma_box.Sandboxes.Reservation.{IsAdded}
use kuma_box.Sandboxes.Removal.{IsRemoved}
use kuma_box.Sandboxes.Lifecycle.{Committed, run-Committed, run-err}
use kuma_box.Sandboxes.Refinement.{Lives, Calls, called, finished, phase, Calls-Lives}
use kuma_box.Sandboxes.Progress.{IsQuiet, begin_stop_total}
use kuma_box.Metadata.Newest.{sort_newest, insert_newest}
use kuma_box.Sandboxes.Listing.{list_in, listed}
use kuma_box.Sandboxes.Usage.{in_use-load}
use kuma_box.Examples.{
  Stored, stored_record, stored_name, codecs, digest, demo, id, parsers, calm, empty_store,
}
use kuma_box.Examples.Values.{demo_digest}

demo_valid : validate_sandbox parsers demo ≡ ok tt
unfolding validate_sandbox parse_sandbox_id has_uuid_shape compact_uuid hex_value hex_decode any_of
    all_of is_zero_digest validate_setup resolve_policy fill_window fill_budget has_bad_window
    has_bad_budget cpu_ranges validate_config validate_shape validate_request validate_disks
    validate_io_mode validate_vmm lacks_facts has_stray_interfaces has_stray_name validate_handoff
    has_misplaced_failure is_resource_name
demo_valid = refl

abbrev stored : Sandbox → Store Stored
stored r = record empty_store {
  records =
      (text "sandboxes", (r.id, stored_record (encode r)) ∷ [])
      ∷ (text "sandbox_names", (r.config.name, stored_name (record { id = r.id })) ∷ [])
      ∷ [];
}

reserved :
    reserve codecs (λ t reference. ok digest) calm empty_store (text "base") digest demo
    ≡ (ok tt, stored demo)
unfolding reserve reserve_in update snapshot get put collection lookup insert text_eq name_owner
    put_record put_name validate_sandbox parse_sandbox_id has_uuid_shape compact_uuid hex_value
    hex_decode any_of all_of is_zero_digest validate_setup resolve_policy fill_window fill_budget
    has_bad_window has_bad_budget cpu_ranges validate_config validate_shape validate_request
    validate_disks validate_io_mode validate_vmm lacks_facts has_stray_interfaces has_stray_name
    validate_handoff has_misplaced_failure is_resource_name
reserved = refl

abbrev created_demo : Sandbox
created_demo = record demo { state = created; generation = 2; updated_at = 200 }

abbrev starting_demo : Sandbox
starting_demo = record demo { state = starting; generation = 3; updated_at = 300 }

demo_loads : load codecs (begin false (stored demo)) id ≡ ok demo
unfolding update snapshot get put delete collection lookup insert without text_eq name_owner
    put_record put_name load decode rebuild encode encode_network decode_network digest_string
    hex_encode hex_digit parse_digest has_digest_shape is_lower_text has_prefix save apply_change
    edit validate_sandbox parse_sandbox_id has_uuid_shape compact_uuid hex_value hex_decode any_of
    all_of is_zero_digest validate_setup resolve_policy fill_window fill_budget has_bad_window
    has_bad_budget cpu_ranges validate_config validate_shape validate_request validate_disks
    validate_io_mode validate_vmm lacks_facts has_stray_interfaces has_stray_name validate_handoff
    has_misplaced_failure is_resource_name
demo_loads = refl

made :
    run codecs (creates no_network) calm (stored demo) id 1 200
    ≡ (ok created_demo, stored created_demo)
unfolding run mark_created mark_created_change created_name update snapshot get put delete
    collection lookup insert without text_eq name_owner put_record put_name load decode rebuild
    encode encode_network decode_network digest_string hex_encode hex_digit parse_digest
    has_digest_shape is_lower_text has_prefix save apply_change edit validate_sandbox
    parse_sandbox_id has_uuid_shape compact_uuid hex_value hex_decode any_of all_of is_zero_digest
    validate_setup resolve_policy fill_window fill_budget has_bad_window has_bad_budget cpu_ranges
    validate_config validate_shape validate_request validate_disks validate_io_mode validate_vmm
    lacks_facts has_stray_interfaces has_stray_name validate_handoff has_misplaced_failure
    is_resource_name
made = refl

started :
    run codecs starts calm (stored created_demo) id 2 300 ≡ (ok starting_demo, stored starting_demo)
unfolding run begin_start begin_start_change update snapshot get put delete collection lookup insert
    without text_eq name_owner put_record put_name load decode rebuild encode encode_network
    decode_network digest_string hex_encode hex_digit parse_digest has_digest_shape is_lower_text
    has_prefix save apply_change edit validate_sandbox parse_sandbox_id has_uuid_shape compact_uuid
    hex_value hex_decode any_of all_of is_zero_digest validate_setup resolve_policy fill_window
    fill_budget has_bad_window has_bad_budget cpu_ranges validate_config validate_shape
    validate_request validate_disks validate_io_mode validate_vmm lacks_facts has_stray_interfaces
    has_stray_name validate_handoff has_misplaced_failure is_resource_name
started = refl

refused :
    run codecs starts calm (stored starting_demo) id 2 400
    ≡ (err (classified conflict state_conflict false), stored starting_demo)
unfolding run begin_start begin_start_change update snapshot get put delete collection lookup insert
    without text_eq name_owner put_record put_name load decode rebuild encode encode_network
    decode_network digest_string hex_encode hex_digit parse_digest has_digest_shape is_lower_text
    has_prefix save apply_change edit validate_sandbox parse_sandbox_id has_uuid_shape compact_uuid
    hex_value hex_decode any_of all_of is_zero_digest validate_setup resolve_policy fill_window
    fill_budget has_bad_window has_bad_budget cpu_ranges validate_config validate_shape
    validate_request validate_disks validate_io_mode validate_vmm lacks_facts has_stray_interfaces
    has_stray_name validate_handoff has_misplaced_failure is_resource_name with_context
refused = refl

forgotten : forget codecs calm (stored demo) id 1 ≡ (ok tt, empty_store)
unfolding forget remove_from delete_record update snapshot get put delete collection lookup insert
    without text_eq name_owner put_record put_name load decode rebuild encode encode_network
    decode_network digest_string hex_encode hex_digit parse_digest has_digest_shape is_lower_text
    has_prefix save apply_change edit validate_sandbox parse_sandbox_id has_uuid_shape compact_uuid
    hex_value hex_decode any_of all_of is_zero_digest validate_setup resolve_policy fill_window
    fill_budget has_bad_window has_bad_budget cpu_ranges validate_config validate_shape
    validate_request validate_disks validate_io_mode validate_vmm lacks_facts has_stray_interfaces
    has_stray_name validate_handoff has_misplaced_failure is_resource_name
forgotten = refl

used : in_use codecs (begin false (stored demo)) digest ≡ ok true
unfolding in_use scan scan_entries sort_entries update snapshot get put delete collection lookup
    insert without text_eq name_owner put_record put_name load decode rebuild encode encode_network
    decode_network digest_string hex_encode hex_digit parse_digest has_digest_shape is_lower_text
    has_prefix save apply_change edit validate_sandbox parse_sandbox_id has_uuid_shape compact_uuid
    hex_value hex_decode any_of all_of is_zero_digest validate_setup resolve_policy fill_window
    fill_budget has_bad_window has_bad_budget cpu_ranges validate_config validate_shape
    validate_request validate_disks validate_io_mode validate_vmm lacks_facts has_stray_interfaces
    has_stray_name validate_handoff has_misplaced_failure is_resource_name
used = refl

all_listed : list_in codecs (begin false (stored demo)) ≡ ok (demo ∷ [])
unfolding list_in listed sort_newest insert_newest scan scan_entries sort_entries update snapshot
    get put delete collection lookup insert without text_eq name_owner put_record put_name load
    decode rebuild encode encode_network decode_network digest_string hex_encode hex_digit
    parse_digest has_digest_shape is_lower_text has_prefix save apply_change edit validate_sandbox
    parse_sandbox_id has_uuid_shape compact_uuid hex_value hex_decode any_of all_of is_zero_digest
    validate_setup resolve_policy fill_window fill_budget has_bad_window has_bad_budget cpu_ranges
    validate_config validate_shape validate_request validate_disks validate_io_mode validate_vmm
    lacks_facts has_stray_interfaces has_stray_name validate_handoff has_misplaced_failure
    is_resource_name
all_listed = refl

nothing : (j : Text) → load codecs (begin false empty_store) j ≡ err absent
unfolding load get collection lookup text_eq
nothing j = refl

run-Committed_example :
    Committed codecs (stored demo) (creates no_network) id 1 200 created_demo (stored created_demo)
run-Committed_example =
    run-Committed codecs (creates no_network) calm (stored demo) (stored created_demo) id 1 200
      created_demo made

run-err_example : (stored starting_demo).records ≡ (stored starting_demo).records
run-err_example =
    run-err codecs starts calm (stored starting_demo) (stored starting_demo) id 2 400
      (classified conflict state_conflict false) refused

reserve-IsAdded_example : IsAdded codecs (begin false empty_store) demo (begin false (stored demo))
reserve-IsAdded_example =
    reserve-IsAdded codecs (λ t reference. ok digest) calm empty_store (stored demo) (text "base")
      digest demo demo_digest reserved

remove-IsRemoved_example :
    (r : Sandbox) × (load codecs (begin false (stored demo)) id ≡ ok r)
    × (r.generation ≡ 1)
    × (state_eq r.state creating ≡ true)
    × IsRemoved codecs (begin false (stored demo)) r (begin false empty_store)
unfolding forget
remove-IsRemoved_example =
    remove-IsRemoved codecs creating calm (stored demo) empty_store id 1 forgotten

demo_reached : Reachable codecs (stored demo)
demo_reached =
    steps empty_store (stored demo) (starts_empty empty_store nothing)
      (reserves (λ t reference. ok digest) calm (text "base") digest demo demo_digest reserved)

Reachable-unique_example :
    (id ≡ id) × (name_owner codecs (begin false (stored demo)) (text "demo") ≡ ok (some id))
Reachable-unique_example =
    Reachable-unique codecs (stored demo) id id demo demo demo_reached demo_loads demo_loads refl

in_use-load_example : true ≡ true
unfolding text_eq
in_use-load_example =
    in_use-load codecs digest (begin false (stored demo)) id demo true demo_loads refl used

decode-marshal_example : decode codecs (stored_record (encode demo)) ≡ ok demo
decode-marshal_example =
    decode-marshal codecs demo (stored_record (encode demo))
      ((validate_sandbox-IsValid parsers demo).0 demo_valid) demo_digest refl

abbrev running_demo : Sandbox
running_demo = record demo { state = running; generation = 4; updated_at = 500 }

running_loads : load codecs (begin false (stored running_demo)) id ≡ ok running_demo
unfolding update snapshot get put delete collection lookup insert without text_eq name_owner
    put_record put_name load decode rebuild encode encode_network decode_network digest_string
    hex_encode hex_digit parse_digest has_digest_shape is_lower_text has_prefix save apply_change
    edit validate_sandbox parse_sandbox_id has_uuid_shape compact_uuid hex_value hex_decode any_of
    all_of is_zero_digest validate_setup resolve_policy fill_window fill_budget has_bad_window
    has_bad_budget cpu_ranges validate_config validate_shape validate_request validate_disks
    validate_io_mode validate_vmm lacks_facts has_stray_interfaces has_stray_name validate_handoff
    has_misplaced_failure is_resource_name
running_loads = refl

calm_store : IsQuiet calm (stored running_demo)
calm_store = record {
  waiting = refl;
  running_callback = refl;
  committing = refl;
  closing = refl;
  opened = refl;
}

begin_stop_total_example :
    (begin_stop codecs calm (stored running_demo) id 4 600).0
    ≡ ok (moved stopping none 600 running_demo)
begin_stop_total_example =
    begin_stop_total codecs calm (stored running_demo) id 600 running_demo
      (stored_record (encode (moved stopping none 600 running_demo))) calm_store running_loads refl
      (λ h. omega arith) (λ h. omega arith) refl

-- A second reservation of the same sandbox is refused.
taken :
    reserve codecs (λ t reference. ok digest) calm (stored created_demo) (text "base") digest demo
    ≡ (err (classified conflict state_conflict false), stored created_demo)
unfolding reserve reserve_in update snapshot get put collection lookup insert text_eq name_owner
    put_record put_name validate_sandbox parse_sandbox_id has_uuid_shape compact_uuid hex_value
    hex_decode any_of all_of is_zero_digest validate_setup resolve_policy fill_window fill_budget
    has_bad_window has_bad_budget cpu_ranges validate_config validate_shape validate_request
    validate_disks validate_io_mode validate_vmm lacks_facts has_stray_interfaces has_stray_name
    validate_handoff has_misplaced_failure is_resource_name with_context
taken = refl

-- From nothing to a created sandbox, and a reservation that is refused.
three_calls : Calls codecs empty_store (stored created_demo)
three_calls =
    called (stored demo)
      (reserves (λ t reference. ok digest) calm (text "base") digest demo demo_digest reserved)
      (called (stored created_demo) (edits (creates no_network) calm id 1 200 created_demo made) (
        called (stored created_demo)
          (fails_reserve (λ t reference. ok digest) calm (text "base") digest demo
            (classified conflict state_conflict false) taken)
          (finished refl)))

Calls-Lives_example : Lives (phase codecs empty_store id) (phase codecs (stored created_demo) id)
Calls-Lives_example = Calls-Lives codecs empty_store (stored created_demo) three_calls id
