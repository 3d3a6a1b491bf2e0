-- ===== src/Examples/Values.antt =====
-- The theorems on values at concrete inputs.
use kuma_box.Prelude.{
  ◌++◌, has_prefix, length, ℕ, ◌≡◌, ◌↔◌, refl, true, some, none, List, [], ◌∷◌, all_of, any_of,
  text_eq, Text, text, pos,
}
use kuma_box.Errdefs.{Result, ok}
use kuma_box.Types.Text.{is_data_disk_name, itoa, decimal, decimal_onto}
use kuma_box.Types.Ids.{IsDigest}
use kuma_box.Types.Network.{
  NetworkSetup, NetworkInterface, cni, dynamic, validate_setup, validate_backend,
  validate_interfaces, validate_interface, validate_ipv4,
}
use kuma_box.Types.Cpu.{
  CpuPolicy, resolve_policy, fill_window, fill_budget, has_bad_window, has_bad_budget,
}
use kuma_box.Types.Cpu.Ranges.{
  CpuRange, cpu_ranges, cpu_set_contains, covers, skip_below, split, cut, parse_digits,
  parse_uint32, parse_range, parse_ranges, insert_range, sort_ranges, merge_onto, merge,
}
use kuma_box.Types.Cpu.Ranges.Members.{Listed, Normal, cpu_ranges-Normal}
use kuma_box.Types.Cpu.Ranges.Covers.{cpu_set_contains_iff}
use kuma_box.Types.Cpu.Resolve.{IsResolved, resolve_policy-IsResolved}
use kuma_box.Types.Disks.Names.{resolve_data_disks-Distinct}
use kuma_box.Types.Disks.Taken.{names_of, Distinct}
use kuma_box.Types.Disks.Fresh.{contains, candidate, fresh}
use kuma_box.Types.Disks.{
  take_inherited, take_named, named_disk, append_additions, validate_disk, DataDiskSpec,
  resolve_data_disks,
}
use kuma_box.Types.Disks.Resolve.{resolve_data_disks_total}
use kuma_box.Examples.{digest, parsers, policy}

pub demo_digest : IsDigest digest
unfolding all_of
demo_digest = record { size = refl; bytes = refl }

contained : cpu_set_contains (text "0-3,8") (text "8,1-2") ≡ ok true
unfolding cpu_set_contains covers skip_below cpu_ranges split cut parse_digits parse_uint32
    parse_range parse_ranges insert_range sort_ranges merge_onto merge any_of all_of text_eq
contained = refl

cpu_set_contains_iff_example :
    (true ≡ true) ↔ ((n : ℕ) → Listed n (text "8,1-2") → Listed n (text "0-3,8"))
cpu_set_contains_iff_example = cpu_set_contains_iff (text "0-3,8") (text "8,1-2") true contained

abbrev two_ranges : List CpuRange
two_ranges = record { first = 0; last = 4 } ∷ record { first = 7; last = 7 } ∷ []

ranges_of_list : cpu_ranges (text "7,3-4,0-3") ≡ ok two_ranges
unfolding cpu_ranges split cut parse_digits parse_uint32 parse_range parse_ranges insert_range
    sort_ranges merge_onto merge any_of all_of text_eq
ranges_of_list = refl

cpu_ranges-Normal_example : Normal 0 two_ranges
cpu_ranges-Normal_example = cpu_ranges-Normal (text "7,3-4,0-3") two_ranges ranges_of_list

abbrev resolved : CpuPolicy
resolved = record {
  weight = 2;
  quota_us = pos 200000;
  period_us = pos 100000;
  burst_us = pos 200000;
  cpu_set = [];
}

policy_resolves : resolve_policy 2 policy ≡ ok resolved
unfolding resolve_policy fill_window fill_budget has_bad_window has_bad_budget cpu_ranges
policy_resolves = refl

resolve_policy-IsResolved_example : IsResolved resolved × (resolve_policy 2 resolved ≡ ok resolved)
resolve_policy-IsResolved_example = resolve_policy-IsResolved 2 policy resolved policy_resolves

abbrev interface_at : ℕ → Text → NetworkInterface
interface_at i name = record {
  index = pos i;
  name = name;
  tap = text "tap0";
  mac = text "02:00:00:00:00:01";
  queues = pos 2;
  queue_size = pos 256;
  network = text "default";
  ipv4 = none;
  address_mode = dynamic;
  host_address = [];
}

abbrev two_interfaces : NetworkSetup
two_interfaces = record {
  backend = cni;
  namespace = text "/run/netns/demo";
  interfaces = interface_at 0 (text "eth0") ∷ interface_at 1 (text "eth1") ∷ [];
}

setup_valid : validate_setup parsers two_interfaces ≡ ok tt
unfolding validate_setup validate_backend validate_interfaces validate_interface validate_ipv4 itoa
    decimal decimal_onto text_eq any_of
setup_valid = refl

abbrev disk : Text → DataDiskSpec
disk name = record { name = name; size = pos 16777216; fs_type = text "ext4"; direct_io = none }

resolve_data_disks_total_example :
    (r : Result (List DataDiskSpec)) × (resolve_data_disks (disk (text "data1") ∷ []) (disk [] ∷ [])
      ≡ some r)
resolve_data_disks_total_example =
    resolve_data_disks_total (disk (text "data1") ∷ []) (disk [] ∷ [])

abbrev three_disks : List DataDiskSpec
three_disks = disk (text "data1") ∷ disk (text "data2") ∷ disk (text "cache") ∷ []

disks_resolved :
    resolve_data_disks (disk (text "data1") ∷ []) (disk [] ∷ disk (text "cache") ∷ [])
    ≡ some (ok three_disks)
unfolding resolve_data_disks take_inherited take_named named_disk append_additions fresh candidate
    contains validate_disk is_data_disk_name decimal decimal_onto has_prefix text_eq any_of all_of
disks_resolved = refl

resolve_data_disks-Distinct_example :
    Distinct (names_of three_disks)
    × (rest : List DataDiskSpec) × (three_disks ≡ (disk (text "data1") ∷ []) ++ rest)
    × (length rest ≡ 2)
resolve_data_disks-Distinct_example =
    resolve_data_disks-Distinct (disk (text "data1") ∷ []) (disk [] ∷ disk (text "cache") ∷ [])
      three_disks disks_resolved
