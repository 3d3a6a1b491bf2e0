-- ===== src/Examples/Images.antt =====
-- The theorems on the image catalog at a concrete store, which the other two catalogs share.
use kuma_box.Prelude.{
  ◌≡◌, ◌∙◌, refl, true, false, Option, some, none, [], ◌∷◌, text, Text, pos, ap, sym, Dict, All,
  text_eq, text_compare, keep_if, any_of, all_of, has_prefix, lookup, insert, without,
}
use kuma_box.Errdefs.{ok}
use kuma_box.Types.Text.{decimal, decimal_onto}
use kuma_box.Types.Ids.{
  digest_string, hex_encode, hex_digit, hex_value, hex_decode, parse_digest, has_digest_shape,
  is_lower_text, is_zero_digest,
}
use kuma_box.Metadata.{
  Transaction, get, put, delete, collection, scan, scan_entries, sort_entries, insert_entry,
}
use kuma_box.Sandboxes.Records.{Codec, Codecs, RecordData, NameData}
use kuma_box.Sandboxes.Access.{sandboxes, in_use}
use kuma_box.Snapshots.Records.{SnapshotCodecs, SnapshotData, SnapshotName}
use kuma_box.Snapshots.Operations.{snapshots}
use kuma_box.Snapshots.Listing.{in_use_data}
use kuma_box.Images.{BootFile, Layer, Image, ImportCommit, Removal, is_valid_platform}
use kuma_box.Images.Selection.{
  has_suffix, without_slashes, has_slash, after_slash, base_name, is_boot_name, drop_named,
  hide_named, add_files, overlay, overlay_all, last_boot, select_boot,
}
use kuma_box.Images.Selection.Selected.{IsChosen, select_boot-IsChosen}
use kuma_box.Images.Validate.{
  validate_files, validate_whiteouts, validate_layers, is_complete, validate_commit,
}
use kuma_box.Images.Validate.Sound.{IsConsistent, validate_commit-IsConsistent}
use kuma_box.Images.Records.{
  ImageCodecs, ImageRecord, ImageName, LayerRecord, zeros, eight_digits, layer_key,
  encode_boot_files, encode_layer, encode_image, decode_boot_files, check_whiteouts, decode_layer,
}
use kuma_box.Images.Access.{
  images, image_names, image_layers, insert_text, sort_texts, insert_position, sort_positions,
  layers_from, stored_commit, load_image, trim_algorithm, matching, find_prefix, find_digest,
  resolve_image, layer_referenced,
}
use kuma_box.Images.Operations.{
  put_json, check_alias, put_layers, commit_new, commit_import_in, takes_name, remove_names,
  remaining, drop_layers, drop_image, remove_in,
}
use kuma_box.Images.Release.{IsReferenced, remove_in-IsFree}
use kuma_box.Images.Loaded.{IsStored}
use kuma_box.Images.Named.{IsMeant, resolve_image-IsMeant}
use kuma_box.Images.Retained.{image_usage, IsRetained, remove_in-unused}
use kuma_box.Images.RoundTrip.Same.{AreDigests, IsSame, commit_import_in-IsSame}
use kuma_box.Examples.Values.{demo_digest}
use kuma_box.Images.Imported.{IsImported, commit_import_in-IsImported}
use kuma_box.Examples.{digest, parsers}

-- A value of any of the three catalogs, before it is bytes.
pub data Mixed : Type 0 where
  from_sandbox : RecordData → Mixed
  from_sandbox_name : NameData → Mixed
  from_snapshot : SnapshotData → Mixed
  from_snapshot_name : SnapshotName → Mixed
  from_image : ImageRecord → Mixed
  from_image_name : ImageName → Mixed
  from_layer : LayerRecord → Mixed

abbrev some_inj : Option Mixed → Mixed → Mixed
some_inj none a = a
some_inj (some b) a = b

-- A codec that wraps a value, and reads what it wrapped.
abbrev wrapping :
    {A : Type 0} (wrap : A → Mixed) (unwrap : Mixed → Option A)
    → ((a : A) → unwrap (wrap a) ≡ some a)
    → Codec Mixed A
wrapping wrap unwrap there_and_back = record {
  marshal = λ a. some (wrap a);
  unmarshal = unwrap;
  unmarshal-marshal = λ a raw h. ap (λ o. unwrap (some_inj o (wrap a))) (sym h) ∙ there_and_back a;
}

abbrev sandbox_codecs : Codecs Mixed
sandbox_codecs = record {
  record_json =
      wrapping from_sandbox (λ m. elim m [ from_sandbox d ↦ some d | _ ↦ none ]) (λ a. refl);
  name_json =
      wrapping from_sandbox_name (λ m. elim m [ from_sandbox_name d ↦ some d | _ ↦ none ])
        (λ a. refl);
  parsers = parsers;
}

abbrev snapshot_codecs : SnapshotCodecs Mixed
snapshot_codecs = record {
  record_json =
      wrapping from_snapshot (λ m. elim m [ from_snapshot d ↦ some d | _ ↦ none ]) (λ a. refl);
  name_json =
      wrapping from_snapshot_name (λ m. elim m [ from_snapshot_name d ↦ some d | _ ↦ none ])
        (λ a. refl);
}

abbrev pub image_codecs : ImageCodecs Mixed
image_codecs = record {
  image_json = wrapping from_image (λ m. elim m [ from_image d ↦ some d | _ ↦ none ]) (λ a. refl);
  name_json =
      wrapping from_image_name (λ m. elim m [ from_image_name d ↦ some d | _ ↦ none ]) (λ a. refl);
  layer_json = wrapping from_layer (λ m. elim m [ from_layer d ↦ some d | _ ↦ none ]) (λ a. refl);
}

abbrev boot_file : Text → BootFile
boot_file name = record { name = name; digest = digest; size = pos 5 }

abbrev pub layer : Layer
layer = record {
  source_digest = digest;
  erofs_digest = digest;
  size = pos 4096;
  boot_files = boot_file (text "vmlinuz-6.8") ∷ boot_file (text "initrd.img-6.8") ∷ [];
  whiteouts = text "vmlinuz" ∷ [];
  boot_opaque = true;
}

abbrev demo_import : ImportCommit
demo_import = record {
  name = text "ubuntu:24.04";
  registry_reference = [];
  manifest = record {
    digest = digest;
    platform = record { os = text "linux"; architecture = text "amd64" };
    boot_profile = text "v1";
    layers = record { digest = digest; size = pos 900 } ∷ [];
  };
  layers = layer ∷ [];
  boot = record {
    profile = text "v1";
    kernel_file = text "vmlinuz-6.8";
    initrd_file = text "initrd.img-6.8";
    kernel_layer = digest;
    initrd_layer = digest;
  };
  size = pos 4096;
  created = 7;
}

abbrev state : Dict Mixed → Dict Mixed → Dict Mixed → Transaction Mixed
state facts names layers = record {
  cancelled = false;
  records =
      (sandboxes, [])
      ∷ (snapshots, [])
      ∷ (images, facts)
      ∷ (image_names, names)
      ∷ (image_layers, layers)
      ∷ [];
}

abbrev fresh : Transaction Mixed
fresh = state [] [] []

abbrev pub imported : Transaction Mixed
imported =
    state ((digest_string digest, from_image (encode_image demo_import)) ∷ [])
      ((text "ubuntu:24.04", from_image_name (record { manifest_digest = digest_string digest }))
        ∷ [])
      ((layer_key digest 0, from_layer (encode_layer digest (pos 0) layer)) ∷ [])

abbrev removal : Removal
removal = record { names = text "ubuntu:24.04" ∷ []; layers = digest ∷ [] }

nonzero : All (λ l. is_zero_digest l.source_digest ≡ false) (layer ∷ [])
unfolding is_zero_digest all_of
nonzero = (refl, tt)

select_boot-IsChosen_example : IsChosen (layer ∷ []) (select_boot (layer ∷ []))
select_boot-IsChosen_example = select_boot-IsChosen (layer ∷ []) nonzero

accepted : validate_commit demo_import ≡ ok tt
unfolding validate_commit is_complete validate_layers validate_files validate_whiteouts
    is_zero_digest all_of any_of is_valid_platform text_eq is_boot_name base_name without_slashes
    has_slash after_slash has_suffix has_prefix select_boot overlay_all overlay add_files hide_named
    drop_named keep_if last_boot
accepted = refl

validate_commit-IsConsistent_example : IsConsistent demo_import
validate_commit-IsConsistent_example = validate_commit-IsConsistent demo_import accepted

import_runs : commit_import_in image_codecs demo_import fresh ≡ ok (tt, imported)
unfolding commit_import_in check_alias commit_new put_layers put_json get put collection lookup
    insert text_eq layer_key eight_digits zeros decimal decimal_onto digest_string hex_encode
    hex_digit encode_layer encode_boot_files encode_image
import_runs = refl

commit_import_in-IsImported_example : IsImported image_codecs demo_import fresh imported
commit_import_in-IsImported_example =
    commit_import_in-IsImported image_codecs demo_import fresh imported import_runs

abbrev found : Image
found = record {
  names = text "ubuntu:24.04" ∷ [];
  registry_reference = [];
  manifest_digest = digest;
  platform = demo_import.manifest.platform;
  layers = layer ∷ [];
  boot = demo_import.boot;
  size = pos 4096;
  created_at = 7;
}

abbrev twelve : Text
twelve = text "0102030405060708"

found_by_prefix : resolve_image image_codecs imported twelve ≡ ok found
unfolding resolve_image find_digest find_prefix trim_algorithm matching load_image sort_texts
    insert_text sort_positions insert_position layers_from stored_commit get collection scan
    scan_entries sort_entries insert_entry text_compare lookup layer_key eight_digits zeros decimal
    decimal_onto digest_string hex_encode hex_digit hex_value hex_decode parse_digest
    has_digest_shape is_lower_text encode_layer encode_boot_files encode_image decode_layer
    decode_boot_files check_whiteouts validate_commit is_complete validate_layers validate_files
    validate_whiteouts is_zero_digest all_of any_of is_valid_platform text_eq is_boot_name base_name
    without_slashes has_slash after_slash has_suffix has_prefix select_boot overlay_all overlay
    add_files hide_named drop_named keep_if last_boot
found_by_prefix = refl

resolve_image-IsMeant_example :
    IsMeant image_codecs imported twelve (digest_string digest)
    × IsStored image_codecs imported (digest_string digest) found
resolve_image-IsMeant_example =
    resolve_image-IsMeant image_codecs imported twelve found found_by_prefix

removal_runs :
    remove_in image_codecs
      (some (image_usage sandbox_codecs snapshot_codecs))
      twelve
      digest
      imported
    ≡ ok (removal, fresh)
unfolding remove_in remove_names takes_name remaining drop_image drop_layers layer_referenced
    image_usage in_use in_use_data delete without resolve_image find_digest find_prefix
    trim_algorithm matching load_image sort_texts insert_text sort_positions insert_position
    layers_from stored_commit get collection scan scan_entries sort_entries insert_entry insert
    text_compare lookup layer_key eight_digits zeros decimal decimal_onto digest_string hex_encode
    hex_digit hex_value hex_decode parse_digest has_digest_shape is_lower_text encode_layer
    encode_boot_files encode_image decode_layer decode_boot_files check_whiteouts validate_commit
    is_complete validate_layers validate_files validate_whiteouts is_zero_digest all_of any_of
    is_valid_platform text_eq is_boot_name base_name without_slashes has_slash after_slash
    has_suffix has_prefix select_boot overlay_all overlay add_files hide_named drop_named keep_if
    last_boot
removal_runs = refl

remove_in-IsFree_example : All (λ d. ¬ (IsReferenced image_codecs fresh d)) (digest ∷ [])
remove_in-IsFree_example =
    remove_in-IsFree image_codecs (some (image_usage sandbox_codecs snapshot_codecs)) twelve digest
      imported removal fresh removal_runs

nothing_yet : get fresh images (digest_string digest) ≡ ok none
unfolding get collection lookup text_eq
nothing_yet = refl

remove_in-unused_example : ¬ (IsRetained sandbox_codecs snapshot_codecs fresh digest)
remove_in-unused_example =
    remove_in-unused sandbox_codecs snapshot_codecs image_codecs twelve digest imported removal
      fresh removal_runs nothing_yet

found_by_alias : resolve_image image_codecs imported (text "ubuntu:24.04") ≡ ok found
unfolding resolve_image find_digest find_prefix trim_algorithm matching load_image sort_texts
    insert_text sort_positions insert_position layers_from stored_commit get collection scan
    scan_entries sort_entries insert_entry text_compare lookup layer_key eight_digits zeros decimal
    decimal_onto digest_string hex_encode hex_digit hex_value hex_decode parse_digest
    has_digest_shape is_lower_text encode_layer encode_boot_files encode_image decode_layer
    decode_boot_files check_whiteouts validate_commit is_complete validate_layers validate_files
    validate_whiteouts is_zero_digest all_of any_of is_valid_platform text_eq is_boot_name base_name
    without_slashes has_slash after_slash has_suffix has_prefix select_boot overlay_all overlay
    add_files hide_named drop_named keep_if last_boot
found_by_alias = refl

demo_digests : AreDigests demo_import
demo_digests = record {
  manifest = demo_digest;
  kernel = demo_digest;
  initrd = demo_digest;
  layers = ((demo_digest, demo_digest, (demo_digest, (demo_digest, tt))), tt);
}

commit_import_in-IsSame_example : IsSame demo_import found
commit_import_in-IsSame_example =
    commit_import_in-IsSame image_codecs demo_import fresh imported found accepted demo_digests
      nothing_yet import_runs found_by_alias
