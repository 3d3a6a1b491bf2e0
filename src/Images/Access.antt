-- ===== src/Images/Access.antt =====
-- The reads of internal/images/catalog/store.go: resolveRecord, loadImage, layerReferenced, and the
-- operations that only read.
use kuma_box.Prelude.{
  ℕ, suc, Bool, false, not, ◌&&◌, ◌||◌, Option, none, some, List, [], ◌∷◌, map, if◌then◌else◌,
  length, drop, ltb, Text, text, text_eq, text_compare, is_empty, has_prefix, pos, lt_int, eq_int,
  amount,
}
use kuma_box.Errdefs.{
  Failure, Result, ok, err, failure, not_found, invalid, invalid_argument, missing, ◌>>=◌, ◌>>◌,
  refuse_if, or_else, in_context,
}
use kuma_box.Types.Ids.{Digest, digest_string, parse_digest}
use kuma_box.Metadata.{Transaction, Store, Weather, get, scan, view}
use kuma_box.Metadata.Scans.{collecting, asking}
use kuma_box.Images.{Image, Layer, ImportCommit}
use kuma_box.Images.Validate.{validate_commit}
use kuma_box.Images.Records.{
  ImageRecord, ImageName, LayerRecord, ImageCodecs, corrupt_image, layer_key, decode_layer,
}
use Prim.Native.Nat.{Ordering}

abbrev pub images : Text
images = text "images"

abbrev pub image_names : Text
image_names = text "image_names"

abbrev pub image_layers : Text
image_layers = text "image_layers"

abbrev pub or_corrupt {ℓ} : {A : Type ℓ} → Option A → Result A
or_corrupt none = err corrupt_image
or_corrupt (some a) = ok a

-- slices.Sort on strings.
unfoldable pub insert_text : Text → List Text → List Text
insert_text s [] = s ∷ []
insert_text s (x ∷ xs) = elim (text_compare s x) [
  | Ordering.gt ↦ x ∷ insert_text s xs
  | _ ↦ s ∷ x ∷ xs
]

unfoldable pub sort_texts : List Text → List Text
unfolding insert_text
sort_texts [] = []
sort_texts (s ∷ ss) = insert_text s (sort_texts ss)

-- slices.SortFunc by position. The positions of one image are distinct, since its keys are.
unfoldable pub insert_position : LayerRecord → List LayerRecord → List LayerRecord
insert_position r [] = r ∷ []
insert_position r (x ∷ xs) =
    let rest = insert_position r xs in if lt_int x.position r.position then x ∷ rest else r ∷ x ∷ xs

unfoldable pub sort_positions : List LayerRecord → List LayerRecord
unfolding insert_position
sort_positions [] = []
sort_positions (r ∷ rs) = insert_position r (sort_positions rs)

-- The loop that decodes the layers in order.
unfoldable pub layers_from : ℕ → List LayerRecord → Result (List Layer)
layers_from i [] = ok []
layers_from i (r ∷ rs) = do
  refuse_if (not (eq_int r.position (pos i))) corrupt_image
  l ← decode_layer r
  rest ← layers_from (suc i) rs
  ok (l ∷ rest)

-- The import that a stored image is checked as.
unfoldable pub stored_commit : Image → ImportCommit
stored_commit image = record {
  name = text "stored";
  registry_reference = [];
  manifest = record {
    digest = image.manifest_digest;
    platform = image.platform;
    boot_profile = image.boot.profile;
    layers = map (λ l. record { digest = l.source_digest; size = pos 0 }) image.layers;
  };
  layers = image.layers;
  boot = image.boot;
  size = image.size;
  created = image.created_at;
}

-- The image that the parts read from the store make.
abbrev pub image_of : ImageRecord → Digest → Digest → Digest → List Text → List Layer → Image
image_of r manifest kernel initrd names layers = record {
  names = sort_texts names;
  registry_reference = r.registry_reference;
  manifest_digest = manifest;
  platform = record { os = r.os; architecture = r.architecture };
  layers = layers;
  boot = record {
    profile = r.boot_profile;
    kernel_file = r.kernel_file;
    initrd_file = r.initrd_file;
    kernel_layer = kernel;
    initrd_layer = initrd;
  };
  size = r.size;
  created_at = r.created_at;
}

module _ {Raw : Type 0} (c : ImageCodecs Raw) where
  abbrev pub decode_name : Raw → Result ImageName
  decode_name raw = or_corrupt (c.name_json.unmarshal raw)

  abbrev pub decode_image : Raw → Result ImageRecord
  decode_image raw = or_corrupt (c.image_json.unmarshal raw)

  abbrev pub decode_record : Raw → Result LayerRecord
  decode_record raw = or_corrupt (c.layer_json.unmarshal raw)

  -- The names bound to a digest.
  abbrev pub bound_name : Text → Text → Raw → Result (Option Text)
  bound_name digest name raw = do
    n ← decode_name raw
    ok (if text_eq n.manifest_digest digest then some name else none)

  -- The layer records of a manifest, each under its own key.
  abbrev pub occurring : Text → Digest → Text → Raw → Result (Option LayerRecord)
  occurring id manifest key raw = do
    r ← decode_record raw
    if text_eq r.manifest_digest id
        then (do
          refuse_if
              (lt_int r.position (pos 0)
                || not (text_eq key (layer_key manifest (amount r.position))))
              corrupt_image
          ok (some r))
        else ok none

  abbrev pub stored_image : Transaction Raw → Text → Result ImageRecord
  stored_image t id = do
    found ← get t images id
    elim found [ none ↦ err corrupt_image | some raw ↦ decode_image raw ]

  -- loadImage.
  unfoldable pub load_image : Transaction Raw → Text → Result Image
  unfolding sort_texts sort_positions layers_from stored_commit
  load_image t id = do
    r ← stored_image t id
    manifest ← or_else corrupt_image (parse_digest r.manifest_digest)
    kernel ← or_else corrupt_image (parse_digest r.kernel_layer)
    initrd ← or_else corrupt_image (parse_digest r.initrd_layer)
    names ← scan t image_names (collecting (bound_name id)) []
    records ← scan t image_layers (collecting (occurring id manifest)) []
    layers ← layers_from 0 (sort_positions records)
    refuse_if (not (text_eq (digest_string manifest) id)) corrupt_image
    let image = image_of r manifest kernel initrd names layers
    or_else corrupt_image (validate_commit (stored_commit image))
    ok image

-- strings.TrimPrefix of "sha256:".
unfoldable pub trim_algorithm : Text → Text
trim_algorithm s = if has_prefix s (text "sha256:") then drop 7 s else s

abbrev pub unknown_image : Failure
unknown_image = failure not_found missing

-- The callback that looks for the one key with a digest prefix.
unfoldable pub matching {ℓ} : {Raw : Type ℓ} → Text → Text → Raw → Text → Result Text
unfolding trim_algorithm
matching prefix id raw found =
    if has_prefix (trim_algorithm id) prefix
    then (do
      refuse_if (not (is_empty found) && not (text_eq found id)) (failure invalid invalid_argument)
      ok id)
    else ok found

module _ {Raw : Type 0} (c : ImageCodecs Raw) where
  -- The key that a digest prefix of at least 12 bytes stands for.
  unfoldable pub find_prefix : Transaction Raw → Text → Result Text
  unfolding matching
  find_prefix t reference = do
    refuse_if (ltb (length (trim_algorithm reference)) 12) unknown_image
    scan t images (matching (trim_algorithm reference)) []

  unfoldable pub find_digest : Transaction Raw → Text → Result Text
  unfolding find_prefix
  find_digest t reference = do
    found ← get t image_names reference
    elim found [
      | none ↦ find_prefix t reference
      | some raw ↦ (do n ← decode_name c raw; ok n.manifest_digest)
    ]

  -- resolveRecord.
  unfoldable pub resolve_image : Transaction Raw → Text → Result Image
  unfolding find_digest load_image
  resolve_image t reference = do
    id ← find_digest t reference
    refuse_if (is_empty id) unknown_image
    load_image c t id

  -- Resolve.
  unfoldable pub resolve_view : Weather → Store Raw → Text → Result Image
  resolve_view w store reference = in_context false (view w (λ t. resolve_image t reference) store)

  -- layerReferenced.
  unfoldable pub layer_referenced : Transaction Raw → Digest → Result Bool
  layer_referenced t digest =
      scan t image_layers
        (asking (decode_record c) (λ r. text_eq r.source_digest (digest_string digest))) false
