-- ===== src/Examples/Layers.antt =====
-- FindLayers at a concrete store.
use kuma_box.Prelude.{
  ◌≡◌, refl, true, some, [], ◌∷◌, pos, lookup, insert, text_eq, text_compare, any_of, all_of,
  has_prefix,
}
use kuma_box.Errdefs.{ok}
use kuma_box.Types.Text.{decimal, decimal_onto}
use kuma_box.Types.Ids.{
  digest_string, hex_encode, hex_digit, hex_value, hex_decode, parse_digest, has_digest_shape,
  is_lower_text, is_zero_digest,
}
use kuma_box.Metadata.{get, collection, scan, scan_entries, sort_entries, insert_entry}
use kuma_box.Images.Selection.{
  has_suffix, without_slashes, has_slash, after_slash, base_name, is_boot_name,
}
use kuma_box.Images.Records.{
  zeros, eight_digits, layer_key, encode_boot_files, encode_layer, decode_boot_files,
  check_whiteouts, decode_layer,
}
use kuma_box.Images.Access.{image_layers}
use kuma_box.Images.Listing.{take_layer, find_layers_in}
use kuma_box.Images.Listing.Found.{find_layers_in-lookup}
use kuma_box.Examples.{digest}
use kuma_box.Examples.Images.{from_layer, image_codecs, imported, layer}

all_found : find_layers_in image_codecs (digest ∷ []) imported ≡ ok ((digest.value, layer) ∷ [])
unfolding find_layers_in take_layer scan scan_entries sort_entries insert_entry collection lookup
    insert text_eq text_compare any_of all_of has_prefix decimal decimal_onto digest_string
    hex_encode hex_digit hex_value hex_decode parse_digest has_digest_shape is_lower_text
    is_zero_digest has_suffix without_slashes has_slash after_slash base_name is_boot_name zeros
    eight_digits layer_key encode_boot_files encode_layer decode_boot_files check_whiteouts
    decode_layer
all_found = refl

layer_stored :
    get imported image_layers (layer_key digest 0)
    ≡ ok (some (from_layer (encode_layer digest (pos 0) layer)))
unfolding get collection lookup text_eq layer_key eight_digits zeros decimal decimal_onto
    digest_string hex_encode hex_digit
layer_stored = refl

layer_decodes : decode_layer (encode_layer digest (pos 0) layer) ≡ ok layer
unfolding decode_layer encode_layer decode_boot_files encode_boot_files check_whiteouts parse_digest
    has_digest_shape is_lower_text has_prefix digest_string hex_encode hex_digit hex_value
    hex_decode is_zero_digest all_of any_of is_boot_name base_name without_slashes has_slash
    after_slash has_suffix text_eq
layer_decodes = refl

layer_wanted : any_of (λ d. text_eq digest.value d.value) (digest ∷ []) ≡ true
unfolding any_of text_eq
layer_wanted = refl

find_layers_in-lookup_example : lookup digest.value ((digest.value, layer) ∷ []) ≡ some layer
find_layers_in-lookup_example =
    find_layers_in-lookup image_codecs (digest ∷ []) imported (layer_key digest 0)
      (from_layer (encode_layer digest (pos 0) layer)) (encode_layer digest (pos 0) layer) layer
      ((digest.value, layer) ∷ []) all_found layer_stored refl layer_decodes layer_wanted
