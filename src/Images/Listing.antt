-- ===== src/Images/Listing.antt =====
-- List and FindLayers of internal/images/catalog/store.go.
pub mod Found
use kuma_box.Prelude.{
  Bool, true, false, Option, none, some, List, [], ◌∷◌, if◌then◌else◌, any_of, text_compare, Dict,
  lookup, insert,
}
use kuma_box.Errdefs.{Result, ok, err, ◌>>=◌, ◌>>◌, in_context}
use kuma_box.Types.Ids.{Digest, digest_string, digest_eq}
use kuma_box.Metadata.{Transaction, Store, Weather, scan, view}
use kuma_box.Metadata.Scans.{collecting}
use kuma_box.Images.{Image, Layer, layer_eq}
use kuma_box.Images.Records.{ImageCodecs, corrupt_image, decode_layer}
use kuma_box.Images.Access.{images, image_layers, decode_record, load_image}
use Prim.Native.Nat.{Ordering}

-- slices.SortFunc by full digest.
unfoldable pub insert_image : Image → List Image → List Image
insert_image s [] = s ∷ []
insert_image s (x ∷ xs) =
    elim (text_compare (digest_string s.manifest_digest) (digest_string x.manifest_digest)) [
      | Ordering.gt ↦ x ∷ insert_image s xs
      | _ ↦ s ∷ x ∷ xs
    ]

unfoldable pub sort_images : List Image → List Image
unfolding insert_image
sort_images [] = []
sort_images (s ∷ ss) = insert_image s (sort_images ss)

-- The bytes of a digest are the key of FindLayers's map.
unfoldable pub take_layer : List Digest → Layer → Dict Layer → Result (Dict Layer)
take_layer wanted l found =
    if any_of (digest_eq l.source_digest) wanted
    then elim (lookup l.source_digest.value found) [
      | none ↦ ok (insert l.source_digest.value l found)
      | some previous ↦
          if layer_eq previous l
          then ok (insert l.source_digest.value l found)
          else err corrupt_image
    ]
    else ok found

module _ {Raw : Type 0} (c : ImageCodecs Raw) where
  -- List.
  unfoldable pub list_images_in : Transaction Raw → Result (List Image)
  unfolding sort_images
  list_images_in t = do
    found ← scan t images (collecting (λ id raw. do image ← load_image c t id; ok (some image))) []
    ok (sort_images found)

  unfoldable pub list_images : Weather → Store Raw → Result (List Image)
  unfolding list_images_in
  list_images w store = in_context false (view w list_images_in store)

  -- FindLayers.
  unfoldable pub find_layers_in : List Digest → Transaction Raw → Result (Dict Layer)
  unfolding take_layer
  find_layers_in wanted t =
      scan t image_layers
        (λ key raw found. do r ← decode_record c raw; l ← decode_layer r; take_layer wanted l found)
        []

  unfoldable pub find_layers : Weather → Store Raw → List Digest → Result (Dict Layer)
  unfolding find_layers_in
  find_layers w store wanted = view w (find_layers_in wanted) store
