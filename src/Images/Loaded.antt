-- ===== src/Images/Loaded.antt =====
-- What is known of an image that the catalog hands out.
use kuma_box.Prelude.{
  List, not, ◌≡◌, sym, ap, ◌∙◌, inl, inr, some, [], arith, subst, Text, text_eq, text_eq_iff,
  Option-cases,
}
use kuma_box.Errdefs.{>>=-eq-ok, or_else-eq-ok, refuse_if, ok, ◌>>◌, or_else}
use kuma_box.Types.Ids.{Digest, digest_string, parse_digest}
use kuma_box.Metadata.{Transaction, get, scan}
use kuma_box.Metadata.Scans.{collecting}
use kuma_box.Images.{Image, Layer}
use kuma_box.Images.Records.{LayerRecord, ImageCodecs, ImageRecord, corrupt_image}
use kuma_box.Images.Validate.{validate_commit}
use kuma_box.Images.Validate.Sound.{IsConsistent, validate_commit-IsConsistent}
use kuma_box.Images.Access.{
  images, image_names, image_layers, stored_image, load_image, stored_commit, bound_name, occurring,
  image_of, layers_from, sort_positions,
}

module _ {Raw : Type 0} (c : ImageCodecs Raw) where
  -- The image stands under its own digest, and its facts agree.
  pub record IsStored (t : Transaction Raw) (id : Text) (image : Image) : Type 0 where
    pub raw : Raw
    pub stored : get t images id ≡ ok (some raw)
    pub own : digest_string image.manifest_digest ≡ id
    pub facts : IsConsistent (stored_commit image)

  checked :
      (image out : Image)
      → (do or_else corrupt_image (validate_commit (stored_commit image)); ok image) ≡ ok out
      → (image ≡ out) × IsConsistent (stored_commit out)
  checked image out h =
      let (u, e, done) =
        >>=-eq-ok (or_else corrupt_image (validate_commit (stored_commit image))) h in
      let one : image ≡ out = ground (arith, done) in
      (
        one,
        subst (λ q. IsConsistent (stored_commit q)) one
            (validate_commit-IsConsistent (stored_commit image)
              (or_else-eq-ok corrupt_image (validate_commit (stored_commit image)) e)),
      )

  stored_image-get :
      (t : Transaction Raw) (id : Text) (r : ImageRecord)
      → stored_image c t id ≡ ok r
      → (raw : Raw) × (get t images id ≡ ok (some raw))
  stored_image-get t id r h =
      let (found, e, rest) = >>=-eq-ok (get t images id) h in
      elim (Option-cases found) [
        | inl g ↦ absurd (ground (arith, rest, g))
        | inr (raw, g) ↦ (raw, e ∙ ap ok g)
      ]

  -- What loading reads on the way.
  pub record IsRead (t : Transaction Raw) (id : Text) (image : Image) : Type 0 where
    pub row : ImageRecord
    pub manifest : Digest
    pub kernel : Digest
    pub initrd : Digest
    pub names : List Text
    pub records : List LayerRecord
    pub layers : List Layer
    pub found : stored_image c t id ≡ ok row
    pub manifest_of : parse_digest row.manifest_digest ≡ ok manifest
    pub kernel_of : parse_digest row.kernel_layer ≡ ok kernel
    pub initrd_of : parse_digest row.initrd_layer ≡ ok initrd
    pub scanned : scan t image_layers (collecting (occurring c id manifest)) [] ≡ ok records
    pub in_order : layers_from 0 (sort_positions records) ≡ ok layers
    pub own : digest_string manifest ≡ id
    pub same : image_of row manifest kernel initrd names layers ≡ image
    pub facts : IsConsistent (stored_commit image)

  pub load_image-IsRead :
      (t : Transaction Raw) (id : Text) (image : Image)
      → load_image c t id ≡ ok image
      → IsRead t id image
  unfolding load_image
  load_image-IsRead t id image h =
      let (r, e, h1) = >>=-eq-ok (stored_image c t id) h in
      let (manifest, k, h2) =
        >>=-eq-ok (or_else corrupt_image (parse_digest r.manifest_digest)) h1 in
      let (kernel, l, h3) = >>=-eq-ok (or_else corrupt_image (parse_digest r.kernel_layer)) h2 in
      let (initrd, m, h4) = >>=-eq-ok (or_else corrupt_image (parse_digest r.initrd_layer)) h3 in
      let (names, n, h5) = >>=-eq-ok (scan t image_names (collecting (bound_name c id)) []) h4 in
      let (records, o, h6) =
        >>=-eq-ok (scan t image_layers (collecting (occurring c id manifest)) []) h5 in
      let (layers, p, h7) = >>=-eq-ok (layers_from 0 (sort_positions records)) h6 in
      let (u, own, h8) =
        >>=-eq-ok (refuse_if (not (text_eq (digest_string manifest) id)) corrupt_image) h7 in
      let (same, facts) = checked (image_of r manifest kernel initrd names layers) image h8 in
      record {
        row = r;
        manifest = manifest;
        kernel = kernel;
        initrd = initrd;
        names = names;
        records = records;
        layers = layers;
        found = e;
        manifest_of = or_else-eq-ok corrupt_image (parse_digest r.manifest_digest) k;
        kernel_of = or_else-eq-ok corrupt_image (parse_digest r.kernel_layer) l;
        initrd_of = or_else-eq-ok corrupt_image (parse_digest r.initrd_layer) m;
        scanned = o;
        in_order = p;
        own = (text_eq_iff (digest_string manifest) id).0 (ground (arith, own));
        same = same;
        facts = facts;
      }

  pub load_image-IsStored :
      (t : Transaction Raw) (id : Text) (image : Image)
      → load_image c t id ≡ ok image
      → IsStored t id image
  load_image-IsStored t id image h =
      let r = load_image-IsRead t id image h in
      let (raw, stored) = stored_image-get t id r.row r.found in
      record {
        raw = raw;
        stored = stored;
        own = ap (λ (i : Image). digest_string i.manifest_digest) (sym r.same) ∙ r.own;
        facts = r.facts;
      }
