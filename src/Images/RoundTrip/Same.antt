-- ===== src/Images/RoundTrip/Same.antt =====
-- An import of a new image and what its alias resolves to afterwards.
use kuma_box.Prelude.{
  ℕ, ◌≡◌, refl, sym, ap, ◌∙◌, false, none, some, List, [], All, Has, arith, Text, text_eq,
  text_eq_refl, is_empty, pos, lt_int, subst,
}
use kuma_box.Errdefs.{ok, >>=-eq-ok, refuse_if}
use kuma_box.Types.Ids.{Digest, IsDigest, digest_string, parse_digest}
use kuma_box.Types.Ids.RoundTrip.{parse_digest-digest_string}
use kuma_box.Metadata.{Transaction, get, scan}
use kuma_box.Metadata.Scans.{collecting, scan-Has}
use kuma_box.Images.{Image, Layer, ImportCommit}
use kuma_box.Images.Validate.{validate_commit}
use kuma_box.Images.Validate.Sound.{layers_size, validate_commit-IsConsistent}
use kuma_box.Images.Records.{ImageCodecs, LayerRecord, layer_key, encode_layer, encode_image}
use kuma_box.Images.Access.{
  images, image_names, image_layers, decode_record, decode_name, stored_image, occurring,
  stored_commit, sort_positions, load_image, find_digest, resolve_image, unknown_image,
}
use kuma_box.Images.Operations.{put_json, check_alias, put_layers, commit_new, commit_import_in}
use kuma_box.Images.Loaded.{IsRead, load_image-IsRead}
use kuma_box.Images.Writes.{differ, put_json-IsWritten, put_layers-get}
use kuma_box.Images.Imported.{commit_import_in-IsImported}
use kuma_box.Images.RoundTrip.{HasDigests}
use kuma_box.Images.RoundTrip.Written.{AllFrom, map-AllFrom, IsAt, put_layers-IsAt}
use kuma_box.Images.RoundTrip.Read.{Has-sort_positions, layers_from-same}

-- Go's digests have 32 bytes.
pub record AreDigests (i : ImportCommit) : Type 0 where
  pub manifest : IsDigest i.manifest.digest
  pub kernel : IsDigest i.boot.kernel_layer
  pub initrd : IsDigest i.boot.initrd_layer
  pub layers : All HasDigests i.layers

-- The image has the facts of the import.
pub record IsSame (i : ImportCommit) (image : Image) : Type 0 where
  pub digest : image.manifest_digest ≡ i.manifest.digest
  pub reference : image.registry_reference ≡ i.registry_reference
  pub platform : image.platform ≡ i.manifest.platform
  pub layers : image.layers ≡ i.layers
  pub boot : image.boot ≡ i.boot
  pub size : image.size ≡ i.size
  pub created : image.created_at ≡ i.created

names_and_layers : text_eq image_names image_layers ≡ false
unfolding text_eq
names_and_layers = refl

module _ {Raw : Type 0} (c : ImageCodecs Raw) (i : ImportCommit) where
  abbrev key : Text
  key = digest_string i.manifest.digest

  -- The record and the layers of a new image.
  record IsWhole (t : Transaction Raw) : Type 0 where
    facts : stored_image c t key ≡ ok (encode_image i)
    layers : AllFrom (IsAt c t i.manifest.digest) 0 i.layers

  commit_new-IsWhole : (t t' : Transaction Raw) → commit_new c i t ≡ ok t' → IsWhole t'
  unfolding commit_new
  commit_new-IsWhole t t' h =
      let (one, e, h1) = >>=-eq-ok (put_json c.image_json t images key (encode_image i)) h in
      let (two, k, bound) = >>=-eq-ok (put_layers c i.manifest.digest 0 i.layers one) h1 in
      let w = put_json-IsWritten c.image_json t images key (encode_image i) one e in
      let b =
        put_json-IsWritten c.name_json two image_names i.name (record { manifest_digest = key }) t'
          bound in
      let stored : get t' images key ≡ ok (some w.raw) =
        rw (b.gets images key, differ.1)
          (put_layers-get c i.manifest.digest 0 i.layers one two images key differ.2 k
            ∙ rw (w.gets images key, text_eq_refl images, text_eq_refl key) refl) in
      record {
        facts = rw (stored, w.reads) refl;
        layers =
            map-AllFrom 0 i.layers
              (λ j l le (raw, there, read). (
                raw,
                rw (b.gets image_layers (layer_key i.manifest.digest j), names_and_layers) there,
                read,
              ))
              (put_layers-IsAt c i.manifest.digest 0 i.layers one two k);
      }

  occurs :
      (j : ℕ) (l : Layer) (raw : Raw)
      → decode_record c raw ≡ ok (encode_layer i.manifest.digest (pos j) l)
      → occurring c key i.manifest.digest (layer_key i.manifest.digest j) raw
        ≡ ok (some (encode_layer i.manifest.digest (pos j) l))
  unfolding encode_layer
  occurs j l raw read =
      let zero_left : lt_int (pos j) (pos 0) ≡ false = ground arith in
      simp (read, text_eq_refl key, text_eq_refl (layer_key i.manifest.digest j), zero_left)

  -- A layer that is there is found by the scan.
  IsAt-Has :
      (t : Transaction Raw) (rs : List LayerRecord) (j : ℕ) (l : Layer)
      → scan t image_layers (collecting (occurring c key i.manifest.digest)) [] ≡ ok rs
      → IsAt c t i.manifest.digest j l
      → Has (encode_layer i.manifest.digest (pos j) l) rs
  IsAt-Has t rs j l h (raw, there, read) =
      scan-Has (occurring c key i.manifest.digest) t image_layers (layer_key i.manifest.digest j)
        raw (encode_layer i.manifest.digest (pos j) l) rs there (occurs j l raw read) h

  reads :
      (d : Digest) (s : Text) (out : Digest)
      → IsDigest d
      → s ≡ digest_string d
      → parse_digest s ≡ ok out
      → out ≡ d
  reads d s out v same h =
      let both : ok out ≡ ok d = sym h ∙ ap parse_digest same ∙ parse_digest-digest_string d v in
      ground (arith, both)

  IsWhole-IsSame :
      (t : Transaction Raw) (image : Image)
      → validate_commit i ≡ ok tt
      → AreDigests i
      → IsWhole t
      → IsRead c t key image
      → IsSame i image
  unfolding encode_image stored_commit
  IsWhole-IsSame t image valid digests whole r =
      let rows : ok r.row ≡ ok (encode_image i) = sym r.found ∙ whole.facts in
      let row : r.row ≡ encode_image i = ground (arith, rows) in
      let manifest =
        reads i.manifest.digest r.row.manifest_digest r.manifest digests.manifest
          (ap (λ q. q.manifest_digest) row) r.manifest_of in
      let kernel =
        reads i.boot.kernel_layer r.row.kernel_layer r.kernel digests.kernel
          (ap (λ q. q.kernel_layer) row) r.kernel_of in
      let initrd =
        reads i.boot.initrd_layer r.row.initrd_layer r.initrd digests.initrd
          (ap (λ q. q.initrd_layer) row) r.initrd_of in
      let scanned =
        subst (λ q. scan t image_layers (collecting (occurring c key q)) [] ≡ ok r.records) manifest
          r.scanned in
      let size : image.size ≡ i.size = ap (λ q. q.size) (sym r.same) ∙ ap (λ q. q.size) row in
      let whole_size : pos (layers_size image.layers) ≡ pos (layers_size i.layers) =
        sym r.facts.total ∙ size ∙ (validate_commit-IsConsistent i valid).total in
      let stored : image.layers ≡ r.layers = ap (λ q. q.layers) (sym r.same) in
      let sizes : layers_size r.layers ≡ layers_size i.layers =
        ap layers_size (sym stored) ∙ ground (arith, whole_size) in
      let layers =
        layers_from-same i.manifest.digest (sort_positions r.records) r.layers i.layers r.in_order
          digests.layers
          (map-AllFrom 0 i.layers
            (λ j l le there.
              Has-sort_positions _ r.records (IsAt-Has t r.records j l scanned there))
            whole.layers)
          sizes in
      record {
        digest = ap (λ q. q.manifest_digest) (sym r.same) ∙ manifest;
        reference =
            ap (λ q. q.registry_reference) (sym r.same) ∙ ap (λ q. q.registry_reference) row;
        platform =
            ap (λ q. q.platform) (sym r.same)
            ∙ (λ k. record { os = (row k).os; architecture = (row k).architecture });
        layers = stored ∙ layers;
        boot = ap (λ q. q.boot) (sym r.same) ∙ (λ k. record {
          profile = (row k).boot_profile;
          kernel_file = (row k).kernel_file;
          initrd_file = (row k).initrd_file;
          kernel_layer = kernel k;
          initrd_layer = initrd k;
        });
        size = size;
        created = ap (λ q. q.created_at) (sym r.same) ∙ ap (λ q. q.created_at) row;
      }

  resolve_image-IsRead :
      (t : Transaction Raw) (name : Raw) (image : Image)
      → get t image_names i.name ≡ ok (some name)
      → decode_name c name ≡ ok (record { manifest_digest = key })
      → resolve_image c t i.name ≡ ok image
      → IsRead c t key image
  unfolding resolve_image find_digest
  resolve_image-IsRead t name image bound read h =
      let (id, e, h1) = >>=-eq-ok (find_digest c t i.name) h in
      let (u, k, loaded) = >>=-eq-ok (refuse_if (is_empty id) unknown_image) h1 in
      let same : ok key ≡ ok id = rw (bound, read) at e in
      let one : key ≡ id = ground (arith, same) in
      load_image-IsRead c t key image (ap (load_image c t) one ∙ loaded)

  -- After the transaction of a valid import, with 32-byte digests, of an image that was not
  -- stored, when the alias resolves, it resolves to the digest, the platform, the layers in their
  -- order, the boot files, the size, the pull source and the creation time that were imported,
  -- whatever else the store holds.
  pub commit_import_in-IsSame :
      (t t' : Transaction Raw) (image : Image)
      → validate_commit i ≡ ok tt
      → AreDigests i
      → get t images (digest_string i.manifest.digest) ≡ ok none
      → commit_import_in c i t ≡ ok (tt, t')
      → resolve_image c t' i.name ≡ ok image
      → IsSame i image
  unfolding commit_import_in
  commit_import_in-IsSame t t' image valid digests new h resolved =
      let (u, e, h1) = >>=-eq-ok (check_alias c i t) h in
      let (last, k, h2) = >>=-eq-ok (commit_new c i t) (rw new at h1) in
      let ends : last ≡ t' = ground (arith, h2) in
      let done = commit_import_in-IsImported c i t t' h in
      let bound : get t' image_names i.name ≡ ok (some done.alias) =
        rw (done.names i.name, text_eq_refl i.name) refl in
      IsWhole-IsSame t' image valid digests (commit_new-IsWhole t t' (k ∙ ap (λ q. ok q) ends))
        (resolve_image-IsRead t' done.alias image bound done.leads resolved)
