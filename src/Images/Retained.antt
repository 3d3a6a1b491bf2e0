-- ===== src/Images/Retained.antt =====
-- internal/core/images.go: the usage check that connects the three catalogs, and what it protects.
use kuma_box.Prelude.{
  ◌≡◌, ◌⊎◌, refl, sym, ap, ◌∙◌, inl, inr, Bool, true, false, none, some, List, [], ◌∷◌, arith,
  if◌then◌else◌, ◌==◌, Text, text_eq, text_eq_iff, Bool-cases,
}
use kuma_box.Errdefs.{>>=-eq-ok, refuse_if-eq-ok, Result, ok, ◌>>=◌, failure, conflict, referenced}
use kuma_box.Types.Ids.{Digest, digest_string, digest_eq}
use kuma_box.Types.Sandbox.{Sandbox}
use kuma_box.Metadata.{Transaction, get, delete}
use kuma_box.Metadata.Laws.{get-delete}
use kuma_box.Metadata.Scans.{scan-asking}
use kuma_box.Sandboxes.Records.{Codecs}
use kuma_box.Sandboxes.Decode.{decode}
use kuma_box.Sandboxes.Access.{sandboxes, load, in_use}
use kuma_box.Sandboxes.Usage.{load-read}
use kuma_box.Snapshots.Records.{SnapshotCodecs, SnapshotData}
use kuma_box.Snapshots.Operations.{snapshots, decode_data, load_data}
use kuma_box.Snapshots.Listing.{in_use_data, load_data-read}
use kuma_box.Images.{Image, Removal}
use kuma_box.Images.Records.{ImageCodecs}
use kuma_box.Images.Access.{images, image_names}
use kuma_box.Images.Operations.{check_usage, takes_name, remove_names, remove_in, drop_image}
use kuma_box.Images.Release.{
  remove_in-IsRemoval, drop_layers-get, get_later, image_collections_differ,
}
use kuma_box.Images.Validate.Sound.{digest_eq_sound}
use kuma_box.Images.Named.{resolve_image-IsMeant}

module _ {Raw : Type 0} (sc : Codecs Raw) (nc : SnapshotCodecs Raw) where
  -- imageUsage.InUse.
  unfoldable pub image_usage : Transaction Raw → Digest → Result Bool
  unfolding in_use in_use_data
  image_usage t digest = do
    used ← in_use sc t digest
    if used then ok true else in_use_data nc t digest

  -- A sandbox that loads runs on the image, or a snapshot that loads, pending and deleting ones
  -- included, pins it.
  abbrev pub IsRetained : Transaction Raw → Digest → Type 0
  IsRetained t digest =
      ((id : Text) × (r : Sandbox) × (load sc t id ≡ ok r) × (r.image_digest ≡ digest))
      ⊎ ((id : Text) × (d : SnapshotData) × (load_data nc t id ≡ ok d)
          × (d.image_digest ≡ digest_string digest))

  -- Both checks said no.
  image_usage-no :
      (t : Transaction Raw) (digest : Digest)
      → image_usage t digest ≡ ok false
      → (in_use sc t digest ≡ ok false) × (in_use_data nc t digest ≡ ok false)
  unfolding image_usage
  image_usage-no t digest h =
      let (used, e, rest) = >>=-eq-ok (in_use sc t digest) h in
      elim (Bool-cases used) [
        | inl yes_used ↦ absurd (ground (arith, rest, yes_used))
        | inr unused ↦ (e ∙ ap ok unused, rw unused at rest)
      ]

  -- Where the checks said no, no state with fewer records retains the image.
  image_usage-fewer :
      (t t' : Transaction Raw) (digest : Digest)
      → image_usage t digest ≡ ok false
      → ((d key : Text) (raw : Raw) → get t' d key ≡ ok (some raw) → get t d key ≡ ok (some raw))
      → ¬ (IsRetained t' digest)
  unfolding in_use in_use_data
  image_usage-fewer t t' digest h fewer (inl (id, r, loaded, same)) =
      let (raw, stored, read) = load-read sc t' id r loaded in
      let passes : digest_eq r.image_digest digest ≡ true =
        (text_eq_iff r.image_digest.value digest.value).1 (ap (λ q. q.value) same) in
      let bad : false ≡ true =
        scan-asking (decode sc) (λ q. digest_eq q.image_digest digest) t sandboxes id raw r false
          (fewer sandboxes id raw stored) read passes (image_usage-no t digest h).0 in
      absurd (ground (arith, bad))
  image_usage-fewer t t' digest h fewer (inr (id, d, loaded, same)) =
      let (raw, stored, read) = load_data-read nc t' id d loaded in
      let bad : false ≡ true =
        scan-asking (decode_data nc) (λ q. text_eq q.image_digest (digest_string digest)) t
          snapshots id raw d false (fewer snapshots id raw stored) read
          ((text_eq_iff d.image_digest (digest_string digest)).1 same)
          (image_usage-no t digest h).1 in
      absurd (ground (arith, bad))

module _ {Raw : Type 0} (sc : Codecs Raw) (nc : SnapshotCodecs Raw) (c : ImageCodecs Raw) where
  remove_names-images :
      (all : Bool) (reference : Text) (names gone : List Text) (t t' : Transaction Raw) (key : Text)
      → remove_names all reference names t ≡ ok (gone, t')
      → get t' images key ≡ get t images key
  unfolding remove_names
  remove_names-images all reference [] gone t t' key h =
      let same : t ≡ t' = ground (arith, h) in ap (λ q. get q images key) (sym same)
  remove_names-images all reference (name ∷ names) gone t t' key h =
      elim (Bool-cases (takes_name all name reference)) [
        | inr other ↦
            remove_names-images all reference names gone t t' key (rw (other, remove_names) at h)
        | inl taken ↦
            let (next, e, h1) =
              >>=-eq-ok (delete t image_names name) (rw (taken, remove_names) at h) in
            let (rest, k, h2) = >>=-eq-ok (remove_names all reference names next) h1 in
            let ends : rest.1 ≡ t' = ground (arith, h2) in
            ap (λ q. get q images key) (sym ends)
            ∙ remove_names-images all reference names rest.0 next rest.1 key k
            ∙ rw (get-delete t next image_names images name key e, image_collections_differ.1) refl
      ]

  drop_image-unused :
      (image : Image) (t t' : Transaction Raw) (out : List Digest)
      → drop_image c (some (image_usage sc nc)) image t ≡ ok (out, t')
      → ¬ (IsRetained sc nc t' image.manifest_digest)
  unfolding drop_image
  drop_image-unused image t t' out h =
      let (u, e, h1) =
        >>=-eq-ok (check_usage (some (image_usage sc nc)) t image.manifest_digest) h in
      let (used, k, free) = >>=-eq-ok (image_usage sc nc t image.manifest_digest) e in
      let (next, g, rest) = >>=-eq-ok (delete t images (digest_string image.manifest_digest)) h1 in
      image_usage-fewer sc nc t t' image.manifest_digest
        (k ∙ ap ok (refuse_if-eq-ok used (failure conflict referenced) free))
        (λ d key raw found.
          get_later c t next images d (digest_string image.manifest_digest) key raw g (
            drop_layers-get c image.manifest_digest 0 image.layers next t' out d key raw rest
              found))

  -- When the transaction of a removal, with the usage check over the sandboxes and the snapshots
  -- of the same store, succeeds and the image record is gone, no sandbox that loads runs on the
  -- image and no snapshot that loads, pending and deleting ones included, pins it.
  pub remove_in-unused :
      (reference : Text) (expected : Digest) (t : Transaction Raw) (out : Removal)
      (t' : Transaction Raw)
      → remove_in c (some (image_usage sc nc)) reference expected t ≡ ok (out, t')
      → get t' images (digest_string expected) ≡ ok none
      → ¬ (IsRetained sc nc t' expected)
  remove_in-unused reference expected t out t' h gone =
      let r = remove_in-IsRemoval c (some (image_usage sc nc)) reference expected t out t' h in
      let own : r.image.manifest_digest ≡ expected =
        digest_eq_sound r.image.manifest_digest expected r.expected_digest in
      elim (Bool-cases (r.left == 0)) [
        | inl last ↦
            rw (sym own) (drop_image-unused r.image r.next t' out.layers (rw last at r.ended))
        | inr more ↦
            let ended : ok ([], r.next) ≡ ok (out.layers, t') = rw more at r.ended in
            let same : r.next ≡ t' = ground (arith, ended) in
            let stored = (resolve_image-IsMeant c t reference r.image r.resolved).1 in
            let kept : get t' images (digest_string expected) ≡ ok (some stored.raw) =
              ap (λ q. get q images (digest_string expected)) (sym same)
              ∙ remove_names-images _ reference r.image.names out.names t r.next
                  (digest_string expected) r.unnamed
              ∙ ap (λ q. get t images (digest_string q)) (sym own)
              ∙ stored.stored in
            absurd (ground (arith, gone, kept))
      ]
