-- ===== src/Images/Imported.antt =====
-- What CommitImport does to the aliases and to the other images.
use kuma_box.Prelude.{
  ◌≡◌, ◌⊎◌, refl, sym, ap, ◌∙◌, inl, inr, not, none, some, arith, if◌then◌else◌, Text, text_eq,
  text_eq_iff, text_eq_refl, Bool-cases, Option-cases,
}
use kuma_box.Errdefs.{>>=-eq-ok, ok, err, refuse_if, Result-cases}
use kuma_box.Types.Ids.{digest_string}
use kuma_box.Metadata.{Transaction, get}
use kuma_box.Images.{Image, ImportCommit}
use kuma_box.Images.Records.{ImageCodecs, ImageName, corrupt_image, encode_image}
use kuma_box.Images.Access.{images, image_names, decode_name, decode_image, load_image}
use kuma_box.Images.Writes.{differ, put_json-IsWritten, put_layers-get}
use kuma_box.Images.Operations.{
  put_json, same_facts, bind_alias, check_alias, changes_reference, update_reference, commit_again,
  put_layers, commit_new, commit_import_in,
}

module _ {Raw : Type 0} (c : ImageCodecs Raw) where
  -- The alias leads nowhere, or to the digest already.
  abbrev pub IsFree : ImportCommit → Transaction Raw → Type 0
  IsFree i t =
      (get t image_names i.name ≡ ok none)
      ⊎ ((raw : Raw) × (n : ImageName) × (get t image_names i.name ≡ ok (some raw))
          × (decode_name c raw ≡ ok n)
          × (n.manifest_digest ≡ digest_string i.manifest.digest))

  -- The alias leads to the digest, every other alias and every other image is as before, and the
  -- alias did not lead elsewhere.
  pub record IsImported (i : ImportCommit) (t t' : Transaction Raw) : Type 0 where
    pub alias : Raw
    pub image : Raw
    pub leads :
        decode_name c alias ≡ ok (record { manifest_digest = digest_string i.manifest.digest })
    pub names :
        (other : Text)
        → get t' image_names other
          ≡ (if text_eq i.name other then ok (some alias) else get t image_names other)
    pub images_after :
        (other : Text)
        → get t' images other ≡ (
            if text_eq (digest_string i.manifest.digest) other
            then ok (some image)
            else get t images other)
    pub before : IsFree i t

  -- What the writes before the alias do.
  record IsPrepared (i : ImportCommit) (t t' : Transaction Raw) : Type 0 where
    image : Raw
    names : (other : Text) → get t' image_names other ≡ get t image_names other
    images_after :
        (other : Text)
        → get t' images other ≡ (
            if text_eq (digest_string i.manifest.digest) other
            then ok (some image)
            else get t images other)

  check_alias-IsFree :
      (i : ImportCommit) (t : Transaction Raw) → check_alias c i t ≡ ok tt → IsFree i t
  unfolding check_alias
  check_alias-IsFree i t h =
      let (found, e, rest) = >>=-eq-ok (get t image_names i.name) h in
      elim (Option-cases found) [
        | inl g ↦ inl (e ∙ ap ok g)
        | inr (raw, g) ↦
            let (n, k, fine) = >>=-eq-ok (decode_name c raw) (rw g at rest) in
            inr (
              raw,
              n,
              e ∙ ap ok g,
              k,
              (text_eq_iff n.manifest_digest (digest_string i.manifest.digest)).0
                  (ground (arith, fine)),
            )
      ]

  bind_alias-IsImported :
      (i : ImportCommit) (t next t' : Transaction Raw)
      → IsPrepared i t next
      → check_alias c i t ≡ ok tt
      → bind_alias c i next ≡ ok t'
      → IsImported i t t'
  bind_alias-IsImported i t next t' p free h =
      let value : ImageName = record { manifest_digest = digest_string i.manifest.digest } in
      let w = put_json-IsWritten c.name_json next image_names i.name value t' h in
      record {
        alias = w.raw;
        image = p.image;
        leads = rw w.reads refl;
        names =
            λ other. rw (w.gets image_names other, text_eq_refl image_names, p.names other) refl;
        images_after = λ other. rw (w.gets images other, differ.1) (p.images_after other);
        before = check_alias-IsFree i t free;
      }

  commit_new-IsImported :
      (i : ImportCommit) (t t' : Transaction Raw)
      → check_alias c i t ≡ ok tt
      → commit_new c i t ≡ ok t'
      → IsImported i t t'
  unfolding commit_new
  commit_new-IsImported i t t' free h =
      let id = digest_string i.manifest.digest in
      let (one, e, h1) = >>=-eq-ok (put_json c.image_json t images id (encode_image i)) h in
      let (two, k, bound) = >>=-eq-ok (put_layers c i.manifest.digest 0 i.layers one) h1 in
      let w = put_json-IsWritten c.image_json t images id (encode_image i) one e in
      let layers_get = put_layers-get c i.manifest.digest 0 i.layers one two in
      bind_alias-IsImported i t two t'
        (record {
          image = w.raw;
          names = λ other.
              layers_get image_names other differ.3 k
              ∙ rw (w.gets image_names other, differ.0) refl;
          images_after = λ other.
              layers_get images other differ.2 k
              ∙ rw (w.gets images other, text_eq_refl images) refl;
        })
        free bound

  already :
      (t : Transaction Raw) (id other : Text) (raw : Raw)
      → get t images id ≡ ok (some raw)
      → get t images other ≡ (if text_eq id other then ok (some raw) else get t images other)
  already t id other raw stored = elim (Bool-cases (text_eq id other)) [
    | inl same ↦ rw same (ap (get t images) (sym ((text_eq_iff id other).0 same)) ∙ stored)
    | inr apart ↦ rw apart refl
  ]

  update_reference-IsPrepared :
      (i : ImportCommit) (image : Image) (raw : Raw) (t t' : Transaction Raw)
      → get t images (digest_string i.manifest.digest) ≡ ok (some raw)
      → update_reference c i image raw t ≡ ok t'
      → IsPrepared i t t'
  update_reference-IsPrepared i image raw t t' stored h =
      elim (Bool-cases (changes_reference i image)) [
        | inr same_reference ↦
            let unchanged : ok t ≡ ok t' = rw same_reference at h in
            let same : t ≡ t' = ground (arith, unchanged) in
            record {
              image = raw;
              names = λ other. ap (λ q. get q image_names other) (sym same);
              images_after = λ other.
                  ap (λ q. get q images other) (sym same)
                  ∙ already t (digest_string i.manifest.digest) other raw stored;
            }
        | inl changed ↦ elim (Result-cases (decode_image c raw)) [
          | inr (f, e) ↦
              absurd (let bad : err f ≡ ok t' = rw (changed, e) at h in ground (arith, bad))
          | inl (r, e) ↦
              let after = record r { registry_reference = i.registry_reference } in
              let w =
                put_json-IsWritten c.image_json t images (digest_string i.manifest.digest) after t'
                  (rw (changed, e) at h) in
              record {
                image = w.raw;
                names = λ other. rw (w.gets image_names other, differ.0) refl;
                images_after = λ other. rw (w.gets images other, text_eq_refl images) refl;
              }
        ]
      ]

  commit_again-IsImported :
      (i : ImportCommit) (raw : Raw) (t t' : Transaction Raw)
      → get t images (digest_string i.manifest.digest) ≡ ok (some raw)
      → check_alias c i t ≡ ok tt
      → commit_again c i raw t ≡ ok t'
      → IsImported i t t'
  unfolding commit_again
  commit_again-IsImported i raw t t' stored free h =
      let (image, e, h1) = >>=-eq-ok (load_image c t (digest_string i.manifest.digest)) h in
      let (u, own, h2) = >>=-eq-ok (refuse_if (not (same_facts image i)) corrupt_image) h1 in
      let (next, k, bound) = >>=-eq-ok (update_reference c i image raw t) h2 in
      bind_alias-IsImported i t next t' (update_reference-IsPrepared i image raw t next stored k)
        free bound

  -- When the transaction of an import succeeds, of a new image or of a known one, its alias leads
  -- to its digest and was free or led there before, an image record is stored under the digest,
  -- and every other alias and every other image record is as before.
  pub commit_import_in-IsImported :
      (i : ImportCommit) (t t' : Transaction Raw)
      → commit_import_in c i t ≡ ok (tt, t')
      → IsImported i t t'
  unfolding commit_import_in
  commit_import_in-IsImported i t t' h =
      let (u, e, h1) = >>=-eq-ok (check_alias c i t) h in
      let (found, k, h2) = >>=-eq-ok (get t images (digest_string i.manifest.digest)) h1 in
      elim (Option-cases found) [
        | inl g ↦
            let (last, m, h3) = >>=-eq-ok (commit_new c i t) (rw g at h2) in
            let ends : last ≡ t' = ground (arith, h3) in
            commit_new-IsImported i t t' e (m ∙ ap (λ q. ok q) ends)
        | inr (raw, g) ↦
            let (last, m, h3) = >>=-eq-ok (commit_again c i raw t) (rw g at h2) in
            let ends : last ≡ t' = ground (arith, h3) in
            commit_again-IsImported i raw t t' (k ∙ ap ok g) e (m ∙ ap (λ q. ok q) ends)
      ]
