-- ===== src/Images/Named.antt =====
-- What a reference resolves to: the image of an alias, or the only one with a digest prefix.
use kuma_box.Prelude.{
  ◌≡◌, ◌⊎◌, refl, sym, ap, ◌∙◌, inl, inr, true, false, not, none, some, [], ◌∷◌, arith, Has, length,
  ltb, Text, text_eq, text_eq_iff, is_empty, has_prefix, Dict, Bool-cases, Option-cases, ◌&&◌,
}
use kuma_box.Errdefs.{
  >>=-eq-ok, refuse_if-eq-ok, ok, err, ◌>>◌, refuse_if, failure, invalid, invalid_argument,
  Result-cases,
}
use kuma_box.Types.Ids.{digest_string}
use kuma_box.Metadata.{Transaction, get, collection, scan, scan_entries, sort_entries}
use kuma_box.Metadata.Scans.{Has-lookup, Has-sort_entries}
use kuma_box.Images.{Image}
use kuma_box.Images.Records.{ImageCodecs, ImageName}
use kuma_box.Images.Access.{
  images, image_names, decode_name, trim_algorithm, unknown_image, matching, find_prefix,
  find_digest, resolve_image,
}
use kuma_box.Images.Loaded.{IsStored, load_image-IsStored}

long_prefix :
    (key prefix : Text)
    → ltb (length prefix) 12 ≡ false
    → has_prefix (trim_algorithm key) prefix ≡ true
    → is_empty key ≡ false
unfolding has_prefix trim_algorithm
long_prefix [] [] l h = absurd (ground (arith, l))
long_prefix [] (b ∷ bs) l h = absurd (ground (arith, h))
long_prefix (a ∷ key) prefix l h = refl

module _ {Raw : Type 0} where
  -- One more key of the search.
  matching-next :
      (prefix key found out : Text) (raw : Raw)
      → matching prefix key raw found ≡ ok out
      → (has_prefix (trim_algorithm key) prefix ≡ true → key ≡ out)
        × (is_empty found ≡ false → found ≡ out)
        × ((found ≡ out) ⊎ (has_prefix (trim_algorithm out) prefix ≡ true))
  unfolding matching
  matching-next prefix key found out raw h =
      elim (Bool-cases (has_prefix (trim_algorithm key) prefix)) [
        | inl has ↦
            let all : (do
              refuse_if (not (is_empty found) && not (text_eq found key))
                  (failure invalid invalid_argument)
              ok key)
                ≡ ok out =
              rw has at h in
            let same : key ≡ out = ground (arith, all) in
            (
              λ m. same,
              λ m. (text_eq_iff found key).0 (ground (arith, all, m)) ∙ same,
              inr (ap (λ q. has_prefix (trim_algorithm q) prefix) (sym same) ∙ has),
            )
        | inr other ↦
            let all : ok found ≡ ok out = rw other at h in
            let same : found ≡ out = ground (arith, all) in
            (λ m. absurd (ground (arith, m, other)), λ m. same, inl same)
      ]

  scan_entries-matching :
      (prefix : Text) (es : Dict Raw) (found out : Text)
      → scan_entries (matching prefix) es found ≡ ok out
      → ((key : Text)
          → (raw : Raw) → Has (key, raw) es
          → has_prefix (trim_algorithm key) prefix ≡ true
          → is_empty key ≡ false
          → key ≡ out)
        × (is_empty found ≡ false → found ≡ out)
        × ((found ≡ out) ⊎ (has_prefix (trim_algorithm out) prefix ≡ true))
  unfolding scan_entries
  scan_entries-matching prefix [] found out h =
      let same : found ≡ out = ground (arith, h) in (λ key raw w. absurd w, λ m. same, inl same)
  scan_entries-matching prefix ((k, v) ∷ es) found out h =
      elim (Result-cases (matching prefix k v found)) [
        | inr (f, e) ↦ absurd (let bad : err f ≡ ok out = rw e at h in ground (arith, bad))
        | inl (next, e) ↦
            let step = matching-next prefix k found next v e in
            let all : scan_entries (matching prefix) es next ≡ ok out = rw e at h in
            let rest = scan_entries-matching prefix es next out all in
            (
              λ key raw w has full. elim w [
                | inl same ↦
                    let keys : k ≡ key = ap (λ q. q.0) same in
                    let onto : k ≡ next =
                      step.0 (ap (λ q. has_prefix (trim_algorithm q) prefix) keys ∙ has) in
                    sym keys ∙ onto ∙ rest.1 (ap is_empty (sym onto ∙ keys) ∙ full)
                | inr later ↦ rest.0 key raw later has full
              ],
              λ m. let one = step.1 m in one ∙ rest.1 (ap is_empty (sym one) ∙ m),
              elim rest.2 [
                | inl same ↦ elim step.2 [
                  | inl one ↦ inl (one ∙ same)
                  | inr has ↦ inr (ap (λ q. has_prefix (trim_algorithm q) prefix) (sym same) ∙ has)
                ]
                | inr has ↦ inr has
              ],
            )
      ]

  -- The key begins with at least 12 bytes of the reference, and no other stored key does.
  pub record IsOnlyMatch (t : Transaction Raw) (reference id : Text) : Type 0 where
    pub long : ltb (length (trim_algorithm reference)) 12 ≡ false
    pub starts : has_prefix (trim_algorithm id) (trim_algorithm reference) ≡ true
    pub only : ¬ (
        (key : Text) × (raw : Raw) × (get t images key ≡ ok (some raw))
        × (has_prefix (trim_algorithm key) (trim_algorithm reference) ≡ true)
        × (text_eq key id ≡ false))

  matching-IsOnlyMatch :
      (t : Transaction Raw) (reference id : Text)
      → ltb (length (trim_algorithm reference)) 12 ≡ false
      → is_empty id ≡ false
      → scan t images (matching (trim_algorithm reference)) [] ≡ ok id
      → IsOnlyMatch t reference id
  unfolding scan get
  matching-IsOnlyMatch t reference id l full h = elim (Result-cases (collection t images)) [
    | inr (f, e) ↦ absurd (let bad : err f ≡ ok id = rw e at h in ground (arith, bad))
    | inl (entries, e) ↦
        let found =
          scan_entries-matching (trim_algorithm reference) (sort_entries entries) [] id
            (rw e at h) in
        record {
          long = l;
          starts = elim found.2 [
            | inl same ↦ absurd (ground (arith, ap is_empty same, full))
            | inr has ↦ has
          ];
          only = λ w.
              let at : Has (w.0, w.1) entries =
                Has-lookup (w.0, w.1) entries (ground (arith, e, w.2)) in
              let same =
                found.0 w.0 w.1 (Has-sort_entries (w.0, w.1) entries at) w.3
                  (long_prefix w.0 (trim_algorithm reference) l w.3) in
              absurd (ground (arith, w.4, (text_eq_iff w.0 id).1 same));
        }
  ]

module _ {Raw : Type 0} (c : ImageCodecs Raw) where
  -- The reference is an alias of the digest, or no alias and a prefix of that digest only.
  abbrev pub IsMeant : Transaction Raw → Text → Text → Type 0
  IsMeant t reference id =
      ((raw : Raw) × (n : ImageName) × (get t image_names reference ≡ ok (some raw))
        × (decode_name c raw ≡ ok n)
        × (n.manifest_digest ≡ id))
      ⊎ ((get t image_names reference ≡ ok none) × IsOnlyMatch t reference id)

  find_digest-IsMeant :
      (t : Transaction Raw) (reference id : Text)
      → is_empty id ≡ false
      → find_digest c t reference ≡ ok id
      → IsMeant t reference id
  unfolding find_digest find_prefix
  find_digest-IsMeant t reference id full h =
      let (found, e, rest) = >>=-eq-ok (get t image_names reference) h in
      elim (Option-cases found) [
        | inl g ↦
            let (u, long, all) =
              >>=-eq-ok (refuse_if (ltb (length (trim_algorithm reference)) 12) unknown_image)
                (rw g at rest) in
            inr (
              e ∙ ap ok g,
              matching-IsOnlyMatch t reference id
                  (refuse_if-eq-ok (ltb (length (trim_algorithm reference)) 12) unknown_image long)
                  full all,
            )
        | inr (raw, g) ↦
            let (n, k, all) = >>=-eq-ok (decode_name c raw) (rw g at rest) in
            inl (raw, n, e ∙ ap ok g, k, ground (arith, all))
      ]

  -- An image that a reference resolves to is the one that the alias of this spelling leads to,
  -- or, where there is no such alias, the only stored one whose digest begins with the at least
  -- 12 bytes given; it is stored under its own digest, and its layers, its size and its boot
  -- files agree.
  pub resolve_image-IsMeant :
      (t : Transaction Raw) (reference : Text) (image : Image)
      → resolve_image c t reference ≡ ok image
      → IsMeant t reference (digest_string image.manifest_digest)
        × IsStored c t (digest_string image.manifest_digest) image
  unfolding resolve_image
  resolve_image-IsMeant t reference image h =
      let (id, e, h1) = >>=-eq-ok (find_digest c t reference) h in
      let (u, full, loaded) = >>=-eq-ok (refuse_if (is_empty id) unknown_image) h1 in
      let s = load_image-IsStored c t id image loaded in
      rw s.own
        (find_digest-IsMeant t reference id (refuse_if-eq-ok (is_empty id) unknown_image full) e, s)
