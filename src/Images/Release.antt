-- ===== src/Images/Release.antt =====
-- What a removal leaves: the layers that it gives back occur in no image any more.
use kuma_box.Prelude.{
  not, ℕ, suc, ◌≡◌, refl, ap, ◌∙◌, inl, inr, Bool, true, false, Option, some, List, [], ◌∷◌, All,
  arith, if◌then◌else◌, ◌==◌, Text, text_eq, text_eq_iff, Bool-cases, subst,
}
use kuma_box.Errdefs.{refuse_if, >>=-eq-ok, ok, failure, conflict, name_taken}
use kuma_box.Types.Ids.{Digest, digest_string, digest_eq}
use kuma_box.Metadata.{Transaction, get, delete}
use kuma_box.Metadata.Laws.{get-delete}
use kuma_box.Metadata.Scans.{scan-asking}
use kuma_box.Images.{Image, Layer, Removal}
use kuma_box.Images.Records.{ImageCodecs, LayerRecord, layer_key}
use kuma_box.Images.Access.{
  images, image_names, image_layers, decode_record, resolve_image, layer_referenced,
}
use kuma_box.Images.Operations.{
  ImageUsage, check_usage, removes_all, remove_names, remaining, drop_layers, drop_image, remove_in,
}

pub image_collections_differ :
    (text_eq images image_layers ≡ false)
    × (text_eq image_names images ≡ false)
    × (text_eq image_layers images ≡ false)
unfolding text_eq
image_collections_differ = (refl, refl, refl)

module _ {Raw : Type 0} (c : ImageCodecs Raw) where
  -- Some stored layer record holds the source digest.
  abbrev pub IsReferenced : Transaction Raw → Digest → Type 0
  IsReferenced t d =
      (key : Text) × (raw : Raw) × (r : LayerRecord) × (get t image_layers key ≡ ok (some raw))
      × (decode_record c raw ≡ ok r)
      × (r.source_digest ≡ digest_string d)

  layer_referenced-no :
      (t : Transaction Raw) (d : Digest) → layer_referenced c t d ≡ ok false → ¬ (IsReferenced t d)
  unfolding layer_referenced
  layer_referenced-no t d h (key, raw, r, stored, read, same) =
      let passes = (text_eq_iff r.source_digest (digest_string d)).1 same in
      let bad : false ≡ true =
        scan-asking (decode_record c) (λ r. text_eq r.source_digest (digest_string d)) t
          image_layers key raw r false stored read passes h in
      absurd (ground arith)

  -- A deletion adds nothing.
  pub get_later :
      (t t' : Transaction Raw) (col d key other : Text) (raw : Raw)
      → delete t col key ≡ ok t'
      → get t' d other ≡ ok (some raw)
      → get t d other ≡ ok (some raw)
  get_later t t' col d key other raw h found =
      ground (arith, get-delete t t' col d key other h, found)

  -- One round of the loop over the layers, and the rounds after it.
  record Round (m : Digest) (i : ℕ) (l : Layer) (ls : List Layer) (t t' : Transaction Raw)
      (out : List Digest) : Type 0 where
    next : Transaction Raw
    used : Bool
    free : List Digest
    deleted : delete t image_layers (layer_key m i) ≡ ok next
    asked : layer_referenced c next l.source_digest ≡ ok used
    rest : drop_layers c m (suc i) ls next ≡ ok (free, t')
    same : (if used then free else l.source_digest ∷ free) ≡ out

  drop_layers-Round :
      (m : Digest) (i : ℕ) (l : Layer) (ls : List Layer) (t t' : Transaction Raw)
      (out : List Digest)
      → drop_layers c m i (l ∷ ls) t ≡ ok (out, t')
      → Round m i l ls t t' out
  unfolding drop_layers
  drop_layers-Round m i l ls t t' out h =
      let (next, e, h1) = >>=-eq-ok (delete t image_layers (layer_key m i)) h in
      let (used, k, h2) = >>=-eq-ok (layer_referenced c next l.source_digest) h1 in
      let (rest, g, h3) = >>=-eq-ok (drop_layers c m (suc i) ls next) h2 in
      let pair : (if used then rest.0 else l.source_digest ∷ rest.0, rest.1) ≡ (out, t') =
        ground (arith, h3) in
      record {
        next = next;
        used = used;
        free = rest.0;
        deleted = e;
        asked = k;
        rest = g ∙ ap (λ (q : List Digest × Transaction Raw). ok (rest.0, q.1)) pair;
        same = ap (λ q. q.0) pair;
      }

  pub drop_layers-get :
      (m : Digest) (i : ℕ) (ls : List Layer) (t t' : Transaction Raw) (out : List Digest)
      (d key : Text) (raw : Raw)
      → drop_layers c m i ls t ≡ ok (out, t')
      → get t' d key ≡ ok (some raw)
      → get t d key ≡ ok (some raw)
  unfolding drop_layers
  drop_layers-get m i [] t t' out d key raw h found =
      let same : t ≡ t' = ground arith in ap (λ q. get q d key) same ∙ found
  drop_layers-get m i (l ∷ ls) t t' out d key raw h found =
      let r = drop_layers-Round m i l ls t t' out h in
      get_later t r.next image_layers d (layer_key m i) key raw r.deleted
        (drop_layers-get m (suc i) ls r.next t' r.free d key raw r.rest found)

  drop_layers-IsFree :
      (m : Digest) (i : ℕ) (ls : List Layer) (t t' : Transaction Raw) (out : List Digest)
      → drop_layers c m i ls t ≡ ok (out, t')
      → All (λ d. ¬ (IsReferenced t' d)) out
  unfolding drop_layers
  drop_layers-IsFree m i [] t t' out h =
      let none_free : [] ≡ out = ground arith in
      subst (All (λ d. ¬ (IsReferenced t' d))) none_free tt
  drop_layers-IsFree m i (l ∷ ls) t t' out h =
      let r = drop_layers-Round m i l ls t t' out h in
      let rest = drop_layers-IsFree m (suc i) ls r.next t' r.free r.rest in
      elim (Bool-cases r.used) [
        | inl used ↦ subst (All (λ d. ¬ (IsReferenced t' d))) (rw used at r.same) rest
        | inr unused ↦ subst (All (λ d. ¬ (IsReferenced t' d))) (rw unused at r.same) (
          λ w. layer_referenced-no r.next l.source_digest (r.asked ∙ ap ok unused) (
            w.0,
            w.1,
            w.2,
            drop_layers-get m (suc i) ls r.next t' r.free image_layers w.0 w.1 r.rest w.3,
            w.4,
            w.5,
          ),
          rest,
        )
      ]

  -- The intermediate states of a removal that succeeded.
  pub record IsRemoval (usage : ImageUsage Raw) (reference : Text) (expected : Digest)
      (t : Transaction Raw) (out : Removal) (t' : Transaction Raw) : Type 0 where
    pub image : Image
    pub found : Option Raw
    pub next : Transaction Raw
    pub left : ℕ
    pub resolved : resolve_image c t reference ≡ ok image
    pub expected_digest : digest_eq image.manifest_digest expected ≡ true
    pub unnamed : remove_names (removes_all found) reference image.names t ≡ ok (out.names, next)
    pub counted : remaining c (digest_string image.manifest_digest) next ≡ ok left
    pub ended :
        (if left == 0 then drop_image c usage image next else ok ([], next)) ≡ ok (out.layers, t')

  pub remove_in-IsRemoval :
      (usage : ImageUsage Raw) (reference : Text) (expected : Digest) (t : Transaction Raw)
      (out : Removal) (t' : Transaction Raw)
      → remove_in c usage reference expected t ≡ ok (out, t')
      → IsRemoval usage reference expected t out t'
  unfolding remove_in
  remove_in-IsRemoval usage reference expected t out t' h =
      let (image, e, h1) = >>=-eq-ok (resolve_image c t reference) h in
      let apart = not (digest_eq image.manifest_digest expected) in
      let (u, own, h2) = >>=-eq-ok (refuse_if apart (failure conflict name_taken)) h1 in
      let (found, g, h3) = >>=-eq-ok (get t image_names reference) h2 in
      let (gone, k, h4) = >>=-eq-ok (remove_names (removes_all found) reference image.names t) h3 in
      let (left, m, h5) = >>=-eq-ok (remaining c (digest_string image.manifest_digest) gone.1) h4 in
      let (freed, n, h6) =
        >>=-eq-ok (if left == 0 then drop_image c usage image gone.1 else ok ([], gone.1)) h5 in
      let pair : (record { names = gone.0; layers = freed.0 }, freed.1) ≡ (out, t') =
        ground (arith, h6) in
      record {
        image = image;
        found = found;
        next = gone.1;
        left = left;
        resolved = e;
        expected_digest = ground (arith, own);
        unnamed = k ∙ ap (λ (q : Removal × Transaction Raw). ok (q.0.names, gone.1)) pair;
        counted = m;
        ended = n ∙ ap (λ (q : Removal × Transaction Raw). ok (q.0.layers, q.1)) pair;
      }

  drop_image-IsFree :
      (usage : ImageUsage Raw) (image : Image) (t t' : Transaction Raw) (out : List Digest)
      → drop_image c usage image t ≡ ok (out, t')
      → All (λ d. ¬ (IsReferenced t' d)) out
  unfolding drop_image
  drop_image-IsFree usage image t t' out h =
      let (u, e, h1) = >>=-eq-ok (check_usage usage t image.manifest_digest) h in
      let (next, k, dropped) =
        >>=-eq-ok (delete t images (digest_string image.manifest_digest)) h1 in
      drop_layers-IsFree image.manifest_digest 0 image.layers next t' out dropped

  -- When the transaction of a removal succeeds, under any usage check, no stored layer record has
  -- one of the source digests that it gives back for deletion.
  pub remove_in-IsFree :
      (usage : ImageUsage Raw) (reference : Text) (expected : Digest) (t : Transaction Raw)
      (out : Removal) (t' : Transaction Raw)
      → remove_in c usage reference expected t ≡ ok (out, t')
      → All (λ d. ¬ (IsReferenced t' d)) out.layers
  remove_in-IsFree usage reference expected t out t' h =
      let r = remove_in-IsRemoval usage reference expected t out t' h in
      elim (Bool-cases (r.left == 0)) [
        | inl last ↦ drop_image-IsFree usage r.image r.next t' out.layers (rw last at r.ended)
        | inr more ↦
            let ended : ok ([], r.next) ≡ ok (out.layers, t') = rw more at r.ended in
            let none_free : [] ≡ out.layers = ground (arith, ended) in
            subst (All (λ d. ¬ (IsReferenced t' d))) none_free tt
      ]
