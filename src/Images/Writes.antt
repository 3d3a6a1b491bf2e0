-- ===== src/Images/Writes.antt =====
-- What the writes of an import do to the reads.
use kuma_box.Prelude.{
  ℕ, suc, ◌≡◌, refl, sym, ap, ◌∙◌, inl, inr, false, some, List, [], ◌∷◌, arith, if◌then◌else◌, Text,
  text_eq, pos, Option-cases,
}
use kuma_box.Errdefs.{>>=-eq-ok, ok, err, plain}
use kuma_box.Types.Ids.{Digest}
use kuma_box.Metadata.{Transaction, get, put}
use kuma_box.Metadata.Laws.{get-put}
use kuma_box.Sandboxes.Records.{Codec}
use kuma_box.Images.{Layer}
use kuma_box.Images.Records.{ImageCodecs, layer_key, encode_layer}
use kuma_box.Images.Access.{images, image_names, image_layers}
use kuma_box.Images.Operations.{put_json, put_layers}

pub differ :
    (text_eq images image_names ≡ false)
    × (text_eq image_names images ≡ false)
    × (text_eq image_layers images ≡ false)
    × (text_eq image_layers image_names ≡ false)
unfolding text_eq
differ = (refl, refl, refl, refl)

module _ {Raw A : Type 0} (json : Codec Raw A) where
  -- What one written record does to all reads.
  pub record IsWritten (t : Transaction Raw) (col id : Text) (a : A) (t' : Transaction Raw)
      : Type 0 where
    pub raw : Raw
    pub reads : json.unmarshal raw ≡ some a
    pub gets :
        (d other : Text)
        → get t' d other ≡ (
            if text_eq col d
            then (if text_eq id other then ok (some raw) else get t d other)
            else get t d other)

  pub put_json-IsWritten :
      (t : Transaction Raw) (col id : Text) (a : A) (t' : Transaction Raw)
      → put_json json t col id a ≡ ok t'
      → IsWritten t col id a t'
  unfolding put_json
  put_json-IsWritten t col id a t' h = elim (Option-cases (json.marshal a)) [
    | inl e ↦ absurd (let bad : err plain ≡ ok t' = rw (e, put_json) at h in ground (arith, bad))
    | inr (raw, e) ↦
        let written : put t col id raw ≡ ok t' = rw (e, put_json) at h in
        record {
          raw = raw;
          reads = json.unmarshal-marshal a raw e;
          gets = λ d other. get-put t t' col d id other raw written;
        }
  ]

module _ {Raw : Type 0} (c : ImageCodecs Raw) where
  pub put_layers-get :
      (m : Digest) (i : ℕ) (ls : List Layer) (t t' : Transaction Raw) (d key : Text)
      → text_eq image_layers d ≡ false
      → put_layers c m i ls t ≡ ok t'
      → get t' d key ≡ get t d key
  unfolding put_layers
  put_layers-get m i [] t t' d key apart h =
      let same : t ≡ t' = ground (arith, h) in ap (λ q. get q d key) (sym same)
  put_layers-get m i (l ∷ ls) t t' d key apart h =
      let (next, e, rest) =
        >>=-eq-ok (put_json c.layer_json t image_layers (layer_key m i) (encode_layer m (pos i) l))
          h in
      let w =
        put_json-IsWritten c.layer_json t image_layers (layer_key m i) (encode_layer m (pos i) l)
          next e in
      put_layers-get m (suc i) ls next t' d key apart rest ∙ rw (w.gets d key, apart) refl
