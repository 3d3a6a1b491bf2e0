-- ===== src/Images/Listing/Found.antt =====
-- What FindLayers answers with: every wanted layer that is stored.
use kuma_box.Prelude.{
  ◌≡◌, ◌⊎◌, refl, sym, ap, ◌∙◌, inl, inr, Bool, true, false, bool_eq, none, some, List, [], ◌∷◌,
  arith, any_of, Has, Text, text_eq, text_eq_sound, text_eq_iff, eq_int_sound, Dict, lookup, insert,
  lookup-insert, Bool-cases, Option-cases,
}
use kuma_box.Errdefs.{Result, ok, err, ◌>>=◌, >>=-eq-ok}
use kuma_box.Types.Ids.{Digest, digest_eq}
use kuma_box.Metadata.{Transaction, get, collection, scan, scan_entries, sort_entries}
use kuma_box.Metadata.Scans.{Has-lookup, Has-sort_entries}
use kuma_box.Images.{BootFile, Layer, file_eq, list_eq, layer_eq}
use kuma_box.Images.Validate.Sound.{digest_eq_sound}
use kuma_box.Images.Records.{ImageCodecs, LayerRecord, corrupt_image, decode_layer}
use kuma_box.Images.Access.{image_layers, decode_record}
use kuma_box.Images.Listing.{take_layer, find_layers_in}

list_eq_sound {ℓ} :
    {A : Type ℓ} (eq : A → A → Bool)
    → ((a b : A) → eq a b ≡ true → a ≡ b)
    → (xs ys : List A) → list_eq eq xs ys ≡ true
    → xs ≡ ys
unfolding list_eq
list_eq_sound eq sound [] [] h = refl
list_eq_sound eq sound [] (y ∷ ys) h = cc
list_eq_sound eq sound (x ∷ xs) [] h = cc
list_eq_sound eq sound (x ∷ xs) (y ∷ ys) h =
    let head = sound x y (ground (arith, h)) in
    let tail = list_eq_sound eq sound xs ys (ground (arith, h)) in λ i. head i ∷ tail i

file_eq_sound : (a b : BootFile) → file_eq a b ≡ true → a ≡ b
file_eq_sound a b h =
    let name = text_eq_sound a.name b.name (ground (arith, h)) in
    let digest = digest_eq_sound a.digest b.digest (ground (arith, h)) in
    let size = eq_int_sound a.size b.size (ground (arith, h)) in
    λ i. record { name = name i; digest = digest i; size = size i }

bool_eq_sound : (a b : Bool) → bool_eq a b ≡ true → a ≡ b
bool_eq_sound true b h = sym h
bool_eq_sound false true h = cc
bool_eq_sound false false h = refl

-- Layers that Equal accepts are the same.
pub layer_eq_sound : (a b : Layer) → layer_eq a b ≡ true → a ≡ b
unfolding layer_eq
layer_eq_sound a b h =
    let source = digest_eq_sound a.source_digest b.source_digest (ground (arith, h)) in
    let erofs = digest_eq_sound a.erofs_digest b.erofs_digest (ground (arith, h)) in
    let size = eq_int_sound a.size b.size (ground (arith, h)) in
    let opaque_ = bool_eq_sound a.boot_opaque b.boot_opaque (ground (arith, h)) in
    let files = list_eq_sound file_eq file_eq_sound a.boot_files b.boot_files (ground (arith, h)) in
    let names = list_eq_sound text_eq text_eq_sound a.whiteouts b.whiteouts (ground (arith, h)) in
    λ i. record {
      source_digest = source i;
      erofs_digest = erofs i;
      size = size i;
      boot_files = files i;
      whiteouts = names i;
      boot_opaque = opaque_ i;
    }

module _ (wanted : List Digest) where
  -- A layer is passed over, or it is put where there was nothing or the same layer.
  abbrev IsTaken : Layer → Dict Layer → Dict Layer → Type 0
  IsTaken q found out =
      ((any_of (digest_eq q.source_digest) wanted ≡ false) × (found ≡ out))
      ⊎ ((insert q.source_digest.value q found ≡ out)
          × ((lookup q.source_digest.value found ≡ none)
              ⊎ (lookup q.source_digest.value found ≡ some q)))

  take_layer-IsTaken :
      (q : Layer) (found out : Dict Layer)
      → take_layer wanted q found ≡ ok out
      → IsTaken q found out
  unfolding take_layer
  take_layer-IsTaken q found out h = elim (Bool-cases (any_of (digest_eq q.source_digest) wanted)) [
    | inr other ↦ let all : ok found ≡ ok out = rw other at h in inl (other, ground (arith, all))
    | inl asked ↦ elim (Option-cases (lookup q.source_digest.value found)) [
      | inl e ↦
          let all : ok (insert q.source_digest.value q found) ≡ ok out = rw (asked, e) at h in
          inr (ground (arith, all), inl e)
      | inr (previous, e) ↦ elim (Bool-cases (layer_eq previous q)) [
        | inr changed ↦
            let bad : err corrupt_image ≡ ok out = rw (asked, e, changed) at h in
            absurd (ground (arith, bad))
        | inl equal ↦
            let all : ok (insert q.source_digest.value q found) ≡ ok out =
              rw (asked, e, equal) at h in
            inr (ground (arith, all), inr (e ∙ ap some (layer_eq_sound previous q equal)))
      ]
    ]
  ]

  -- A wanted layer that is taken is there afterwards, and one that was there stays.
  take_layer-lookup :
      (l q : Layer) (found out : Dict Layer)
      → take_layer wanted q found ≡ ok out
      → any_of (digest_eq l.source_digest) wanted ≡ true
      → ((q ≡ l) ⊎ (lookup l.source_digest.value found ≡ some l))
      → lookup l.source_digest.value out ≡ some l
  take_layer-lookup l q found out h w before = elim (take_layer-IsTaken q found out h) [
    | inl (other, same) ↦ elim before [
      | inl one ↦
          let unwanted = ap (λ p. any_of (digest_eq p.source_digest) wanted) (sym one) ∙ other in
          absurd (ground (arith, w, unwanted))
      | inr there ↦ ap (lookup l.source_digest.value) (sym same) ∙ there
    ]
    | inr (made, held) ↦
        let after =
          ap (lookup l.source_digest.value) (sym made)
          ∙ lookup-insert q.source_digest.value l.source_digest.value q found in
        elim (Bool-cases (text_eq q.source_digest.value l.source_digest.value)) [
          | inl same ↦
              let keys = (text_eq_iff q.source_digest.value l.source_digest.value).0 same in
              let one : q ≡ l = elim before [
                | inl one ↦ one
                | inr there ↦ elim held [
                  | inl nothing ↦
                      let bad : none ≡ some l =
                        sym nothing ∙ ap (λ k. lookup k found) keys ∙ there in
                      absurd (ground (arith, bad))
                  | inr own ↦
                      let both : some q ≡ some l =
                        sym own ∙ ap (λ k. lookup k found) keys ∙ there in
                      ground (arith, both)
                ]
              ] in
              after ∙ rw same (ap some one)
          | inr apart ↦ elim before [
            | inl one ↦
                let bad : text_eq q.source_digest.value l.source_digest.value ≡ true =
                  (text_eq_iff q.source_digest.value l.source_digest.value).1
                    (ap (λ p. p.source_digest.value) one) in
                absurd (ground (arith, bad, apart))
            | inr there ↦ after ∙ rw apart there
          ]
        ]
  ]

module _ {Raw : Type 0} (c : ImageCodecs Raw) (wanted : List Digest) where
  -- The callback of FindLayers.
  abbrev finding : Text → Raw → Dict Layer → Result (Dict Layer)
  finding key raw found = do r ← decode_record c raw; l ← decode_layer r; take_layer wanted l found

  scan_entries-lookup :
      (es : Dict Raw) (l : Layer) (found out : Dict Layer)
      → scan_entries finding es found ≡ ok out
      → any_of (digest_eq l.source_digest) wanted ≡ true
      → ((key : Text) × (raw : Raw) × (r : LayerRecord) × Has (key, raw) es
          × (decode_record c raw ≡ ok r)
          × (decode_layer r ≡ ok l))
        ⊎ (lookup l.source_digest.value found ≡ some l)
      → lookup l.source_digest.value out ≡ some l
  unfolding scan_entries
  scan_entries-lookup [] l found out h w (inl none_left) = absurd none_left.3
  scan_entries-lookup [] l found out h w (inr there) =
      let same : found ≡ out = ground (arith, h) in
      ap (lookup l.source_digest.value) (sym same) ∙ there
  scan_entries-lookup ((k, v) ∷ es) l found out h w before =
      let (next, e, rest) = >>=-eq-ok (finding k v found) h in
      let (r, g, h1) = >>=-eq-ok (decode_record c v) e in
      let (q, m, h2) = >>=-eq-ok (decode_layer r) h1 in
      let step = take_layer-lookup wanted l q found next h2 w in
      elim before [
        | inr there ↦ scan_entries-lookup es l next out rest w (inr (step (inr there)))
        | inl (key, raw, r', at_, read, decoded) ↦ elim at_ [
          | inr later ↦
              scan_entries-lookup es l next out rest w (inl (key, raw, r', later, read, decoded))
          | inl same ↦
              let raws : v ≡ raw = ap (λ p. p.1) same in
              let records : ok r ≡ ok r' = sym g ∙ ap (decode_record c) raws ∙ read in
              let one : r ≡ r' = ground (arith, records) in
              let layers : ok q ≡ ok l = sym m ∙ ap decode_layer one ∙ decoded in
              scan_entries-lookup es l next out rest w (inr (step (inl (ground (arith, layers)))))
        ]
      ]

  -- When FindLayers answers, every stored layer that decodes and whose source digest is wanted is
  -- in the answer under that digest, as it is stored, so that layers stored with one digest
  -- agree.
  pub find_layers_in-lookup :
      (t : Transaction Raw) (key : Text) (raw : Raw) (r : LayerRecord) (l : Layer)
      (out : Dict Layer)
      → find_layers_in c wanted t ≡ ok out
      → get t image_layers key ≡ ok (some raw)
      → decode_record c raw ≡ ok r
      → decode_layer r ≡ ok l
      → any_of (digest_eq l.source_digest) wanted ≡ true
      → lookup l.source_digest.value out ≡ some l
  unfolding find_layers_in scan get
  find_layers_in-lookup t key raw r l out h stored read decoded w =
      let (entries, e, rest) = >>=-eq-ok (collection t image_layers) h in
      let found : lookup key entries ≡ some raw = ground (arith, e, stored) in
      scan_entries-lookup (sort_entries entries) l [] out rest w (
        inl (
          key,
          raw,
          r,
          Has-sort_entries (key, raw) entries (Has-lookup (key, raw) entries found),
          read,
          decoded,
        ))
