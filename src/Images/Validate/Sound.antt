-- ===== src/Images/Validate/Sound.antt =====
-- What an accepted import is known to satisfy.
use kuma_box.Prelude.{
  ℕ, ◌+◌, ◌≤◌, ◌≡◌, refl, ap, sym, ◌∙◌, inl, inr, true, false, List, [], ◌∷◌, map, All, arith,
  length, text_eq_sound, pos, eq_int, eq_int_sound, amount, subst,
}
use kuma_box.Errdefs.{ok, Result-cases}
use kuma_box.Types.Ids.{Digest, is_zero_digest, digest_eq}
use kuma_box.Images.{Boot, Layer, Descriptor, ImportCommit, boot_eq}
use kuma_box.Images.Selection.{select_boot}
use kuma_box.Images.Selection.Selected.{
  IsPicked, IsChosen, kernel_name, initrd_name, select_boot-IsChosen,
}
use kuma_box.Images.Validate.{max_total, validate_layers, is_complete, validate_commit}

unfoldable pub layers_size : List Layer → ℕ
layers_size [] = 0
layers_size (l ∷ ls) = amount l.size + layers_size ls

pub digest_eq_sound : (a b : Digest) → digest_eq a b ≡ true → a ≡ b
digest_eq_sound a b h = let same = text_eq_sound a.value b.value h in λ i. record { value = same i }

-- What the loop over the layers has found, from a running total on.
abbrev IsAccepted : ℕ → List Layer → List Descriptor → ℕ → Type 0
IsAccepted size ls ds out =
    (out ≡ size + layers_size ls)
    × (size ≤ max_total → out ≤ max_total)
    × (length ls ≡ length ds → map (λ d. d.digest) ds ≡ map (λ l. l.source_digest) ls)
    × All (λ l. is_zero_digest l.source_digest ≡ false) ls

validate_layers-IsAccepted :
    (size : ℕ) (ls : List Layer) (ds : List Descriptor) (out : ℕ)
    → validate_layers size ls ds ≡ ok out
    → IsAccepted size ls ds out
unfolding validate_layers layers_size
validate_layers-IsAccepted size [] [] out h = (ground arith, λ k. ground arith, λ k. refl, tt)
validate_layers-IsAccepted size [] (d ∷ ds) out h =
    (ground arith, λ k. ground arith, λ k. absurd (ground arith), tt)
validate_layers-IsAccepted size (l ∷ ls) [] out h = absurd (ground arith)
validate_layers-IsAccepted size (l ∷ ls) (d ∷ ds) out h =
    let next = size + amount l.size in
    let rest : validate_layers next ls ds ≡ ok out = ground arith in
    let fits : next ≤ max_total = ground arith in
    let same : digest_eq l.source_digest d.digest ≡ true = ground arith in
    let nonzero : is_zero_digest l.source_digest ≡ false = ground arith in
    let (total, bounded, digests, all) = validate_layers-IsAccepted next ls ds out rest in
    (
      omega (arith, total),
      λ k. bounded fits,
      λ k. cc (digest_eq_sound l.source_digest d.digest same, digests (ground (arith, k))),
      (nonzero, all),
    )

-- Descriptors and layers agree, the sizes add up within int64, and the boot files are the
-- topmost visible ones.
pub record IsConsistent (c : ImportCommit) : Type 0 where
  pub digests : map (λ d. d.digest) c.manifest.layers ≡ map (λ l. l.source_digest) c.layers
  pub total : c.size ≡ pos (layers_size c.layers)
  pub bounded : layers_size c.layers ≤ max_total
  pub profile : c.boot.profile ≡ c.manifest.boot_profile
  pub kernel : IsPicked kernel_name c.layers c.boot.kernel_layer c.boot.kernel_file
  pub initrd : IsPicked initrd_name c.layers c.boot.initrd_layer c.boot.initrd_file

boot_eq_sound : (a b : Boot) → boot_eq a b ≡ true → a ≡ b
boot_eq_sound a b h =
    let profile = text_eq_sound a.profile b.profile (ground arith) in
    let kernel_file = text_eq_sound a.kernel_file b.kernel_file (ground arith) in
    let initrd_file = text_eq_sound a.initrd_file b.initrd_file (ground arith) in
    let kernel_layer = digest_eq_sound a.kernel_layer b.kernel_layer (ground arith) in
    let initrd_layer = digest_eq_sound a.initrd_layer b.initrd_layer (ground arith) in
    λ i. record {
      profile = profile i;
      kernel_file = kernel_file i;
      initrd_file = initrd_file i;
      kernel_layer = kernel_layer i;
      initrd_layer = initrd_layer i;
    }

is_complete-lengths :
    (c : ImportCommit) → is_complete c ≡ true → length c.layers ≡ length c.manifest.layers
unfolding is_complete
is_complete-lengths c h = ground arith

-- An accepted import has the layers of its manifest in order, a size that is the sum of the sizes
-- of its layers and fits in an int64, and as kernel and initrd the last such file of the topmost
-- layer that has one which no layer above hides.
pub validate_commit-IsConsistent : (c : ImportCommit) → validate_commit c ≡ ok tt → IsConsistent c
unfolding validate_commit
validate_commit-IsConsistent c h =
    elim (Result-cases (validate_layers 0 c.layers c.manifest.layers)) [
      | inr (f, e) ↦ absurd (ground arith)
      | inl (size, e) ↦ elim (Result-cases (select_boot c.layers)) [
        | inr (f, k) ↦ absurd (ground arith)
        | inl (boot, k) ↦
            let complete : is_complete c ≡ true = ground arith in
            let fields : boot_eq (record boot { profile = c.manifest.boot_profile }) c.boot ≡ true =
              ground arith in
            let sum : eq_int (pos size) c.size ≡ true = ground arith in
            let (total, bounded, digests, all) =
              validate_layers-IsAccepted 0 c.layers c.manifest.layers size e in
            let whole : size ≡ layers_size c.layers = omega (arith, total) in
            let same =
              boot_eq_sound (record boot { profile = c.manifest.boot_profile }) c.boot fields in
            let chosen : IsChosen c.layers (ok boot) =
              subst (IsChosen c.layers) k (select_boot-IsChosen c.layers all) in
            record {
              digests = digests (is_complete-lengths c complete);
              total = sym (eq_int_sound (pos size) c.size sum) ∙ ap pos whole;
              bounded = ground (arith, bounded, whole);
              profile = ap (λ b. b.profile) (sym same);
              kernel =
                  subst (λ b. IsPicked kernel_name c.layers b.kernel_layer b.kernel_file) same
                    chosen.0;
              initrd =
                  subst (λ b. IsPicked initrd_name c.layers b.initrd_layer b.initrd_file) same
                    chosen.1;
            }
      ]
    ]
