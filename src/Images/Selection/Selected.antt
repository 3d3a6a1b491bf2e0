-- ===== src/Images/Selection/Selected.antt =====
-- SelectBoot chooses the topmost visible kernel and the topmost visible initrd, and fails only where
-- one of them is missing.
use kuma_box.Prelude.{
  ◌≡◌, ◌⊎◌, refl, sym, ap, ◌∙◌, inl, inr, Bool, true, false, Option, none, some, List, [], ◌∷◌,
  if◌then◌else◌, Has, All, arith, Bool-cases, Option-cases, Text, text, has_prefix,
}
use kuma_box.Errdefs.{Result, ok, err, failure, invalid, host_incompatible}
use kuma_box.Types.Ids.{Digest, is_zero_digest}
use kuma_box.Images.{Layer, Boot}
use kuma_box.Images.Selection.{
  Candidate, overlay_all, last_boot, take_kernel, take_initrd, no_boot, select_boot, zero_digest,
}
use kuma_box.Images.Selection.Visible.{IsVisible, overlay_all-IsVisible}
use kuma_box.Images.Selection.Topmost.{topmost, last_where, last_where-topmost}

-- The last candidate whose name begins so.
unfoldable pub last_with : Text → List Candidate → Option Candidate
last_with start [] = none
last_with start (x ∷ xs) = elim (last_with start xs) [
  | some c ↦ some c
  | none ↦ if has_prefix x.file.name start then some x else none
]

abbrev begins : Text → Text → Bool
begins start name = has_prefix name start

last_where-begins :
    (start : Text) (cs : List Candidate) → last_where (begins start) cs ≡ last_with start cs
unfolding last_where last_with
last_where-begins start [] = refl
last_where-begins start (x ∷ xs) = elim (Option-cases (last_with start xs)) [
  | inr (c, e) ↦ rw (last_where-begins start xs, e) refl
  | inl e ↦ rw (last_where-begins start xs, e) refl
]

last_with-topmost :
    (start : Text) (ls : List Layer)
    → last_with start (overlay_all ls []) ≡ topmost (begins start) ls
last_with-topmost start ls =
    sym (last_where-begins start (overlay_all ls [])) ∙ last_where-topmost (begins start) ls

last_with-Has :
    (start : Text) (cs : List Candidate) (c : Candidate)
    → last_with start cs ≡ some c
    → Has c cs × (has_prefix c.file.name start ≡ true)
unfolding last_with
last_with-Has start [] c h = absurd (ground arith)
last_with-Has start (x ∷ xs) c h = elim (Option-cases (last_with start xs)) [
  | inr (d, e) ↦
      let same : some d ≡ some c = rw e at h in
      let (there, named) = last_with-Has start xs c (e ∙ same) in (inr there, named)
  | inl e ↦ elim (Bool-cases (has_prefix x.file.name start)) [
    | inl named ↦
        let one : some x ≡ some c = rw (e, named) at h in
        let same : x ≡ c = ground arith in
        (inl same, ap (λ q. has_prefix q.file.name start) (sym same) ∙ named)
    | inr other ↦ let bad : none ≡ some c = rw (e, other) at h in absurd (ground arith)
  ]
]

last_with-none :
    (start : Text) (cs : List Candidate) (c : Candidate)
    → last_with start cs ≡ none
    → Has c cs
    → has_prefix c.file.name start ≡ false
unfolding last_with
last_with-none start [] c h there = absurd there
last_with-none start (x ∷ xs) c h there = elim (Option-cases (last_with start xs)) [
  | inr (d, e) ↦ let bad : some d ≡ none = rw e at h in absurd (ground arith)
  | inl e ↦ elim (Bool-cases (has_prefix x.file.name start)) [
    | inl named ↦ let bad : some x ≡ none = rw (e, named) at h in absurd (ground arith)
    | inr other ↦ elim there [
      | inl same ↦ ap (λ q. has_prefix q.file.name start) (sym same) ∙ other
      | inr later ↦ last_with-none start xs c e later
    ]
  ]
]

abbrev layer_of : Option Candidate → Digest → Digest
layer_of none d = d
layer_of (some c) d = c.layer

abbrev name_of : Option Candidate → Text → Text
name_of none n = n
name_of (some c) n = c.file.name

abbrev pub kernel_name : Text
kernel_name = text "vmlinuz"

abbrev pub initrd_name : Text
initrd_name = text "initrd.img"

-- The two kinds of boot file that the loop picks out.
abbrev Picks : List Candidate → Boot → Boot → Type 0
Picks cs b r =
    (r.kernel_layer ≡ layer_of (last_with kernel_name cs) b.kernel_layer)
    × (r.kernel_file ≡ name_of (last_with kernel_name cs) b.kernel_file)
    × (r.initrd_layer ≡ layer_of (last_with initrd_name cs) b.initrd_layer)
    × (r.initrd_file ≡ name_of (last_with initrd_name cs) b.initrd_file)

last_boot-Picks : (cs : List Candidate) (b : Boot) → Picks cs b (last_boot cs b)
unfolding last_boot last_with
last_boot-Picks [] b = (refl, refl, refl, refl)
last_boot-Picks (x ∷ xs) b =
    let (k, l, m, n) = last_boot-Picks xs (take_initrd x (take_kernel x b)) in
    (ground (arith, k), ground (arith, l), ground (arith, m), ground (arith, n))

-- A file is the topmost one whose name begins so, and it is visible.
pub record IsPicked (start : Text) (ls : List Layer) (layer : Digest) (name : Text) : Type 0 where
  pub candidate : Candidate
  pub last : topmost (λ n. has_prefix n start) ls ≡ some candidate
  pub visible : IsVisible candidate ls
  pub named : has_prefix candidate.file.name start ≡ true
  pub its_layer : layer ≡ candidate.layer
  pub its_name : name ≡ candidate.file.name

-- No layer leaves such a file visible.
abbrev pub IsMissing : Text → List Layer → Type 0
IsMissing start ls = ¬ ((c : Candidate) × IsVisible c ls × (has_prefix c.file.name start ≡ true))

abbrev pub IsChosen : List Layer → Result Boot → Type 0
IsChosen ls (ok b) =
    IsPicked kernel_name ls b.kernel_layer b.kernel_file
    × IsPicked initrd_name ls b.initrd_layer b.initrd_file
IsChosen ls (err f) =
    (f ≡ failure invalid host_incompatible) × (IsMissing kernel_name ls ⊎ IsMissing initrd_name ls)

visible_layer :
    (ls : List Layer) (c : Candidate)
    → All (λ l. is_zero_digest l.source_digest ≡ false) ls
    → IsVisible c ls
    → is_zero_digest c.layer ≡ false
visible_layer [] c all seen = absurd seen
visible_layer (l ∷ ls) c all (inl own) = ap is_zero_digest own.0.0 ∙ all.0
visible_layer (l ∷ ls) c all (inr above) = visible_layer ls c all.1 above

zero_is_zero : is_zero_digest zero_digest ≡ true
unfolding is_zero_digest
zero_is_zero = refl

-- A zero layer in the choice means that there was no candidate; any other is one's own.
picked :
    (start : Text) (ls : List Layer) (layer : Digest) (name : Text)
    → All (λ l. is_zero_digest l.source_digest ≡ false) ls
    → layer ≡ layer_of (last_with start (overlay_all ls [])) zero_digest
    → name ≡ name_of (last_with start (overlay_all ls [])) []
    → ((is_zero_digest layer ≡ false) × IsPicked start ls layer name)
      ⊎ ((is_zero_digest layer ≡ true) × IsMissing start ls)
picked start ls layer name all l n = elim (Option-cases (last_with start (overlay_all ls []))) [
  | inl e ↦
      let zero : layer ≡ zero_digest = rw e at l in
      inr (
        ap is_zero_digest zero ∙ zero_is_zero,
        λ seen.
            let no : has_prefix seen.0.file.name start ≡ false =
              last_with-none start (overlay_all ls []) seen.0 e
                ((overlay_all-IsVisible ls seen.0).1 seen.1) in
            absurd (ground (arith, seen.2, no)),
      )
  | inr (c, e) ↦
      let own : layer ≡ c.layer = rw e at l in
      let same : name ≡ c.file.name = rw e at n in
      let (there, starts) = last_with-Has start (overlay_all ls []) c e in
      let seen = (overlay_all-IsVisible ls c).0 there in
      inl (
        ap is_zero_digest own ∙ visible_layer ls c all seen,
        record {
          candidate = c;
          last = sym (last_with-topmost start ls) ∙ e;
          visible = seen;
          named = starts;
          its_layer = own;
          its_name = same;
        },
      )
]

-- Of layers with source digests that are not zero, the choice is, of kernels and of initrds each,
-- the last such file of the topmost layer that has one which no layer above hides by an opaque
-- mark, a whiteout or a file of that name; it fails, as incompatible, only where no visible file
-- is a kernel or none is an initrd.
pub select_boot-IsChosen :
    (ls : List Layer)
    → All (λ l. is_zero_digest l.source_digest ≡ false) ls
    → IsChosen ls (select_boot ls)
unfolding select_boot
select_boot-IsChosen ls all =
    let b = last_boot (overlay_all ls []) no_boot in
    let (k, l, m, n) = last_boot-Picks (overlay_all ls []) no_boot in
    elim (picked kernel_name ls b.kernel_layer b.kernel_file all k l) [
      | inr (zero, missing) ↦ rw zero (refl, inl missing)
      | inl (kept, kernel) ↦ elim (picked initrd_name ls b.initrd_layer b.initrd_file all m n) [
        | inr (zero, missing) ↦ rw (kept, zero) (refl, inr missing)
        | inl (found, initrd) ↦ rw (kept, found) (kernel, initrd)
      ]
    ]
