-- ===== src/Images/Selection/Topmost.antt =====
-- The order in which SelectBoot prefers boot files, described without its list of candidates: a layer
-- above goes before those below, and within a layer a later file before an earlier one.
use kuma_box.Prelude.{
  ◌≡◌, refl, sym, ap, ◌∙◌, inl, inr, Bool, true, false, not, ◌&&◌, ◌||◌, Option, none, some, List,
  [], ◌∷◌, ◌++◌, if◌then◌else◌, keep_if, arith, Bool-cases, Option-cases, Text, text_eq,
  text_eq_iff,
}
use kuma_box.Types.Ids.{Digest}
use kuma_box.Images.{BootFile, Layer}
use kuma_box.Images.Selection.{Candidate, drop_named, hide_named, add_files, overlay, overlay_all}
use kuma_box.Images.Selection.Visible.{hides, in_list, in_files, added}

-- Some layer above hides the name.
unfoldable pub hidden : List Layer → Text → Bool
hidden [] name = false
hidden (u ∷ us) name = hides u name || hidden us name

-- The last file of a layer whose name passes.
unfoldable pub last_file : (Text → Bool) → List BootFile → Option BootFile
last_file p [] = none
last_file p (f ∷ fs) = elim (last_file p fs) [
  | some g ↦ some g
  | none ↦ if p f.name then some f else none
]

abbrev pub supplied : Digest → Option BootFile → Option Candidate
supplied layer none = none
supplied layer (some f) = some (added layer f)

abbrev pub or_below : Option Candidate → Option Candidate → Option Candidate
or_below none o = o
or_below (some c) o = some c

-- From the top layer down, the last file of a layer whose name passes and that no layer above hides.
unfoldable pub topmost : (Text → Bool) → List Layer → Option Candidate
unfolding hidden last_file
topmost p [] = none
topmost p (l ∷ ls) =
    or_below (topmost p ls)
      (supplied l.source_digest (last_file (λ n. p n && not (hidden ls n)) l.boot_files))

-- The last candidate of a list whose name passes.
unfoldable pub last_where : (Text → Bool) → List Candidate → Option Candidate
last_where p [] = none
last_where p (c ∷ cs) = or_below (last_where p cs) (if p c.file.name then some c else none)

or_below_assoc : (a b c : Option Candidate) → or_below (or_below a b) c ≡ or_below a (or_below b c)
or_below_assoc none b c = refl
or_below_assoc (some x) b c = refl

or_below-none : (o : Option Candidate) → or_below o none ≡ o
or_below-none none = refl
or_below-none (some c) = refl

last_where_same :
    (p q : Text → Bool) (cs : List Candidate)
    → ((n : Text) → p n ≡ q n)
    → last_where p cs ≡ last_where q cs
last_where_same p q cs h = ap (λ f. last_where f cs) (λ i n. h n i)

last_where-append :
    (p : Text → Bool) (xs ys : List Candidate)
    → last_where p (xs ++ ys) ≡ or_below (last_where p ys) (last_where p xs)
unfolding last_where
last_where-append p [] ys = sym (or_below-none (last_where p ys))
last_where-append p (x ∷ xs) ys =
    ap (λ o. or_below o (if p x.file.name then some x else none)) (last_where-append p xs ys)
    ∙ or_below_assoc (last_where p ys) (last_where p xs) (if p x.file.name then some x else none)

last_where-keep_if :
    (p q : Text → Bool) (cs : List Candidate)
    → last_where p (keep_if (λ c. q c.file.name) cs) ≡ last_where (λ n. p n && q n) cs
unfolding last_where keep_if
last_where-keep_if p q [] = refl
last_where-keep_if p q (c ∷ cs) = elim (Bool-cases (q c.file.name)) [
  | inl kept ↦ ground (arith, kept, last_where-keep_if p q cs)
  | inr gone ↦
      let rest = last_where-keep_if p q cs in
      ground (arith, gone, rest, or_below-none (last_where (λ n. p n && q n) cs))
]

last_where-drop_named :
    (p : Text → Bool) (name : Text) (cs : List Candidate)
    → last_where p (drop_named name cs) ≡ last_where (λ n. p n && not (text_eq n name)) cs
unfolding drop_named
last_where-drop_named p name cs = last_where-keep_if p (λ n. not (text_eq n name)) cs

last_where-hide_named :
    (p : Text → Bool) (names : List Text) (cs : List Candidate)
    → last_where p (hide_named names cs) ≡ last_where (λ n. p n && not (in_list n names)) cs
unfolding hide_named in_list
last_where-hide_named p [] cs = last_where_same p (λ n. p n && true) cs (λ n. ground arith)
last_where-hide_named p (x ∷ xs) cs =
    last_where-hide_named p xs (drop_named x cs)
    ∙ last_where-drop_named (λ n. p n && not (in_list n xs)) x cs
    ∙ last_where_same _ _ cs (λ n. ground (arith, text_eq_iff n x, text_eq_iff x n))

last_file-none :
    (p : Text → Bool) (name : Text) (fs : List BootFile)
    → last_file p fs ≡ none
    → p name ≡ true
    → in_files name fs ≡ false
unfolding last_file in_files
last_file-none p name [] h w = refl
last_file-none p name (f ∷ fs) h w = elim (Option-cases (last_file p fs)) [
  | inr (g, e) ↦ let bad : some g ≡ none = rw e at h in absurd (ground (arith, bad))
  | inl e ↦
      let rest = last_file-none p name fs e w in
      elim (Bool-cases (text_eq f.name name)) [
        | inr other ↦ ground (arith, other, rest)
        | inl same ↦
            let passes : p f.name ≡ true = ap p ((text_eq_iff f.name name).0 same) ∙ w in
            let bad : some f ≡ none = rw (e, passes) at h in absurd (ground (arith, bad))
      ]
]

last_where-add_files :
    (p : Text → Bool) (layer : Digest) (fs : List BootFile) (cs : List Candidate)
    → last_where p (add_files layer fs cs)
      ≡ or_below (supplied layer (last_file p fs)) (last_where (λ n. p n && not (in_files n fs)) cs)
unfolding add_files last_file in_files last_where
last_where-add_files p layer [] cs = last_where_same p (λ n. p n && true) cs (λ n. ground arith)
last_where-add_files p layer (f ∷ fs) cs =
    last_where-add_files p layer fs (drop_named f.name cs ++ (added layer f ∷ []))
    ∙ ap (or_below (supplied layer (last_file p fs))) (
        last_where-append p1 (drop_named f.name cs) (added layer f ∷ [])
        ∙ ap (or_below (if p1 f.name then some (added layer f) else none))
            (last_where-drop_named p1 f.name cs ∙ last_where_same _ p2 cs same))
    ∙ joined
  where
    p1 : Text → Bool
    p1 n = p n && not (in_files n fs)

    p2 : Text → Bool
    p2 n = p n && not (in_files n (f ∷ fs))

    same : (n : Text) → (p1 n && not (text_eq n f.name)) ≡ p2 n
    same n = ground (arith, text_eq_iff n f.name, text_eq_iff f.name n)

    joined :
        or_below
          (supplied layer (last_file p fs))
          (or_below (if p1 f.name then some (added layer f) else none) (last_where p2 cs))
        ≡ or_below (supplied layer (last_file p (f ∷ fs))) (last_where p2 cs)
    joined = elim (Option-cases (last_file p fs)) [
      | inr (g, e) ↦ rw e refl
      | inl e ↦ elim (Bool-cases (p f.name)) [
        | inr fails ↦ rw (e, fails) refl
        | inl passes ↦ rw (e, passes, last_file-none p f.name fs e passes) refl
      ]
    ]

last_where-none :
    (q : Text → Bool) (cs : List Candidate) → ((n : Text) → q n ≡ false) → last_where q cs ≡ none
unfolding last_where
last_where-none q [] h = refl
last_where-none q (c ∷ cs) h = rw (last_where-none q cs h, h c.file.name) refl

opaque_below :
    (p : Text → Bool) (l : Layer) (cs : List Candidate)
    → last_where
        (λ n. p n && not (in_files n l.boot_files) && not (in_list n l.whiteouts))
        (if l.boot_opaque then [] else cs)
      ≡ last_where (λ n. p n && not (hides l n)) cs
unfolding last_where
opaque_below p l cs = elim (Bool-cases l.boot_opaque) [
  | inl whole ↦ rw whole (sym (last_where-none _ cs (λ n. ground (arith, whole))))
  | inr clear ↦ rw clear (last_where_same _ _ cs (λ n. ground (arith, clear)))
]

last_where-overlay :
    (p : Text → Bool) (l : Layer) (cs : List Candidate)
    → last_where p (overlay l cs)
      ≡ or_below
          (supplied l.source_digest (last_file p l.boot_files))
          (last_where (λ n. p n && not (hides l n)) cs)
unfolding overlay
last_where-overlay p l cs =
    let below = if l.boot_opaque then [] else cs in
    last_where-add_files p l.source_digest l.boot_files (hide_named l.whiteouts below)
    ∙ ap (or_below (supplied l.source_digest (last_file p l.boot_files))) (
        last_where-hide_named (λ n. p n && not (in_files n l.boot_files)) l.whiteouts below
        ∙ opaque_below p l cs)

last_where-overlay_all :
    (p : Text → Bool) (ls : List Layer) (cs : List Candidate)
    → last_where p (overlay_all ls cs)
      ≡ or_below (topmost p ls) (last_where (λ n. p n && not (hidden ls n)) cs)
unfolding overlay_all topmost hidden
last_where-overlay_all p [] cs = last_where_same p (λ n. p n && true) cs (λ n. ground arith)
last_where-overlay_all p (l ∷ ls) cs =
    last_where-overlay_all p ls (overlay l cs)
    ∙ ap (or_below (topmost p ls)) (
        last_where-overlay above l cs
        ∙ ap (or_below own) (last_where_same _ _ cs (λ n. ground arith)))
    ∙ sym (or_below_assoc (topmost p ls) own (last_where (λ n. p n && not (hidden (l ∷ ls) n)) cs))
  where
    above : Text → Bool
    above n = p n && not (hidden ls n)

    own : Option Candidate
    own = supplied l.source_digest (last_file above l.boot_files)

-- The last candidate of a kind that the layers leave is the topmost one.
pub last_where-topmost :
    (p : Text → Bool) (ls : List Layer) → last_where p (overlay_all ls []) ≡ topmost p ls
unfolding last_where
last_where-topmost p ls = last_where-overlay_all p ls [] ∙ or_below-none (topmost p ls)
