-- ===== src/Images/Selection/Visible.antt =====
-- What the layers leave of the boot files: a file is there exactly if its own layer supplies it and
-- no layer above hides it.
use kuma_box.Prelude.{
  ◌≡◌, ◌⊎◌, ◌↔◌, refl, sym, ap, ◌∙◌, inl, inr, Bool, true, false, not, ◌||◌, List, [], ◌∷◌, ◌++◌,
  keep_if, Has, All, arith, Bool-cases, Text, text_eq, text_eq_iff,
}
use kuma_box.Types.Ids.{Digest}
use kuma_box.Images.{BootFile, Layer}
use kuma_box.Images.Selection.{Candidate, drop_named, hide_named, add_files, overlay, overlay_all}

unfoldable pub in_list : Text → List Text → Bool
in_list name [] = false
in_list name (x ∷ xs) = text_eq x name || in_list name xs

unfoldable pub in_files : Text → List BootFile → Bool
in_files name [] = false
in_files name (f ∷ fs) = text_eq f.name name || in_files name fs

-- The last file of its name.
abbrev pub IsLatest : BootFile → List BootFile → Type 0
IsLatest f [] = ⊥
IsLatest f (x ∷ xs) = ((x ≡ f) × (in_files f.name xs ≡ false)) ⊎ IsLatest f xs

-- A layer hides a name from the layers below: it is opaque, whites it out, or has its own.
abbrev pub hides : Layer → Text → Bool
hides l name = l.boot_opaque || in_list name l.whiteouts || in_files name l.boot_files

abbrev pub Supplies : Layer → Candidate → Type 0
Supplies l c = (c.layer ≡ l.source_digest) × IsLatest c.file l.boot_files

-- Some layer supplies the candidate, and none above hides its name.
abbrev pub IsVisible : Candidate → List Layer → Type 0
IsVisible c [] = ⊥
IsVisible c (l ∷ ls) = (Supplies l c × All (λ u. hides u c.file.name ≡ false) ls) ⊎ IsVisible c ls

Has-keep_if :
    (p : Candidate → Bool) (c : Candidate) (cs : List Candidate)
    → Has c (keep_if p cs) ↔ (Has c cs × (p c ≡ true))
unfolding keep_if
Has-keep_if p c [] = (λ h. absurd h, λ h. h.0)
Has-keep_if p c (x ∷ xs) = elim (Bool-cases (p x)) [
  | inl passes ↦ rw passes (
    λ h. elim h [
      | inl same ↦ (inl same, ap p (sym same) ∙ passes)
      | inr later ↦ let (there, ok) = (Has-keep_if p c xs).0 later in (inr there, ok)
    ],
    λ h. elim h.0 [ inl same ↦ inl same | inr later ↦ inr ((Has-keep_if p c xs).1 (later, h.1)) ],
  )
  | inr fails ↦ rw fails (
    λ h. let (there, ok) = (Has-keep_if p c xs).0 h in (inr there, ok),
    λ h. elim h.0 [
      | inl same ↦
          let bad : true ≡ false = sym h.1 ∙ ap p (sym same) ∙ fails in absurd (ground arith)
      | inr later ↦ (Has-keep_if p c xs).1 (later, h.1)
    ],
  )
]

Has-append : (c : Candidate) (xs ys : List Candidate) → Has c (xs ++ ys) ↔ (Has c xs ⊎ Has c ys)
Has-append c [] ys = (λ h. inr h, λ h. elim h [ inl none ↦ absurd none | inr there ↦ there ])
Has-append c (x ∷ xs) ys = (
  λ h. elim h [
    | inl same ↦ inl (inl same)
    | inr later ↦ elim ((Has-append c xs ys).0 later) [
      | inl left ↦ inl (inr left)
      | inr right ↦ inr right
    ]
  ],
  λ h. elim h [
    | inl there ↦ elim there [
      | inl same ↦ inl same
      | inr left ↦ inr ((Has-append c xs ys).1 (inl left))
    ]
    | inr right ↦ inr ((Has-append c xs ys).1 (inr right))
  ],
)

Has-drop_named :
    (name : Text) (c : Candidate) (cs : List Candidate)
    → Has c (drop_named name cs) ↔ (Has c cs × (text_eq name c.file.name ≡ false))
unfolding drop_named
Has-drop_named name c cs =
    let k = Has-keep_if (λ q. not (text_eq q.file.name name)) c cs in
    (
      λ h. (
        (k.0 h).0,
        ground (arith, (k.0 h).1, text_eq_iff name c.file.name, text_eq_iff c.file.name name),
      ),
      λ h.
          k.1
            (h.0, ground (arith, h.1, text_eq_iff name c.file.name, text_eq_iff c.file.name name)),
    )

Has-hide_named :
    (names : List Text) (c : Candidate) (cs : List Candidate)
    → Has c (hide_named names cs) ↔ (Has c cs × (in_list c.file.name names ≡ false))
unfolding hide_named in_list
Has-hide_named [] c cs = (λ h. (h, refl), λ h. h.0)
Has-hide_named (x ∷ xs) c cs =
    let rest = Has-hide_named xs c (drop_named x cs) in
    let first = Has-drop_named x c cs in
    (
      λ h. ((first.0 (rest.0 h).0).0, ground (arith, (rest.0 h).1, (first.0 (rest.0 h).0).1)),
      λ h. rest.1 (first.1 (h.0, ground (arith, h.1)), ground (arith, h.1)),
    )

abbrev pub added : Digest → BootFile → Candidate
added layer f = record { layer = layer; file = f }

Has-add_files :
    (layer : Digest) (fs : List BootFile) (c : Candidate) (cs : List Candidate)
    → Has c (add_files layer fs cs)
      ↔ (((c.layer ≡ layer) × IsLatest c.file fs) ⊎ (Has c cs × (in_files c.file.name fs ≡ false)))
unfolding add_files in_files
Has-add_files layer [] c cs =
    (λ h. inr (h, refl), λ h. elim h [ inl none ↦ absurd none.1 | inr there ↦ there.0 ])
Has-add_files layer (f ∷ fs) c cs =
    let rest = Has-add_files layer fs c (drop_named f.name cs ++ (added layer f ∷ [])) in
    let join = Has-append c (drop_named f.name cs) (added layer f ∷ []) in
    let first = Has-drop_named f.name c cs in
    (
      λ h. elim (rest.0 h) [
        | inl new ↦ inl (new.0, inr new.1)
        | inr old ↦ elim (join.0 old.0) [
          | inl below ↦ inr ((first.0 below).0, ground (arith, old.1, (first.0 below).1))
          | inr own ↦ elim own [
            | inl same ↦ inl (ap (λ q. q.layer) (sym same), inl (ap (λ q. q.file) same, old.1))
            | inr none ↦ absurd none
          ]
        ]
      ],
      λ h. elim h [
        | inl own ↦ elim own.1 [
          | inl last ↦ rest.1 (
              inr
                (join.1 (inr (inl (λ i. record { layer = sym own.0 i; file = last.0 i }))), last.1))
          | inr later ↦ rest.1 (inl (own.0, later))
        ]
        | inr below ↦ rest.1 (
            inr
              (join.1 (inl (first.1 (below.0, ground (arith, below.1)))), ground (arith, below.1)))
      ],
    )

Has-overlay :
    (l : Layer) (c : Candidate) (cs : List Candidate)
    → Has c (overlay l cs) ↔ (Supplies l c ⊎ (Has c cs × (hides l c.file.name ≡ false)))
unfolding overlay
Has-overlay l c cs = elim (Bool-cases l.boot_opaque) [
  | inl opaque ↦
      let files = Has-add_files l.source_digest l.boot_files c (hide_named l.whiteouts []) in
      let kept = Has-hide_named l.whiteouts c [] in
      rw opaque (
        λ h. elim (files.0 h) [ inl own ↦ inl own | inr below ↦ absurd ((kept.0 below.0).0) ],
        λ h. elim h [
          | inl own ↦ files.1 (inl own)
          | inr below ↦ let bad : true ≡ false = below.1 in absurd (ground arith)
        ],
      )
  | inr clear ↦
      let files = Has-add_files l.source_digest l.boot_files c (hide_named l.whiteouts cs) in
      let kept = Has-hide_named l.whiteouts c cs in
      rw clear (
        λ h. elim (files.0 h) [
          | inl own ↦ inl own
          | inr below ↦ inr ((kept.0 below.0).0, ground (arith, below.1, (kept.0 below.0).1))
        ],
        λ h. elim h [
          | inl own ↦ files.1 (inl own)
          | inr below ↦
              files.1 (inr (kept.1 (below.0, ground (arith, below.1)), ground (arith, below.1)))
        ],
      )
]

-- What is there before the layers stays if none of them hides it.
Has-overlay_onto :
    (ls : List Layer) (c : Candidate) (cs : List Candidate)
    → Has c (overlay_all ls cs)
      ↔ (IsVisible c ls ⊎ (Has c cs × All (λ u. hides u c.file.name ≡ false) ls))
unfolding overlay_all
Has-overlay_onto [] c cs =
    (λ h. inr (h, tt), λ h. elim h [ inl none ↦ absurd none | inr there ↦ there.0 ])
Has-overlay_onto (l ∷ ls) c cs =
    let rest = Has-overlay_onto ls c (overlay l cs) in
    let first = Has-overlay l c cs in
    (
      λ h. elim (rest.0 h) [
        | inl above ↦ inl (inr above)
        | inr below ↦ elim (first.0 below.0) [
          | inl own ↦ inl (inl (own, below.1))
          | inr old ↦ inr (old.0, (old.1, below.1))
        ]
      ],
      λ h. elim h [
        | inl seen ↦ elim seen [
          | inl own ↦ rest.1 (inr (first.1 (inl own.0), own.1))
          | inr above ↦ rest.1 (inl above)
        ]
        | inr old ↦ rest.1 (inr (first.1 (inr (old.0, old.1.0)), old.1.1))
      ],
    )

pub overlay_all-IsVisible :
    (ls : List Layer) (c : Candidate) → Has c (overlay_all ls []) ↔ IsVisible c ls
overlay_all-IsVisible ls c =
    let all = Has-overlay_onto ls c [] in
    (λ h. elim (all.0 h) [ inl seen ↦ seen | inr none ↦ absurd none.0 ], λ h. all.1 (inl h))
