-- ===== src/Images/Selection.antt =====
-- internal/images/boot.go: the kernel and the initrd that survive the layers.
pub mod Visible
pub mod Topmost
pub mod Selected
use kuma_box.Prelude.{
  ℕ, Bool, true, false, not, ◌&&◌, ◌||◌, ◌==◌, List, [], ◌∷◌, ◌++◌, if◌then◌else◌, keep_if, any_of,
  length, drop, ltb, ◌-◌, Text, text, text_eq, is_empty, has_prefix,
}
use kuma_box.Errdefs.{Result, ok, err, failure, invalid, host_incompatible, ◌>>◌, refuse_if}
use kuma_box.Types.Ids.{Digest, is_zero_digest}
use kuma_box.Images.{BootFile, Layer, Boot}

-- strings.HasSuffix.
unfoldable pub has_suffix : Text → Text → Bool
has_suffix s suffix =
    not (ltb (length s) (length suffix)) && text_eq (drop (length s - length suffix) s) suffix

-- filepath.Base on Linux, without its trailing slashes: what follows the last slash.
unfoldable pub without_slashes : Text → Text
without_slashes [] = []
without_slashes (c ∷ s) =
    let rest = without_slashes s in if c == b'/' && is_empty rest then [] else c ∷ rest

unfoldable pub has_slash : Text → Bool
has_slash s = any_of (λ c. c == b'/') s

unfoldable pub after_slash : Text → Text
after_slash [] = []
after_slash (c ∷ s) =
    let rest = after_slash s in
    if has_slash (c ∷ s) then (if has_slash s then rest else s) else c ∷ s

-- filepath.Base.
unfoldable pub base_name : Text → Text
base_name [] = text "."
base_name (c ∷ s) =
    if is_empty (without_slashes (c ∷ s)) then text "/" else after_slash (without_slashes (c ∷ s))

-- IsBootName.
unfoldable pub is_boot_name : Text → Bool
is_boot_name name =
    text_eq (base_name name) name
    && not (has_suffix name (text ".old"))
    && (has_prefix name (text "vmlinuz") || has_prefix name (text "initrd.img"))

-- candidate.
pub record Candidate : Type 0 where
  pub layer : Digest
  pub file : BootFile

unfoldable pub drop_named : Text → List Candidate → List Candidate
drop_named name cs = keep_if (λ c. not (text_eq c.file.name name)) cs

unfoldable pub hide_named : List Text → List Candidate → List Candidate
hide_named [] cs = cs
hide_named (name ∷ names) cs = hide_named names (drop_named name cs)

unfoldable pub add_files : Digest → List BootFile → List Candidate → List Candidate
add_files layer [] cs = cs
add_files layer (f ∷ fs) cs =
    add_files layer fs (drop_named f.name cs ++ (record { layer = layer; file = f } ∷ []))

-- One layer over the candidates of the layers below.
unfoldable pub overlay : Layer → List Candidate → List Candidate
overlay l cs =
    add_files l.source_digest l.boot_files
      (hide_named l.whiteouts (if l.boot_opaque then [] else cs))

unfoldable pub overlay_all : List Layer → List Candidate → List Candidate
overlay_all [] cs = cs
overlay_all (l ∷ ls) cs = overlay_all ls (overlay l cs)

abbrev pub zero_digest : Digest
zero_digest = record {
  value =
      0 ∷ 0 ∷ 0 ∷ 0 ∷ 0 ∷ 0 ∷ 0 ∷ 0 ∷ 0 ∷ 0 ∷ 0 ∷ 0 ∷ 0 ∷ 0 ∷ 0 ∷ 0 ∷ 0 ∷ 0 ∷ 0 ∷ 0 ∷ 0 ∷ 0 ∷ 0 ∷ 0
      ∷ 0 ∷ 0 ∷ 0 ∷ 0 ∷ 0 ∷ 0 ∷ 0 ∷ 0 ∷ [];
}

abbrev pub no_boot : Boot
no_boot = record {
  profile = [];
  kernel_file = [];
  initrd_file = [];
  kernel_layer = zero_digest;
  initrd_layer = zero_digest;
}

abbrev pub take_kernel : Candidate → Boot → Boot
take_kernel c b =
    if has_prefix c.file.name (text "vmlinuz")
    then record b { kernel_layer = c.layer; kernel_file = c.file.name }
    else b

abbrev pub take_initrd : Candidate → Boot → Boot
take_initrd c b =
    if has_prefix c.file.name (text "initrd.img")
    then record b { initrd_layer = c.layer; initrd_file = c.file.name }
    else b

-- The last candidate of each kind.
unfoldable pub last_boot : List Candidate → Boot → Boot
last_boot [] b = b
last_boot (c ∷ cs) b = last_boot cs (take_initrd c (take_kernel c b))

-- SelectBoot.
unfoldable pub select_boot : List Layer → Result Boot
unfolding overlay_all last_boot
select_boot layers = do
  let boot = last_boot (overlay_all layers []) no_boot
  refuse_if (is_zero_digest boot.kernel_layer) (failure invalid host_incompatible)
  refuse_if (is_zero_digest boot.initrd_layer) (failure invalid host_incompatible)
  ok boot
