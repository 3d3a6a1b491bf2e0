-- ===== src/Images.antt =====
-- internal/types/image.go and internal/images/catalog.go: images, their layers, and what an import
-- commits.
pub mod Selection
pub mod Validate
pub mod Records
pub mod Access
pub mod Listing
pub mod Operations
pub mod Release
pub mod Loaded
pub mod Named
pub mod Retained
pub mod Writes
pub mod Imported
pub mod RoundTrip
use kuma_box.Prelude.{
  bool_eq, ℕ, Bool, ◌&&◌, ◌||◌, List, [], ◌∷◌, Text, text, text_eq, ℤ, eq_int, true, false, not,
}
use kuma_box.Types.Ids.{Digest, digest_eq}

pub record Platform : Type 0 where
  pub os : Text
  pub architecture : Text

-- Platform.Valid.
unfoldable pub is_valid_platform : Platform → Bool
is_valid_platform p =
    text_eq p.os (text "linux")
    && (text_eq p.architecture (text "amd64") || text_eq p.architecture (text "arm64"))

abbrev pub platform_eq : Platform → Platform → Bool
platform_eq a b = text_eq a.os b.os && text_eq a.architecture b.architecture

pub record BootFile : Type 0 where
  pub name : Text
  pub digest : Digest
  pub size : ℤ

pub record Layer : Type 0 where
  pub source_digest : Digest
  pub erofs_digest : Digest
  pub size : ℤ
  pub boot_files : List BootFile
  pub whiteouts : List Text
  pub boot_opaque : Bool

pub record Boot : Type 0 where
  pub profile : Text
  pub kernel_file : Text
  pub initrd_file : Text
  pub kernel_layer : Digest
  pub initrd_layer : Digest

pub record Image : Type 0 where
  pub names : List Text
  pub registry_reference : Text
  pub manifest_digest : Digest
  pub platform : Platform
  pub layers : List Layer
  pub boot : Boot
  pub size : ℤ
  pub created_at : ℕ

pub record Descriptor : Type 0 where
  pub digest : Digest
  pub size : ℤ

pub record Manifest : Type 0 where
  pub digest : Digest
  pub platform : Platform
  pub boot_profile : Text
  pub layers : List Descriptor

pub record ImportCommit : Type 0 where
  pub name : Text
  pub registry_reference : Text
  pub manifest : Manifest
  pub layers : List Layer
  pub boot : Boot
  pub size : ℤ
  pub created : ℕ

pub record Removal : Type 0 where
  pub names : List Text
  pub layers : List Digest

-- == on boot files, and slices.Equal.
abbrev pub file_eq : BootFile → BootFile → Bool
file_eq a b = text_eq a.name b.name && digest_eq a.digest b.digest && eq_int a.size b.size

unfoldable pub list_eq {ℓ} : {A : Type ℓ} → (A → A → Bool) → List A → List A → Bool
list_eq eq [] [] = true
list_eq eq [] (y ∷ ys) = false
list_eq eq (x ∷ xs) [] = false
list_eq eq (x ∷ xs) (y ∷ ys) = eq x y && list_eq eq xs ys

-- Layer.Equal.
unfoldable pub layer_eq : Layer → Layer → Bool
unfolding list_eq
layer_eq a b =
    digest_eq a.source_digest b.source_digest
    && digest_eq a.erofs_digest b.erofs_digest
    && eq_int a.size b.size
    && bool_eq a.boot_opaque b.boot_opaque
    && list_eq file_eq a.boot_files b.boot_files
    && list_eq text_eq a.whiteouts b.whiteouts

-- == on Boot.
abbrev pub boot_eq : Boot → Boot → Bool
boot_eq a b =
    text_eq a.profile b.profile
    && text_eq a.kernel_file b.kernel_file
    && text_eq a.initrd_file b.initrd_file
    && digest_eq a.kernel_layer b.kernel_layer
    && digest_eq a.initrd_layer b.initrd_layer
