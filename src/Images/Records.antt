-- ===== src/Images/Records.antt =====
-- internal/images/catalog/store.go: the stored form of an image and of its layers.
use kuma_box.Prelude.{ℕ, ◌-◌, zero, suc, Bool, not, ◌||◌, List, [], ◌∷◌, ◌++◌, length, Text, ℤ}
use kuma_box.Errdefs.{
  Failure, Result, ok, failure, corrupt, artifact_corrupt, ◌>>=◌, ◌>>◌, refuse_if, or_else,
}
use kuma_box.Types.Ids.{Digest, digest_string, parse_digest, is_zero_digest}
use kuma_box.Types.Text.{decimal}
use kuma_box.Sandboxes.Records.{Codec}
use kuma_box.Images.{BootFile, Layer, ImportCommit}
use kuma_box.Images.Selection.{is_boot_name}
use kuma_box.Images.Validate.{not_positive}

-- imageRecord.
pub record ImageRecord : Type 0 where
  pub manifest_digest : Text
  pub registry_reference : Text
  pub os : Text
  pub architecture : Text
  pub boot_profile : Text
  pub kernel_layer : Text
  pub kernel_file : Text
  pub initrd_file : Text
  pub initrd_layer : Text
  pub size : ℤ
  pub created_at : ℕ

-- nameRecord.
pub record ImageName : Type 0 where
  pub manifest_digest : Text

-- bootFileRecord.
pub record BootFileRecord : Type 0 where
  pub name : Text
  pub digest : Text
  pub size : ℤ

-- layerRecord.
pub record LayerRecord : Type 0 where
  pub manifest_digest : Text
  pub position : ℤ
  pub source_digest : Text
  pub erofs_digest : Text
  pub size : ℤ
  pub boot_files : List BootFileRecord
  pub whiteouts : List Text
  pub boot_opaque : Bool

-- encoding/json at the three types of this catalog.
pub record ImageCodecs (Raw : Type 0) : Type 0 where
  pub image_json : Codec Raw ImageRecord
  pub name_json : Codec Raw ImageName
  pub layer_json : Codec Raw LayerRecord

-- corruptRecord.
abbrev pub corrupt_image : Failure
corrupt_image = failure corrupt artifact_corrupt

-- fmt's %08d, of a number that is not negative.
unfoldable pub zeros : ℕ → Text
zeros zero = []
zeros (suc n) = b'0' ∷ zeros n

unfoldable pub eight_digits : ℕ → Text
unfolding zeros decimal
eight_digits n = zeros (8 - length (decimal n)) ++ decimal n

-- layerKey.
unfoldable pub layer_key : Digest → ℕ → Text
unfolding eight_digits digest_string
layer_key manifest position = digest_string manifest ++ (b'/' ∷ eight_digits position)

-- encodeBootFiles.
unfoldable pub encode_boot_files : List BootFile → List BootFileRecord
encode_boot_files [] = []
encode_boot_files (f ∷ fs) =
    record { name = f.name; digest = digest_string f.digest; size = f.size } ∷ encode_boot_files fs

-- The records that CommitImport writes.
unfoldable pub encode_layer : Digest → ℤ → Layer → LayerRecord
encode_layer manifest position l = record {
  manifest_digest = digest_string manifest;
  position = position;
  source_digest = digest_string l.source_digest;
  erofs_digest = digest_string l.erofs_digest;
  size = l.size;
  boot_files = encode_boot_files l.boot_files;
  whiteouts = l.whiteouts;
  boot_opaque = l.boot_opaque;
}

unfoldable pub encode_image : ImportCommit → ImageRecord
encode_image c = record {
  manifest_digest = digest_string c.manifest.digest;
  registry_reference = c.registry_reference;
  os = c.manifest.platform.os;
  architecture = c.manifest.platform.architecture;
  boot_profile = c.boot.profile;
  kernel_layer = digest_string c.boot.kernel_layer;
  kernel_file = c.boot.kernel_file;
  initrd_file = c.boot.initrd_file;
  initrd_layer = digest_string c.boot.initrd_layer;
  size = c.size;
  created_at = c.created;
}

unfoldable pub decode_boot_files : List BootFileRecord → Result (List BootFile)
decode_boot_files [] = ok []
decode_boot_files (f ∷ fs) = do
  digest ← or_else corrupt_image (parse_digest f.digest)
  refuse_if (not (is_boot_name f.name) || not_positive f.size) corrupt_image
  rest ← decode_boot_files fs
  ok (record { name = f.name; digest = digest; size = f.size } ∷ rest)

unfoldable pub check_whiteouts : List Text → Result (Unit {0})
check_whiteouts [] = ok tt
check_whiteouts (name ∷ names) = do
  refuse_if (not (is_boot_name name)) corrupt_image
  check_whiteouts names

-- decodeLayer.
unfoldable pub decode_layer : LayerRecord → Result Layer
unfolding decode_boot_files check_whiteouts
decode_layer r = do
  source ← or_else corrupt_image (parse_digest r.source_digest)
  erofs ← or_else corrupt_image (parse_digest r.erofs_digest)
  files ← decode_boot_files r.boot_files
  refuse_if (is_zero_digest source || is_zero_digest erofs || not_positive r.size) corrupt_image
  check_whiteouts r.whiteouts
  ok (record {
    source_digest = source;
    erofs_digest = erofs;
    size = r.size;
    boot_files = files;
    whiteouts = r.whiteouts;
    boot_opaque = r.boot_opaque;
  })
