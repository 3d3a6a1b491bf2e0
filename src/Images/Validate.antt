-- ===== src/Images/Validate.antt =====
-- internal/images/catalog.go: what an import must satisfy before it is committed.
pub mod Sound
use kuma_box.Prelude.{
  ℕ, ◌+◌, Bool, not, ◌||◌, List, [], ◌∷◌, any_of, length, ltb, ◌==◌, Text, text_eq, is_empty, ℤ,
  pos, lt_int, eq_int, amount,
}
use kuma_box.Errdefs.{Result, ok, err, plain, ◌>>=◌, ◌>>◌, refuse_if, or_else}
use kuma_box.Types.Ids.{is_zero_digest, digest_eq}
use kuma_box.Images.{BootFile, Layer, Descriptor, ImportCommit, is_valid_platform, boot_eq}
use kuma_box.Images.Selection.{is_boot_name, select_boot}

abbrev pub not_positive : ℤ → Bool
not_positive n = not (lt_int (pos 0) n)

-- 1<<63 - 1.
abbrev pub max_total : ℕ
max_total = 9223372036854775807

-- `seen` holds the names of the files before.
unfoldable pub validate_files : List Text → List BootFile → Result (Unit {0})
validate_files seen [] = ok tt
validate_files seen (f ∷ fs) = do
  refuse_if
      (not (is_boot_name f.name)
        || is_zero_digest f.digest
        || not_positive f.size
        || any_of (text_eq f.name) seen)
      plain
  validate_files (f.name ∷ seen) fs

unfoldable pub validate_whiteouts : List Text → Result (Unit {0})
validate_whiteouts [] = ok tt
validate_whiteouts (name ∷ names) = do
  refuse_if (not (is_boot_name name)) plain
  validate_whiteouts names

-- The sizes are int64 and those before are positive, so a total that is no longer an int64 is what
-- `size > (1<<63-1)-layer.Size` finds. The lists are equally long.
unfoldable pub validate_layers : ℕ → List Layer → List Descriptor → Result ℕ
unfolding validate_files validate_whiteouts
validate_layers size [] ds = ok size
validate_layers size (l ∷ ls) [] = err plain
validate_layers size (l ∷ ls) (d ∷ ds) = do
  refuse_if
      (is_zero_digest l.source_digest
        || is_zero_digest l.erofs_digest
        || not (digest_eq l.source_digest d.digest)
        || not_positive l.size
        || ltb max_total (size + amount l.size))
      plain
  validate_files [] l.boot_files
  validate_whiteouts l.whiteouts
  validate_layers (size + amount l.size) ls ds

unfoldable pub is_complete : ImportCommit → Bool
is_complete c = not (
    is_empty c.name
    || is_zero_digest c.manifest.digest
    || not (is_valid_platform c.manifest.platform)
    || length c.layers == 0
    || not (length c.layers == length c.manifest.layers)
    || c.created == 0)

-- ImportCommit.Validate.
unfoldable pub validate_commit : ImportCommit → Result (Unit {0})
unfolding validate_layers
validate_commit c = do
  refuse_if (not (is_complete c)) plain
  size ← validate_layers 0 c.layers c.manifest.layers
  boot ← or_else plain (select_boot c.layers)
  refuse_if
      (not (boot_eq (record boot { profile = c.manifest.boot_profile }) c.boot)
        || not (eq_int (pos size) c.size))
      plain
