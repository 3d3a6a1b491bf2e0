-- ===== src/Images/Operations.antt =====
-- CommitImport and Remove of internal/images/catalog/store.go. Of an error the source also returns
-- what Remove had collected; its callers do not read it.
use kuma_box.Prelude.{
  ℕ, suc, Bool, true, false, not, ◌&&◌, ◌||◌, Option, none, some, List, [], ◌∷◌, if◌then◌else◌,
  ◌==◌, Text, text_eq, is_empty, pos, eq_int,
}
use kuma_box.Errdefs.{
  Result, ok, err, plain, failure, conflict, invalid, invalid_argument, name_taken, referenced,
  ◌>>=◌, ◌>>◌, refuse_if, or_else,
}
use kuma_box.Types.Ids.{Digest, digest_string, digest_eq}
use kuma_box.Metadata.{Transaction, Store, Weather, get, put, delete, scan, update}
use kuma_box.Snapshots.Operations.{finished, after}
use kuma_box.Sandboxes.Records.{Codec}
use kuma_box.Images.{Image, Layer, ImportCommit, Removal, platform_eq, boot_eq, layer_eq, list_eq}
use kuma_box.Images.Validate.{validate_commit}
use kuma_box.Images.Records.{ImageCodecs, corrupt_image, layer_key, encode_layer, encode_image}
use kuma_box.Images.Access.{
  images, image_names, image_layers, decode_name, decode_image, load_image, resolve_image,
  layer_referenced,
}

-- putJSON.
unfoldable pub put_json :
    {Raw : Type 0} {A : Type 0}
    → Codec Raw A
    → Transaction Raw
    → Text
    → Text
    → A
    → Result (Transaction Raw)
put_json json t collection id value = elim (json.marshal value) [
  | none ↦ err plain
  | some raw ↦ put t collection id raw
]

-- The facts that an import of a known manifest may not change.
unfoldable pub same_facts : Image → ImportCommit → Bool
same_facts image c =
    platform_eq image.platform c.manifest.platform
    && boot_eq image.boot c.boot
    && eq_int image.size c.size
    && list_eq layer_eq image.layers c.layers

-- The check that core supplies: whether another module retains the image.
abbrev pub ImageUsage : Type 0 → Type 0
ImageUsage Raw = Option (Transaction Raw → Digest → Result Bool)

unfoldable pub changes_reference : ImportCommit → Image → Bool
changes_reference i image =
    not (is_empty i.registry_reference)
    && not (text_eq i.registry_reference image.registry_reference)

-- Remove deletes one exact alias, or all aliases for a digest reference.
unfoldable pub takes_name : Bool → Text → Text → Bool
takes_name all name reference = all || text_eq name reference

module _ {Raw : Type 0} where
  abbrev pub check_usage : ImageUsage Raw → Transaction Raw → Digest → Result (Unit {0})
  check_usage none t digest = ok tt
  check_usage (some in_use) t digest = do
    used ← in_use t digest
    refuse_if used (failure conflict referenced)

  abbrev pub removes_all : Option Raw → Bool
  removes_all none = true
  removes_all (some raw) = false

  -- Of the names of the image, those that Remove takes_name.
  unfoldable pub remove_names :
      Bool → Text → List Text → Transaction Raw → Result (List Text × Transaction Raw)
  remove_names all reference [] t = ok ([], t)
  remove_names all reference (name ∷ names) t = elim (takes_name all name reference) [
    | false ↦ remove_names all reference names t
    | true ↦ delete t image_names name >>= λ t'.
        remove_names all reference names t' >>= λ rest. ok (name ∷ rest.0, rest.1)
  ]

module _ {Raw : Type 0} (c : ImageCodecs Raw) where
  abbrev pub bind_alias : ImportCommit → Transaction Raw → Result (Transaction Raw)
  bind_alias i t =
      put_json c.name_json t image_names i.name
        (record { manifest_digest = digest_string i.manifest.digest })

  -- An alias of another image is not bound again.
  unfoldable pub check_alias : ImportCommit → Transaction Raw → Result (Unit {0})
  check_alias i t = do
    found ← get t image_names i.name
    elim found [
      | none ↦ ok tt
      | some raw ↦ (do
        n ← decode_name c raw
        refuse_if (not (text_eq n.manifest_digest (digest_string i.manifest.digest)))
            (failure conflict name_taken))
    ]

  abbrev pub update_reference :
      ImportCommit → Image → Raw → Transaction Raw → Result (Transaction Raw)
  update_reference i image raw t =
      if changes_reference i image
      then (do
        r ← decode_image c raw
        put_json c.image_json t images (digest_string i.manifest.digest)
            (record r { registry_reference = i.registry_reference }))
      else ok t

  unfoldable pub commit_again : ImportCommit → Raw → Transaction Raw → Result (Transaction Raw)
  commit_again i raw t = do
    image ← load_image c t (digest_string i.manifest.digest)
    refuse_if (not (same_facts image i)) corrupt_image
    t' ← update_reference i image raw t
    bind_alias i t'

  unfoldable pub put_layers : Digest → ℕ → List Layer → Transaction Raw → Result (Transaction Raw)
  unfolding put_json
  put_layers manifest position [] t = ok t
  put_layers manifest position (l ∷ ls) t = do
    t' ←
        put_json c.layer_json t image_layers (layer_key manifest position)
          (encode_layer manifest (pos position) l)
    put_layers manifest (suc position) ls t'

  unfoldable pub commit_new : ImportCommit → Transaction Raw → Result (Transaction Raw)
  unfolding put_layers
  commit_new i t = do
    t' ← put_json c.image_json t images (digest_string i.manifest.digest) (encode_image i)
    t'' ← put_layers i.manifest.digest 0 i.layers t'
    bind_alias i t''

  -- The callback of CommitImport.
  unfoldable pub commit_import_in :
      ImportCommit → Transaction Raw → Result (Unit {0} × Transaction Raw)
  unfolding check_alias commit_again commit_new
  commit_import_in i t = do
    check_alias i t
    found ← get t images (digest_string i.manifest.digest)
    t' ← elim found [ none ↦ commit_new i t | some raw ↦ commit_again i raw t ]
    ok (tt, t')

  -- CommitImport.
  unfoldable pub commit_import : Weather → Store Raw → ImportCommit → Result (Unit {0}) × Store Raw
  unfolding commit_import_in
  commit_import w store i =
      after (or_else (failure invalid invalid_argument) (validate_commit i)) store
        (finished false (update w (commit_import_in i) store))

  -- How many names a digest has left.
  unfoldable pub remaining : Text → Transaction Raw → Result ℕ
  remaining digest t =
      scan t image_names
        (λ key raw n. do
          r ← decode_name c raw
          ok (if text_eq r.manifest_digest digest then suc n else n))
        0

  unfoldable pub drop_layers :
      Digest → ℕ → List Layer → Transaction Raw → Result (List Digest × Transaction Raw)
  drop_layers manifest position [] t = ok ([], t)
  drop_layers manifest position (l ∷ ls) t = do
    t' ← delete t image_layers (layer_key manifest position)
    used ← layer_referenced c t' l.source_digest
    (free, t'') ← drop_layers manifest (suc position) ls t'
    ok (if used then free else l.source_digest ∷ free, t'')

  -- What is left to do when no name remains.
  unfoldable pub drop_image :
      ImageUsage Raw → Image → Transaction Raw → Result (List Digest × Transaction Raw)
  unfolding drop_layers
  drop_image usage image t = do
    check_usage usage t image.manifest_digest
    t' ← delete t images (digest_string image.manifest_digest)
    drop_layers image.manifest_digest 0 image.layers t'

  -- The callback of Remove.
  unfoldable pub remove_in :
      ImageUsage Raw → Text → Digest → Transaction Raw → Result (Removal × Transaction Raw)
  unfolding remove_names remaining drop_image
  remove_in usage reference expected t = do
    image ← resolve_image c t reference
    refuse_if (not (digest_eq image.manifest_digest expected)) (failure conflict name_taken)
    found ← get t image_names reference
    (names, t') ← remove_names (removes_all found) reference image.names t
    n ← remaining (digest_string image.manifest_digest) t'
    (layers, t'') ← if n == 0 then drop_image usage image t' else ok ([], t')
    ok (record { names = names; layers = layers }, t'')

  -- Remove.
  unfoldable pub remove :
      ImageUsage Raw → Weather → Store Raw → Text → Digest → Result Removal × Store Raw
  unfolding remove_in
  remove usage w store reference expected =
      finished false (update w (remove_in usage reference expected) store)
