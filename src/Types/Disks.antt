-- ===== src/Types/Disks.antt =====
-- internal/types/sandbox.go: managed data disks and the names they get.
pub mod Fresh
pub mod Resolve
pub mod Taken
pub mod Names
use kuma_box.Prelude.{
  ℕ, zero, suc, ◌+◌, Bool, true, false, not, ◌&&◌, ◌||◌, Option, none, some, List, [], ◌∷◌, ◌++◌,
  if◌then◌else◌, ltb, length, any_of, Text, text, text_eq, is_empty, has_prefix, ℤ, pos, lt_int,
}
use kuma_box.Errdefs.{Result, ok, err, plain, ◌>>=◌, ◌>>◌, refuse_if}
use kuma_box.Types.Text.{is_data_disk_name}
use Fresh.{contains, candidate, fresh}

pub record DataDiskSpec : Type 0 where
  pub name : Text
  pub size : ℤ
  pub fs_type : Text
  pub direct_io : Option Bool

-- MinDataDiskSize.
abbrev pub min_data_disk_size : ℕ
min_data_disk_size = 16777216

-- MaxDataDisks.
abbrev pub max_data_disks : ℕ
max_data_disks = 32

unfoldable pub validate_disk : DataDiskSpec → Result (Unit {0})
unfolding is_data_disk_name has_prefix text_eq
validate_disk d = do
  refuse_if (not (is_data_disk_name d.name) || has_prefix d.name (text "kumabox-")) plain
  refuse_if (lt_int d.size (pos min_data_disk_size)) plain
  refuse_if (not (text_eq d.fs_type (text "ext4")) && not (text_eq d.fs_type (text "none"))) plain
  ok tt

-- The first loop: the inherited disks keep their names and their order.
unfoldable pub take_inherited : List Text → List DataDiskSpec → Result (List Text)
take_inherited used [] = ok used
take_inherited used (d ∷ ds) =
    let rest = take_inherited (d.name ∷ used) ds in
    do validate_disk d; refuse_if (contains used d.name) plain; rest

-- The second loop: explicit names are reserved before any name is made up.
unfoldable pub take_named : List Text → List DataDiskSpec → Result (List Text)
take_named used [] = ok used
take_named used (d ∷ ds) =
    let skipped = take_named used ds in
    let rest = take_named (d.name ∷ used) ds in
    if is_empty d.name
    then skipped
    else do validate_disk d; refuse_if (contains used d.name) plain; rest

-- What one round of the third loop appends, with the names in use and the next index.
unfoldable pub named_disk : List Text → ℕ → DataDiskSpec → Option (DataDiskSpec × List Text × ℕ)
unfolding fresh candidate
named_disk used index d =
    if is_empty d.name
    then elim (fresh (suc (length used)) used index) [
      | none ↦ none
      | some i ↦ some (record d { name = candidate i }, candidate i ∷ used, i + 1)
    ]
    else some (d, used, index)

-- The third loop. `none` from `named_disk` would be the naming loop running for ever.
unfoldable pub append_additions :
    List Text → ℕ → List DataDiskSpec → Option (Result (List DataDiskSpec))
append_additions used index [] = some (ok [])
append_additions used index (d ∷ ds) = elim (named_disk used index d) [
  | none ↦ none
  | some (d', used', index') ↦ elim (append_additions used' index' ds) [
    | none ↦ none
    | some rest ↦ some (do validate_disk d'; more ← rest; ok (d' ∷ more))
  ]
]

abbrev prepend : List DataDiskSpec → Result (List DataDiskSpec) → Result (List DataDiskSpec)
prepend ds (ok more) = ok (ds ++ more)
prepend ds (err e) = err e

abbrev finish :
    List DataDiskSpec → Option (Result (List DataDiskSpec)) → Option (Result (List DataDiskSpec))
finish ds none = none
finish ds (some r) = some (prepend ds r)

abbrev after_names :
    List DataDiskSpec → List DataDiskSpec → Result (List Text) → Option (Result (List DataDiskSpec))
after_names inherited additions (err e) = some (err e)
after_names inherited additions (ok used) = finish inherited (append_additions used 1 additions)

-- ResolveDataDisks; `none` is a run that does not end.
unfoldable pub resolve_data_disks :
    List DataDiskSpec → List DataDiskSpec → Option (Result (List DataDiskSpec))
unfolding take_inherited take_named append_additions
resolve_data_disks inherited additions =
    if ltb max_data_disks (length inherited + length additions)
    then some (err plain)
    else after_names inherited additions
        (do used ← take_inherited [] inherited; take_named used additions)
