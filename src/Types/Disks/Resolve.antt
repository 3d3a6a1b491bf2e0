-- ===== src/Types/Disks/Resolve.antt =====
-- ResolveDataDisks ends with a list or an error.
use kuma_box.Prelude.{
  ℕ, suc, ◌+◌, ◌≡◌, refl, inl, inr, some, List, [], ◌∷◌, arith, length, is_empty, ltb, Bool-cases,
  Text,
}
use kuma_box.Errdefs.{Result, ok, err, plain, ◌>>=◌, ◌>>◌}
use kuma_box.Types.Disks.{
  DataDiskSpec, validate_disk, take_inherited, take_named, named_disk, append_additions,
  after_names, resolve_data_disks, max_data_disks, prepend,
}
use kuma_box.Types.Disks.Fresh.{candidate, fresh_total}

named_disk_total :
    (used : List Text) (index : ℕ) (d : DataDiskSpec)
    → (r : DataDiskSpec × List Text × ℕ) × (named_disk used index d ≡ some r)
unfolding named_disk
named_disk_total used index d = elim (Bool-cases (is_empty d.name)) [
  | inl unnamed ↦
      let (k, e) = fresh_total (suc (length used)) used index (omega arith) in
      ((record d { name = candidate k }, candidate k ∷ used, k + 1), rw (unnamed, named_disk, e))
  | inr named ↦ ((d, used, index), rw (named, named_disk))
]

append_additions_total :
    (used : List Text) (index : ℕ) (ds : List DataDiskSpec)
    → (r : Result (List DataDiskSpec)) × (append_additions used index ds ≡ some r)
unfolding append_additions
append_additions_total used index [] = (ok [], refl)
append_additions_total used index (d ∷ ds) =
    let ((d', used', index'), e) = named_disk_total used index d in
    let (r, e') = append_additions_total used' index' ds in
    ((do validate_disk d'; more ← r; ok (d' ∷ more)), rw (e, append_additions, e'))

after_names_total :
    (inherited additions : List DataDiskSpec) (names : Result (List Text))
    → (r : Result (List DataDiskSpec)) × (after_names inherited additions names ≡ some r)
after_names_total inherited additions (err e) = (err e, refl)
after_names_total inherited additions (ok used) =
    let (r, e) = append_additions_total used 1 additions in (prepend inherited r, rw e)

-- The resolution of data disks ends with a list or an error: its naming loop always finds a free
-- name.
pub resolve_data_disks_total :
    (inherited additions : List DataDiskSpec)
    → (r : Result (List DataDiskSpec)) × (resolve_data_disks inherited additions ≡ some r)
unfolding resolve_data_disks
resolve_data_disks_total inherited additions =
    elim (Bool-cases (ltb max_data_disks (length inherited + length additions))) [
      | inl many ↦ (err plain, rw many)
      | inr few ↦
          let (r, e) =
            after_names_total inherited additions
              (do used ← take_inherited [] inherited; take_named used additions) in
          (r, rw few e)
    ]
