-- ===== src/Sandboxes/Listing.antt =====
-- List: every sandbox that loads is in it.
use kuma_box.Prelude.{
  Has, ◌≡◌, sym, inl, inr, false, not, Option, some, List, [], arith, Text, text_eq,
}
use kuma_box.Errdefs.{Result, ok, ◌>>=◌, ◌>>◌, refuse_if, in_context, Result-cases}
use kuma_box.Types.Sandbox.{Sandbox}
use kuma_box.Metadata.{Transaction, Store, Weather, scan, view, get}
use kuma_box.Metadata.Scans.{collecting, scan-Has}
use kuma_box.Metadata.Newest.{sort_newest, Has-sort_newest}
use kuma_box.Sandboxes.Records.{Codecs}
use kuma_box.Sandboxes.Decode.{decode, corrupt_record}
use kuma_box.Sandboxes.Access.{sandboxes, load}
use kuma_box.Sandboxes.Usage.{load-read}

module _ {Raw : Type 0} (c : Codecs Raw) where
  -- The callback of List, for one record.
  unfoldable pub listed : Text → Raw → Result (Option Sandbox)
  listed key raw = do
    r ← decode c raw
    refuse_if (not (text_eq r.id key)) corrupt_record
    ok (some r)

  unfoldable pub list_in : Transaction Raw → Result (List Sandbox)
  list_in t = do
    rs ← scan t sandboxes (collecting listed) []
    ok (sort_newest (λ r. r.created_at) (λ r. r.id) rs)

  -- List.
  unfoldable pub list : Weather → Store Raw → Result (List Sandbox)
  unfolding list_in
  list w s = in_context false (view w list_in s)

  listed-load :
      (t : Transaction Raw) (id : Text) (r : Sandbox) (raw : Raw)
      → load c t id ≡ ok r
      → get t sandboxes id ≡ ok (some raw)
      → decode c raw ≡ ok r
      → listed id raw ≡ ok (some r)
  unfolding load listed
  listed-load t id r raw h stored d = ground arith

  -- When List answers, every sandbox that loads is in the answer.
  pub list_in-Has :
      (t : Transaction Raw) (id : Text) (r : Sandbox) (rs : List Sandbox)
      → load c t id ≡ ok r
      → list_in t ≡ ok rs
      → Has r rs
  unfolding list_in
  list_in-Has t id r rs loaded h = elim (Result-cases (scan t sandboxes (collecting listed) [])) [
    | inr (f, e) ↦ absurd (ground arith)
    | inl (found, e) ↦
        let (raw, stored, d) = load-read c t id r loaded in
        let same : sort_newest (λ r. r.created_at) (λ r. r.id) found ≡ rs = ground arith in
        rw (sym same) (
          Has-sort_newest (λ r. r.created_at) (λ r. r.id) r found
            (scan-Has listed t sandboxes id raw r found stored
              (listed-load t id r raw loaded stored d) e))
  ]
