-- ===== src/Sandboxes/Saved.antt =====
-- What loading and saving a record promise each other.
use kuma_box.Prelude.{
  ◌≡◌, refl, ap, ◌∙◌, inl, inr, false, some, arith, Text, text_eq, text_eq_iff, text_eq_refl,
  Option-cases,
}
use kuma_box.Errdefs.{ok, Result-cases}
use kuma_box.Types.Ids.{IsDigest}
use kuma_box.Types.Sandbox.{Sandbox, IsValid, validate_sandbox, validate_sandbox-IsValid}
use kuma_box.Metadata.{Transaction, get, put}
use kuma_box.Metadata.Laws.{get-put, put-cancelled}
use kuma_box.Sandboxes.Records.{Codecs}
use kuma_box.Sandboxes.Decode.{encode, decode, decode-marshal, decode-IsValid}
use kuma_box.Sandboxes.Access.{sandboxes, sandbox_names, load, put_record, save, name_owner}

pub record IsLoaded {Raw : Type 0} (c : Codecs Raw) (id : Text) (r : Sandbox) : Type 0 where
  pub same_id : r.id ≡ id
  pub valid : IsValid c.parsers r
  pub digest : IsDigest r.image_digest

pub record IsSaved {Raw : Type 0} (c : Codecs Raw) (t : Transaction Raw) (r : Sandbox)
    (t' : Transaction Raw) : Type 0 where
  pub live : t'.cancelled ≡ t.cancelled
  pub here : load c t' r.id ≡ ok r
  pub elsewhere : (j : Text) → text_eq r.id j ≡ false → load c t' j ≡ load c t j
  pub names : (n : Text) → name_owner c t' n ≡ name_owner c t n
  pub raws : (j : Text) → text_eq r.id j ≡ false → get t' sandboxes j ≡ get t sandboxes j

collections_differ :
    (text_eq sandboxes sandbox_names ≡ false) × (text_eq sandbox_names sandboxes ≡ false)
unfolding text_eq
collections_differ = (refl, refl)

module _ {Raw : Type 0} (c : Codecs Raw) where
  -- A record that loads has the ID that it was asked for, and is valid.
  pub load-IsLoaded :
      (t : Transaction Raw) (id : Text) (r : Sandbox) → load c t id ≡ ok r → IsLoaded c id r
  unfolding load
  load-IsLoaded t id r h = elim (Result-cases (get t sandboxes id)) [
    | inr (f, e) ↦ absurd (ground arith)
    | inl (raw, e) ↦ elim (Option-cases raw) [
      | inl g ↦ absurd (ground arith)
      | inr (stored, g) ↦ elim (Result-cases (decode c stored)) [
        | inr (f, k) ↦ absurd (ground arith)
        | inl (s, k) ↦
            let same : s ≡ r = ground arith in
            let (v, d) = decode-IsValid c stored r (k ∙ ap ok same) in
            record { same_id = ground (arith, text_eq_iff s.id id); valid = v; digest = d }
      ]
    ]
  ]

  put_record-eq-ok :
      (t : Transaction Raw) (r : Sandbox) (t' : Transaction Raw)
      → put_record c t r ≡ ok t'
      → (raw : Raw) × (c.record_json.marshal (encode r) ≡ some raw)
        × (put t sandboxes r.id raw ≡ ok t')
  unfolding put_record
  put_record-eq-ok t r t' h = elim (Option-cases (c.record_json.marshal (encode r))) [
    | inl e ↦ absurd (ground arith)
    | inr (raw, e) ↦ (raw, e, ground arith)
  ]

  module _ (t t' : Transaction Raw) (r : Sandbox) (raw : Raw)
      (written : put t sandboxes r.id raw ≡ ok t') where
    read_here : get t' sandboxes r.id ≡ ok (some raw)
    read_here =
        get-put t t' sandboxes sandboxes r.id r.id raw written
        ∙ rw (text_eq_refl sandboxes, text_eq_refl r.id)

    read_elsewhere : (j : Text) → text_eq r.id j ≡ false → get t' sandboxes j ≡ get t sandboxes j
    read_elsewhere j h =
        get-put t t' sandboxes sandboxes r.id j raw written ∙ rw (text_eq_refl sandboxes, h)

    read_name : (n : Text) → get t' sandbox_names n ≡ get t sandbox_names n
    read_name n =
        get-put t t' sandboxes sandbox_names r.id n raw written ∙ rw (collections_differ.0)

  -- A valid record that was put is what loads, and nothing else changes.
  pub put_record-IsSaved :
      (t : Transaction Raw) (r : Sandbox) (t' : Transaction Raw)
      → IsValid c.parsers r
      → IsDigest r.image_digest
      → put_record c t r ≡ ok t'
      → IsSaved c t r t'
  unfolding load name_owner
  put_record-IsSaved t r t' v d h = record {
    live = put-cancelled t t' sandboxes r.id raw p;
    here = rw (read_here t t' r raw p, load, decode-marshal c r raw v d m, text_eq_refl r.id);
    elsewhere = λ j ne. rw (read_elsewhere t t' r raw p j ne);
    names = λ n. rw (read_name t t' r raw p n);
    raws = read_elsewhere t t' r raw p;
  }
    where
      raw : Raw
      raw = (put_record-eq-ok t r t' h).0

      m : c.record_json.marshal (encode r) ≡ some raw
      m = (put_record-eq-ok t r t' h).1

      p : put t sandboxes r.id raw ≡ ok t'
      p = (put_record-eq-ok t r t' h).2

  save-eq-ok :
      (t : Transaction Raw) (r r' : Sandbox) (t' : Transaction Raw)
      → save c t r ≡ ok (r', t')
      → (r' ≡ r) × IsValid c.parsers r × (put_record c t r ≡ ok t')
  unfolding save
  save-eq-ok t r r' t' h = elim (Result-cases (validate_sandbox c.parsers r)) [
    | inr (f, e) ↦ absurd (ground arith)
    | inl (u, e) ↦ elim (Result-cases (put_record c t r)) [
      | inr (f, g) ↦ absurd (ground arith)
      | inl (t'', g) ↦ (ground arith, (validate_sandbox-IsValid c.parsers r).0 e, ground arith)
    ]
  ]

  -- A save that succeeds validated the record and wrote it.
  pub save-IsSaved :
      (t : Transaction Raw) (r r' : Sandbox) (t' : Transaction Raw)
      → IsDigest r.image_digest
      → save c t r ≡ ok (r', t')
      → (r' ≡ r) × IsSaved c t r t'
  save-IsSaved t r r' t' d h =
      let (same, v, p) = save-eq-ok t r r' t' h in (same, put_record-IsSaved t r t' v d p)
