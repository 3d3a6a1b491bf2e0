-- ===== src/Sandboxes/Removal.antt =====
-- What a removal does to the records and to the name index.
use kuma_box.Prelude.{
  ℕ, ◌≡◌, ◌≢◌, sym, ap, ◌∙◌, inl, inr, true, false, none, some, arith, Text, text_eq, text_eq_iff,
  text_eq_refl, Option-cases, Bool-cases,
}
use kuma_box.Errdefs.{ok, err, Result-cases}
use kuma_box.Types.Sandbox.{SandboxState, state_eq, Sandbox}
use kuma_box.Metadata.{Transaction, delete}
use kuma_box.Metadata.Laws.{delete-cancelled, get-delete}
use kuma_box.Sandboxes.Records.{Codecs}
use kuma_box.Sandboxes.Access.{sandboxes, sandbox_names, absent, load, name_owner, delete_record}
use kuma_box.Sandboxes.Operations.{remove_from}
use kuma_box.Sandboxes.Names.{collections_differ, Consistent}

module _ {Raw : Type 0} (c : Codecs Raw) where
  -- What deleting a record does.
  pub record IsRemoved (t : Transaction Raw) (r : Sandbox) (t' : Transaction Raw) : Type 0 where
    pub live : t'.cancelled ≡ t.cancelled
    pub owned : name_owner c t r.config.name ≡ ok (some r.id)
    pub gone : load c t' r.id ≡ err absent
    pub elsewhere : (j : Text) → text_eq r.id j ≡ false → load c t' j ≡ load c t j
    pub free : name_owner c t' r.config.name ≡ ok none
    pub others : (n : Text) → text_eq r.config.name n ≡ false → name_owner c t' n ≡ name_owner c t n

  delete_record-eq-ok :
      (t : Transaction Raw) (r : Sandbox) (t' : Transaction Raw)
      → delete_record c t r ≡ ok t'
      → (t1 : Transaction Raw) × (name_owner c t r.config.name ≡ ok (some r.id))
        × (delete t sandbox_names r.config.name ≡ ok t1)
        × (delete t1 sandboxes r.id ≡ ok t')
  unfolding delete_record
  delete_record-eq-ok t r t' h = elim (Result-cases (name_owner c t r.config.name)) [
    | inr (f, e) ↦ absurd (ground arith)
    | inl (owner, e) ↦ elim (Option-cases owner) [
      | inl none' ↦ absurd (ground arith)
      | inr (o, g) ↦ elim (Result-cases (delete t sandbox_names r.config.name)) [
        | inr (f, k) ↦ absurd (ground arith)
        | inl (t1, k) ↦ (t1, ground (arith, text_eq_iff o r.id), k, ground arith)
      ]
    ]
  ]

  delete_record-IsRemoved :
      (t : Transaction Raw) (r : Sandbox) (t' : Transaction Raw)
      → delete_record c t r ≡ ok t'
      → IsRemoved t r t'
  unfolding load name_owner
  delete_record-IsRemoved t r t' h = record {
    live =
        delete-cancelled t1 t' sandboxes r.id q
        ∙ delete-cancelled t t1 sandbox_names r.config.name p;
    owned = (delete_record-eq-ok t r t' h).1;
    gone = rw (
      get-delete t1 t' sandboxes sandboxes r.id r.id q,
      text_eq_refl sandboxes,
      text_eq_refl r.id,
    );
    elsewhere = λ j ne. rw (
      get-delete t1 t' sandboxes sandboxes r.id j q,
      text_eq_refl sandboxes,
      ne,
      get-delete t t1 sandbox_names sandboxes r.config.name j p,
      collections_differ.1,
    );
    free = rw (
      get-delete t1 t' sandboxes sandbox_names r.id r.config.name q,
      collections_differ.0,
      get-delete t t1 sandbox_names sandbox_names r.config.name r.config.name p,
      text_eq_refl sandbox_names,
      text_eq_refl r.config.name,
    );
    others = λ n ne. rw (
      get-delete t1 t' sandboxes sandbox_names r.id n q,
      collections_differ.0,
      get-delete t t1 sandbox_names sandbox_names r.config.name n p,
      text_eq_refl sandbox_names,
      ne,
    );
  }
    where
      t1 : Transaction Raw
      t1 = (delete_record-eq-ok t r t' h).0

      p : delete t sandbox_names r.config.name ≡ ok t1
      p = (delete_record-eq-ok t r t' h).2

      q : delete t1 sandboxes r.id ≡ ok t'
      q = (delete_record-eq-ok t r t' h).3

  pub remove_from-IsRemoved :
      (state : SandboxState) (id : Text) (expected : ℕ) (t t' : Transaction Raw)
      → remove_from c state id expected t ≡ ok (tt, t')
      → (r : Sandbox) × (load c t id ≡ ok r)
        × (r.generation ≡ expected)
        × (state_eq r.state state ≡ true)
        × IsRemoved t r t'
  unfolding remove_from
  remove_from-IsRemoved state id expected t t' h = elim (Result-cases (load c t id)) [
    | inr (f, e) ↦ absurd (ground arith)
    | inl (r, e) ↦ elim (Result-cases (delete_record c t r)) [
      | inr (f, g) ↦ absurd (ground arith)
      | inl (t1, g) ↦
          let same : t1 ≡ t' = ground arith in
          (r, e, ground arith, ground arith, delete_record-IsRemoved t r t' (g ∙ ap ok same))
    ]
  ]

  -- So does a removal.
  pub removed-Consistent :
      (t : Transaction Raw) (r : Sandbox) (t' : Transaction Raw)
      → IsRemoved t r t'
      → Consistent c t
      → Consistent c t'
  removed-Consistent t r t' a good id q h = elim (Bool-cases (text_eq r.id id)) [
    | inl same ↦
        absurd (gone-not-loaded (sym a.gone ∙ ap (load c t') ((text_eq_iff r.id id).0 same) ∙ h))
    | inr other ↦
        let owned : name_owner c t q.config.name ≡ ok (some id) =
          good id q (sym (a.elsewhere id other) ∙ h) in
        elim (Bool-cases (text_eq r.config.name q.config.name)) [
          | inl clash ↦
              let one : r.id ≡ id = one_owner (
                sym a.owned
                ∙ ap (name_owner c t) ((text_eq_iff r.config.name q.config.name).0 clash)
                ∙ owned) in
              absurd (ground (arith, text_eq_iff r.id id))
          | inr apart ↦ a.others q.config.name apart ∙ owned
        ]
  ]
    where
      gone-not-loaded : err absent ≢ ok q
      gone-not-loaded k = cc

      one_owner : {x y : Text} → ok (some x) ≡ ok (some y) → x ≡ y
      one_owner k = cc
