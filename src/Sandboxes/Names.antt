-- ===== src/Sandboxes/Names.antt =====
-- The name index beside the records: every stored sandbox owns its name, in every reachable store.
use kuma_box.Prelude.{
  ◌≡◌, refl, inl, inr, false, some, arith, Text, text_eq, text_eq_refl, Option-cases,
}
use kuma_box.Errdefs.{ok}
use kuma_box.Types.Sandbox.{Sandbox}
use kuma_box.Metadata.{Transaction, put}
use kuma_box.Metadata.Laws.{get-put, put-cancelled}
use kuma_box.Sandboxes.Records.{Codecs}
use kuma_box.Sandboxes.Access.{sandboxes, sandbox_names, load, put_name, name_owner}

pub collections_differ :
    (text_eq sandboxes sandbox_names ≡ false) × (text_eq sandbox_names sandboxes ≡ false)
unfolding text_eq
collections_differ = (refl, refl)

module _ {Raw : Type 0} (c : Codecs Raw) where
  -- Every sandbox that loads is the owner of its name.
  abbrev pub Consistent : Transaction Raw → Type 0
  Consistent t =
      (id : Text) (r : Sandbox) → load c t id ≡ ok r → name_owner c t r.config.name ≡ ok (some id)

  -- What binding a name does.
  pub record IsBound (t : Transaction Raw) (name id : Text) (t' : Transaction Raw) : Type 0 where
    pub live : t'.cancelled ≡ t.cancelled
    pub here : name_owner c t' name ≡ ok (some id)
    pub elsewhere : (n : Text) → text_eq name n ≡ false → name_owner c t' n ≡ name_owner c t n
    pub loads : (j : Text) → load c t' j ≡ load c t j

  put_name-eq-ok :
      (t : Transaction Raw) (name id : Text) (t' : Transaction Raw)
      → put_name c t name id ≡ ok t'
      → (raw : Raw) × (c.name_json.marshal (record { id = id }) ≡ some raw)
        × (put t sandbox_names name raw ≡ ok t')
  unfolding put_name
  put_name-eq-ok t name id t' h = elim (Option-cases (c.name_json.marshal (record { id = id }))) [
    | inl e ↦ absurd (ground arith)
    | inr (raw, e) ↦ (raw, e, ground arith)
  ]

  pub put_name-IsBound :
      (t : Transaction Raw) (name id : Text) (t' : Transaction Raw)
      → put_name c t name id ≡ ok t'
      → IsBound t name id t'
  unfolding load name_owner
  put_name-IsBound t name id t' h = record {
    live = put-cancelled t t' sandbox_names name raw p;
    here = rw (
      get-put t t' sandbox_names sandbox_names name name raw p,
      text_eq_refl sandbox_names,
      text_eq_refl name,
      c.name_json.unmarshal-marshal (record { id = id }) raw m,
    );
    elsewhere = λ n ne.
        rw (get-put t t' sandbox_names sandbox_names name n raw p, text_eq_refl sandbox_names, ne);
    loads = λ j. rw (get-put t t' sandbox_names sandboxes name j raw p, collections_differ.1);
  }
    where
      raw : Raw
      raw = (put_name-eq-ok t name id t' h).0

      m : c.name_json.marshal (record { id = id }) ≡ some raw
      m = (put_name-eq-ok t name id t' h).1

      p : put t sandbox_names name raw ≡ ok t'
      p = (put_name-eq-ok t name id t' h).2
