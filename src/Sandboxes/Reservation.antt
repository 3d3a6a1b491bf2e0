-- ===== src/Sandboxes/Reservation.antt =====
-- What a reservation does to the records and to the name index.
use kuma_box.Prelude.{
  ◌≡◌, ◌≢◌, sym, ap, subst, ◌∙◌, inl, inr, false, none, some, arith, Text, text_eq, text_eq_iff,
  Bool-cases,
}
use kuma_box.Errdefs.{ok, err, Result-cases}
use kuma_box.Types.Ids.{Digest, IsDigest}
use kuma_box.Types.Sandbox.{Sandbox, IsValid}
use kuma_box.Metadata.{Transaction, get}
use kuma_box.Sandboxes.Records.{Codecs}
use kuma_box.Sandboxes.Access.{absent, sandboxes, load, put_record, put_name, name_owner}
use kuma_box.Sandboxes.Operations.{ImageReader, reserve_in}
use kuma_box.Sandboxes.Saved.{IsSaved, put_record-IsSaved}
use kuma_box.Sandboxes.Names.{Consistent, IsBound, put_name-IsBound}

module _ {Raw : Type 0} (c : Codecs Raw) where
  -- What a reservation's transaction does.
  pub record IsAdded (t : Transaction Raw) (r : Sandbox) (t' : Transaction Raw) : Type 0 where
    pub live : t'.cancelled ≡ t.cancelled
    pub vacant : load c t r.id ≡ err absent
    pub free : name_owner c t r.config.name ≡ ok none
    pub here : load c t' r.id ≡ ok r
    pub elsewhere : (j : Text) → text_eq r.id j ≡ false → load c t' j ≡ load c t j
    pub owns : name_owner c t' r.config.name ≡ ok (some r.id)
    pub others : (n : Text) → text_eq r.config.name n ≡ false → name_owner c t' n ≡ name_owner c t n

  reserve_in-eq-ok :
      (images : ImageReader Raw) (reference : Text) (expected : Digest) (t : Transaction Raw)
      (r : Sandbox) (t' : Transaction Raw)
      → reserve_in c images reference expected r t ≡ ok (tt, t')
      → (t1 : Transaction Raw) × (load c t r.id ≡ err absent)
        × (name_owner c t r.config.name ≡ ok none)
        × (put_record c t r ≡ ok t1)
        × (put_name c t1 r.config.name r.id ≡ ok t')
  unfolding reserve_in load
  reserve_in-eq-ok images reference expected t r t' h = elim (Result-cases (images t reference)) [
    | inr (f, e) ↦ absurd (ground arith)
    | inl (image, e) ↦ elim (Result-cases (get t sandboxes r.id)) [
      | inr (f, g) ↦ absurd (ground arith)
      | inl (existing, g) ↦ elim (Result-cases (name_owner c t r.config.name)) [
        | inr (f, k) ↦ absurd (ground arith)
        | inl (owner, k) ↦ elim (Result-cases (put_record c t r)) [
          | inr (f, l) ↦ absurd (ground arith)
          | inl (t1, l) ↦ elim (Result-cases (put_name c t1 r.config.name r.id)) [
            | inr (f, m) ↦ absurd (ground arith)
            | inl (t2, m) ↦ (t1, ground arith, ground arith, l, ground arith)
          ]
        ]
      ]
    ]
  ]

  pub reserve_in-IsAdded :
      (images : ImageReader Raw) (reference : Text) (expected : Digest) (t : Transaction Raw)
      (r : Sandbox) (t' : Transaction Raw)
      → IsValid c.parsers r
      → IsDigest r.image_digest
      → reserve_in c images reference expected r t ≡ ok (tt, t')
      → IsAdded t r t'
  reserve_in-IsAdded images reference expected t r t' v d h =
      let (t1, vacant, free, wrote, bound) = reserve_in-eq-ok images reference expected t r t' h in
      let saved : IsSaved c t r t1 = put_record-IsSaved c t r t1 v d wrote in
      let named : IsBound c t1 r.config.name r.id t' =
        put_name-IsBound c t1 r.config.name r.id t' bound in
      record {
        live = named.live ∙ saved.live;
        vacant = vacant;
        free = free;
        here = named.loads r.id ∙ saved.here;
        elsewhere = λ j ne. named.loads j ∙ saved.elsewhere j ne;
        owns = named.here;
        others = λ n ne. named.elsewhere n ne ∙ saved.names n;
      }

  some-not-none : {x : Text} → ok (some x) ≢ ok none
  some-not-none h = cc

  loaded-same : {a b : Sandbox} → ok a ≡ ok b → a ≡ b
  loaded-same h = cc

  -- A reservation keeps the name index consistent.
  pub added-Consistent :
      (t : Transaction Raw) (r : Sandbox) (t' : Transaction Raw)
      → IsAdded t r t'
      → Consistent c t
      → Consistent c t'
  added-Consistent t r t' a good id q h = elim (Bool-cases (text_eq r.id id)) [
    | inl same ↦
        let here : r.id ≡ id = (text_eq_iff r.id id).0 same in
        let it : r ≡ q = loaded-same (sym a.here ∙ ap (load c t') here ∙ h) in
        subst (λ i. name_owner c t' q.config.name ≡ ok (some i)) here
          (subst (λ (z : Sandbox). name_owner c t' z.config.name ≡ ok (some r.id)) it a.owns)
    | inr other ↦
        let owned : name_owner c t q.config.name ≡ ok (some id) =
          good id q (sym (a.elsewhere id other) ∙ h) in
        elim (Bool-cases (text_eq r.config.name q.config.name)) [
          | inl clash ↦ absurd (
              some-not-none
                (sym owned ∙ rw (sym ((text_eq_iff r.config.name q.config.name).0 clash)) a.free))
          | inr apart ↦ a.others q.config.name apart ∙ owned
        ]
  ]
