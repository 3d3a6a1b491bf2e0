-- ===== src/Sandboxes/Reachable.antt =====
-- The stores that the catalog's calls lead to from one that holds no sandbox.
use kuma_box.Prelude.{
  true, ℕ, ◌≡◌, ◌≢◌, refl, sym, ap, subst, ◌∙◌, inl, inr, false, Text, text_eq, text_eq_iff, some,
  Bool-cases, arith, not,
}
use kuma_box.Errdefs.{Failure, Result, ok, err, or_else, refuse_if, ◌>>◌, Result-cases}
use kuma_box.Types.Ids.{Digest, IsDigest}
use kuma_box.Types.Sandbox.{
  state_eq, SandboxState, creating, deleting, Sandbox, IsValid, validate_sandbox,
  validate_sandbox-IsValid,
}
use kuma_box.Metadata.{Store, Weather, begin, update, close}
use kuma_box.Metadata.Laws.{begin-live, update-eq-ok}
use kuma_box.Sandboxes.Records.{Codecs}
use kuma_box.Sandboxes.Access.{absent, load, name_owner}
use kuma_box.Sandboxes.Changes.{bad_request}
use kuma_box.Sandboxes.Operations.{
  ImageReader, is_reservation, after_check, in_store, reserve, reserve_in, finalize_delete, forget,
  remove_from,
}
use kuma_box.Sandboxes.Edits.{Edit, run, state_eq_sound}
use kuma_box.Sandboxes.Lifecycle.{Committed, run-Committed, run-err, in_store-eq-ok}
use kuma_box.Sandboxes.Failing.{reserve-err, finalize_delete-err, forget-err, close-records}
use kuma_box.Sandboxes.Names.{Consistent}
use kuma_box.Sandboxes.Reservation.{IsAdded, reserve_in-IsAdded, added-Consistent}
use kuma_box.Sandboxes.Removal.{IsRemoved, remove_from-IsRemoved, removed-Consistent}

module _ {Raw : Type 0} (c : Codecs Raw) where
  -- One call, one that succeeded or one that returned an error: an edit, a reservation or a removal;
  -- or the engine is closed. A digest that the caller of a successful Reserve passes is one that
  -- ParseDigest returned.
  pub data Step (s s' : Store Raw) : Type 0 where
    edits :
        (e : Edit) (w : Weather) (id : Text) (expected now : ℕ) (r' : Sandbox)
        → run c e w s id expected now ≡ (ok r', s')
        → Step s s'
    reserves :
        (images : ImageReader Raw) (w : Weather) (reference : Text) (expected : Digest)
        (r : Sandbox)
        → IsDigest r.image_digest
        → reserve c images w s reference expected r ≡ (ok tt, s')
        → Step s s'
    finalizes :
        (w : Weather) (id : Text) (expected : ℕ)
        → finalize_delete c w s id expected ≡ (ok tt, s')
        → Step s s'
    forgets :
        (w : Weather) (id : Text) (expected : ℕ)
        → forget c w s id expected ≡ (ok tt, s')
        → Step s s'
    fails_edit :
        (e : Edit) (w : Weather) (id : Text) (expected now : ℕ) (f : Failure)
        → run c e w s id expected now ≡ (err f, s')
        → Step s s'
    fails_reserve :
        (images : ImageReader Raw) (w : Weather) (reference : Text) (expected : Digest)
        (r : Sandbox) (f : Failure)
        → reserve c images w s reference expected r ≡ (err f, s')
        → Step s s'
    fails_finalize :
        (w : Weather) (id : Text) (expected : ℕ) (f : Failure)
        → finalize_delete c w s id expected ≡ (err f, s')
        → Step s s'
    fails_forget :
        (w : Weather) (id : Text) (expected : ℕ) (f : Failure)
        → forget c w s id expected ≡ (err f, s')
        → Step s s'
    closes : s' ≡ close s → Step s s'

  pub data Reachable : Store Raw → Type 0 where
    starts_empty :
        (s : Store Raw) → ((id : Text) → load c (begin false s) id ≡ err absent) → Reachable s
    steps : (s s' : Store Raw) → Reachable s → Step s s' → Reachable s'

  err-not-ok : {f : Failure} {u : Unit {0}} → err f ≢ ok u
  err-not-ok k = cc

  after_check-eq-ok :
      (m : Result (Unit {0})) (s s' : Store Raw) (rest : Result (Unit {0}) × Store Raw)
      → after_check m s rest ≡ (ok tt, s')
      → (m ≡ ok tt) × (rest ≡ (ok tt, s'))
  after_check-eq-ok (err e) s s' rest h = absurd (err-not-ok (ap (λ q. q.0) h))
  after_check-eq-ok (ok u) s s' rest h = (ap ok refl_unit, h)
    where
      refl_unit : u ≡ tt
      refl_unit = hlevel

  -- A reservation that succeeds is of a new sandbox of generation one.
  pub reserve-creating :
      (images : ImageReader Raw) (w : Weather) (s s' : Store Raw) (reference : Text)
      (expected : Digest) (r : Sandbox)
      → reserve c images w s reference expected r ≡ (ok tt, s')
      → (r.state ≡ creating) × (r.generation ≡ 1)
  unfolding reserve
  reserve-creating images w s s' reference expected r h =
      let (checked, ran) =
        after_check-eq-ok
          (do
            or_else bad_request (validate_sandbox c.parsers r)
            refuse_if (not (is_reservation expected r)) bad_request)
          s s' (in_store (update w (reserve_in c images reference expected r) s)) h in
      (state_eq_sound r.state creating (ground arith), ground arith)

  -- A reservation that succeeds found the name free; afterwards the record loads and owns its
  -- name, and every other record and name is as before.
  pub reserve-IsAdded :
      (images : ImageReader Raw) (w : Weather) (s s' : Store Raw) (reference : Text)
      (expected : Digest) (r : Sandbox)
      → IsDigest r.image_digest
      → reserve c images w s reference expected r ≡ (ok tt, s')
      → IsAdded c (begin false s) r (begin false s')
  unfolding reserve
  reserve-IsAdded images w s s' reference expected r d h =
      let (checked, ran) =
        after_check-eq-ok
          (do
            or_else bad_request (validate_sandbox c.parsers r)
            refuse_if (not (is_reservation expected r)) bad_request)
          s s' (in_store (update w (reserve_in c images reference expected r) s)) h in
      let (won, left) =
        in_store-eq-ok c (update w (reserve_in c images reference expected r) s) tt s' ran in
      let (t', body, there) = update-eq-ok w s (reserve_in c images reference expected r) won in
      let a : IsAdded c (begin false s) r t' =
        reserve_in-IsAdded c images reference expected (begin false s) r t' (valid checked) d
          body in
      subst (IsAdded c (begin false s) r)
        (sym (begin-live s' t' a.live (ap (λ (q : Store Raw). q.records) (sym left) ∙ there))) a
    where
      valid :
          ((do
            or_else bad_request (validate_sandbox c.parsers r)
            refuse_if (not (is_reservation expected r)) bad_request)
            ≡ ok tt)
          → IsValid c.parsers r
      valid k = elim (Result-cases (validate_sandbox c.parsers r)) [
        | inl (u, e) ↦ (validate_sandbox-IsValid c.parsers r).0 e
        | inr (f, e) ↦ absurd (ground arith)
      ]

  -- What FinalizeDelete and Forget run removes, when it succeeds, a record that was loaded under
  -- the expected generation in the state that they ask for and that owned its name; afterwards
  -- the record is absent, its name is free, and every other record and name is as before.
  pub remove-IsRemoved :
      (state : SandboxState) (w : Weather) (s s' : Store Raw) (id : Text) (expected : ℕ)
      → in_store (update w (remove_from c state id expected) s) ≡ (ok tt, s')
      → (r : Sandbox) × (load c (begin false s) id ≡ ok r)
        × (r.generation ≡ expected)
        × (state_eq r.state state ≡ true)
        × IsRemoved c (begin false s) r (begin false s')
  remove-IsRemoved state w s s' id expected h =
      let (won, left) = in_store-eq-ok c (update w (remove_from c state id expected) s) tt s' h in
      let (t', body, there) = update-eq-ok w s (remove_from c state id expected) won in
      let (r, loaded, fenced, fits, a) =
        remove_from-IsRemoved c state id expected (begin false s) t' body in
      (
        r,
        loaded,
        fenced,
        fits,
        subst (IsRemoved c (begin false s) r)
            (sym (begin-live s' t' a.live (ap (λ (q : Store Raw). q.records) (sym left) ∙ there)))
            a,
      )

  Committed-Consistent :
      (s s' : Store Raw) (e : Edit) (id : Text) (expected now : ℕ) (r' : Sandbox)
      → Committed c s e id expected now r' s'
      → Consistent c (begin false s)
      → Consistent c (begin false s')
  Committed-Consistent s s' e id expected now r' d good j q h = elim (Bool-cases (text_eq id j)) [
    | inl same ↦
        let here : id ≡ j = (text_eq_iff id j).0 same in
        let it : r' ≡ q = loaded-same (sym d.after ∙ ap (load c (begin false s')) here ∙ h) in
        d.names q.config.name
        ∙ ap (name_owner c (begin false s))
            (ap (λ (z : Sandbox). z.config.name) (sym it) ∙ d.identity.name)
        ∙ good id d.before d.loaded
        ∙ ap (λ i. ok (some i)) here
    | inr other ↦ d.names q.config.name ∙ good j q (sym (d.elsewhere j other) ∙ h)
  ]
    where
      loaded-same : {a b : Sandbox} → ok a ≡ ok b → a ≡ b
      loaded-same k = cc

  Consistent-same :
      (s s' : Store Raw)
      → s'.records ≡ s.records
      → Consistent c (begin false s)
      → Consistent c (begin false s')
  Consistent-same s s' same good =
      subst (Consistent c) (sym (begin-live s' (begin false s) refl same)) good

  -- Whatever one call does, a call that fails included, each sandbox that loads still owns its name.
  pub Step-Consistent :
      (s s' : Store Raw) → Step s s' → Consistent c (begin false s) → Consistent c (begin false s')
  unfolding finalize_delete forget
  Step-Consistent s s' (edits e w id expected now r' h) good =
      Committed-Consistent s s' e id expected now r' (run-Committed c e w s s' id expected now r' h)
        good
  Step-Consistent s s' (reserves images w reference expected r d h) good =
      added-Consistent c (begin false s) r (begin false s')
        (reserve-IsAdded images w s s' reference expected r d h) good
  Step-Consistent s s' (finalizes w id expected h) good =
      let (r, loaded, fenced, fits, a) = remove-IsRemoved deleting w s s' id expected h in
      removed-Consistent c (begin false s) r (begin false s') a good
  Step-Consistent s s' (forgets w id expected h) good =
      let (r, loaded, fenced, fits, a) = remove-IsRemoved creating w s s' id expected h in
      removed-Consistent c (begin false s) r (begin false s') a good
  Step-Consistent s s' (fails_edit e w id expected now f h) good =
      Consistent-same s s' (run-err c e w s s' id expected now f h) good
  Step-Consistent s s' (fails_reserve images w reference expected r f h) good =
      Consistent-same s s' (reserve-err c images w s s' reference expected r f h) good
  Step-Consistent s s' (fails_finalize w id expected f h) good =
      Consistent-same s s' (finalize_delete-err c w s s' id expected f h) good
  Step-Consistent s s' (fails_forget w id expected f h) good =
      Consistent-same s s' (forget-err c w s s' id expected f h) good
  Step-Consistent s s' (closes h) good = Consistent-same s s' (close-records s s' h) good

  absent-not-loaded : {r : Sandbox} → err absent ≢ ok r
  absent-not-loaded k = cc

  Reachable-Consistent : (s : Store Raw) → Reachable s → Consistent c (begin false s)
  Reachable-Consistent s (starts_empty _ nothing) =
      λ id r h. absurd (absent-not-loaded (sym (nothing id) ∙ h))
  Reachable-Consistent s' (steps s _ before step) =
      Step-Consistent s s' step (Reachable-Consistent s before)

  -- In every store that calls of the catalog lead to from one without sandboxes, calls that
  -- return an error and Close included, two sandboxes that load under one name are the same
  -- sandbox, and the name index points at it.
  pub Reachable-unique :
      (s : Store Raw) (i j : Text) (q r : Sandbox)
      → Reachable s
      → load c (begin false s) i ≡ ok q
      → load c (begin false s) j ≡ ok r
      → q.config.name ≡ r.config.name
      → (i ≡ j) × (name_owner c (begin false s) q.config.name ≡ ok (some i))
  Reachable-unique s i j q r h a b same =
      let mine : name_owner c (begin false s) q.config.name ≡ ok (some i) =
        Reachable-Consistent s h i q a in
      (
        one_owner
            (sym mine ∙ ap (name_owner c (begin false s)) same ∙ Reachable-Consistent s h j r b),
        mine,
      )
    where
      one_owner : {x y : Text} → ok (some x) ≡ ok (some y) → x ≡ y
      one_owner k = cc
