-- ===== src/Sandboxes/Lifecycle.antt =====
-- The lifecycle of a sandbox as the catalog's edits drive it, and the generation that fences them.
use kuma_box.Prelude.{ℕ, ◌≡◌, refl, sym, ap, subst, ◌∙◌, ◌⊎◌, inl, inr, false, arith, Text, text_eq}
use kuma_box.Errdefs.{Failure, Result, ok, err, Result-cases, in_context, in_context-eq-ok}
use kuma_box.Types.Ids.{IsDigest}
use kuma_box.Types.Sandbox.{Sandbox}
use kuma_box.Metadata.{Transaction, Store, Weather, begin, update}
use kuma_box.Metadata.Laws.{begin-live, update-eq-ok, update-eq-err}
use kuma_box.Sandboxes.Records.{Codecs}
use kuma_box.Sandboxes.Access.{load, name_owner}
use kuma_box.Sandboxes.Changes.{Change, keep, write}
use kuma_box.Sandboxes.Operations.{apply_change, edit, in_store}
use kuma_box.Sandboxes.Saved.{IsSaved, load-IsLoaded, save-IsSaved}
use kuma_box.Sandboxes.Edits.{Edit, run, change_of, run-Runs}
use kuma_box.Sandboxes.Outcomes.{SameIdentity, Moves, Repeats, Resizes, Effect, change_of-Effect}

-- What a call that succeeded did to the store.
pub record Committed {Raw : Type 0} (c : Codecs Raw) (s : Store Raw) (e : Edit) (id : Text)
    (expected now : ℕ) (r' : Sandbox) (s' : Store Raw) : Type 0 where
  pub before : Sandbox
  pub loaded : load c (begin false s) id ≡ ok before
  pub fenced : before.generation ≡ expected
  pub identity : SameIdentity before r'
  pub how :
      ((r' ≡ before) × Repeats e before × (s'.records ≡ s.records))
      ⊎ (Moves e now before r' ⊎ Resizes e now before r')
  pub after : load c (begin false s') id ≡ ok r'
  pub elsewhere :
      (j : Text) → text_eq id j ≡ false → load c (begin false s') j ≡ load c (begin false s) j
  pub names : (n : Text) → name_owner c (begin false s') n ≡ name_owner c (begin false s) n

module _ {Raw : Type 0} (c : Codecs Raw) where
  -- The same for a transaction.
  record Edited (t : Transaction Raw) (e : Edit) (id : Text) (expected now : ℕ) (r' : Sandbox)
      (t' : Transaction Raw) : Type 0 where
    before : Sandbox
    loaded : load c t id ≡ ok before
    fenced : before.generation ≡ expected
    identity : SameIdentity before r'
    how :
        ((r' ≡ before) × Repeats e before × (t' ≡ t))
        ⊎ ((Moves e now before r' ⊎ Resizes e now before r') × IsSaved c t r' t')

  kept : (r : Sandbox) → SameIdentity r r
  kept r = record {
    id = refl;
    name = refl;
    image = refl;
    created = refl;
    vmm = refl;
    resources = refl;
  }

  apply_change-Edited :
      (op : Edit) (id : Text) (expected now : ℕ) (t : Transaction Raw) (r r' : Sandbox)
      (t' : Transaction Raw) (decided : Change)
      → load c t id ≡ ok r
      → Effect op expected now r (ok decided)
      → apply_change c t r decided ≡ ok (r', t')
      → Edited t op id expected now r' t'
  unfolding apply_change
  apply_change-Edited op id expected now t r r' t' keep e f h = record {
    before = r;
    loaded = e;
    fenced = f.0;
    identity = subst (SameIdentity r) (ground arith) (kept r);
    how = inl (ground arith, f.1, ground arith);
  }
  apply_change-Edited op id expected now t r r' t' (write r'') e (f, i, m) h = record {
    before = r;
    loaded = e;
    fenced = f;
    identity = rw same i;
    how = inr (rw same m, rw same saved);
  }
    where
      digest : IsDigest r''.image_digest
      digest = rw i.image (load-IsLoaded c t id r e).digest

      same : r' ≡ r''
      same = (save-IsSaved c t r'' r' t' digest h).0

      saved : IsSaved c t r'' t'
      saved = (save-IsSaved c t r'' r' t' digest h).1

  edit-Edited :
      (change : Sandbox → Result Change) (op : Edit) (id : Text) (expected now : ℕ)
      (t : Transaction Raw) (r' : Sandbox) (t' : Transaction Raw)
      → ((r : Sandbox) → Effect op expected now r (change r))
      → edit c change id t ≡ ok (r', t')
      → Edited t op id expected now r' t'
  unfolding edit
  edit-Edited change op id expected now t r' t' ch h = elim (Result-cases (load c t id)) [
    | inr (f, e) ↦ absurd (ground arith)
    | inl (r, e) ↦ elim (Result-cases (change r)) [
      | inr (f, g) ↦ absurd (ground arith)
      | inl (decided, g) ↦
          apply_change-Edited op id expected now t r r' t' decided e (rw g at (ch r))
            (rw (e, g) at h)
    ]
  ]

  saved-Committed :
      (op : Edit) (s s' : Store Raw) (id : Text) (expected now : ℕ) (r' : Sandbox)
      (t' : Transaction Raw) (d : Edited (begin false s) op id expected now r' t')
      → s'.records ≡ t'.records
      → Moves op now d.before r' ⊎ Resizes op now d.before r'
      → IsSaved c (begin false s) r' t'
      → Committed c s op id expected now r' s'
  saved-Committed op s s' id expected now r' t' d h m saved = record {
    before = d.before;
    loaded = d.loaded;
    fenced = d.fenced;
    identity = d.identity;
    how = inr m;
    after = subst (λ i. load c (begin false s') i ≡ ok r') same (rw there saved.here);
    elsewhere = λ j ne. rw there (saved.elsewhere j (rw same ne));
    names = λ n. rw there (saved.names n);
  }
    where
      there : begin false s' ≡ t'
      there = begin-live s' t' saved.live h

      same : r'.id ≡ id
      same = d.identity.id ∙ (load-IsLoaded c (begin false s) id d.before d.loaded).same_id

  Edited-Committed :
      (op : Edit) (s s' : Store Raw) (id : Text) (expected now : ℕ) (r' : Sandbox)
      (t' : Transaction Raw)
      → Edited (begin false s) op id expected now r' t'
      → s'.records ≡ t'.records
      → Committed c s op id expected now r' s'
  Edited-Committed op s s' id expected now r' t' d h = elim d.how [
    | inl (same, again, still) ↦
        let stays : begin false s' ≡ begin false s =
          begin-live s' t' (ap (λ (t : Transaction Raw). t.cancelled) still) h ∙ still in
        record {
          before = d.before;
          loaded = d.loaded;
          fenced = d.fenced;
          identity = d.identity;
          how = inl (same, again, h ∙ ap (λ (t : Transaction Raw). t.records) still);
          after = rw (stays, same) d.loaded;
          elsewhere = λ j ne. rw stays;
          names = λ n. rw stays;
        }
    | inr (m, saved) ↦ saved-Committed op s s' id expected now r' t' d h m saved
  ]

  pub in_store-eq-ok :
      {A : Type 0} (p : Result A × Store Raw) (a : A) (s' : Store Raw)
      → in_store p ≡ (ok a, s')
      → (p.0 ≡ ok a) × (p.1 ≡ s')
  in_store-eq-ok p a s' h = (in_context-eq-ok false p.0 (ap (λ q. q.0) h), ap (λ q. q.1) h)

  -- Each of the nine calls that edit a record, when it succeeds, found it under the expected
  -- generation, kept its ID, image, VMM and creation time and of its configuration all but the
  -- NIC count and the network name, and either, for BeginStart, BeginStop and BeginDelete on a
  -- record already in the state they lead to, left the store alone, or moved the record along the
  -- lifecycle diagram to the state of that call, under the next generation and with the failure,
  -- network and network name that the call sets, or, for UpdateNetwork, gave a running sandbox
  -- the given setup and network name and one NIC for each interface, in the same backend,
  -- namespace and generation; the returned record is what the store then loads, and no other
  -- record and no name changes.
  pub run-Committed :
      (e : Edit) (w : Weather) (s s' : Store Raw) (id : Text) (expected now : ℕ) (r' : Sandbox)
      → run c e w s id expected now ≡ (ok r', s')
      → Committed c s e id expected now r' s'
  run-Committed e w s s' id expected now r' h = elim (run-Runs c e w s id expected now) [
    | inl (f, g) ↦ absurd (ground arith)
    | inr (admitted, g) ↦
        let body = edit c (change_of e expected now) id in
        let (won, left) = in_store-eq-ok (update w body s) r' s' (sym g ∙ h) in
        let (t', ran, there) = update-eq-ok w s body won in
        Edited-Committed e s s' id expected now r' t'
          (edit-Edited (change_of e expected now) e id expected now (begin false s) r' t'
            (λ r. change_of-Effect e expected now r admitted) ran)
          (ap (λ (q : Store Raw). q.records) (sym left) ∙ there)
  ]

  ok-not-err : {A : Type 0} {a : A} {f : Failure} → ¬ (ok a ≡ err f)
  ok-not-err h = cc

  pub in_store-eq-err :
      {A : Type 0} (w : Weather) (s s' : Store Raw)
      (body : Transaction Raw → Result (A × Transaction Raw)) (f : Failure)
      → in_store (update w body s) ≡ (err f, s')
      → s'.records ≡ s.records
  in_store-eq-err {A = A} w s s' body f h = elim (Result-cases (update w body s).0) [
    | inl (a, e) ↦
        absurd
          (ok-not-err (sym (ap (in_context false) e) ∙ ap (λ (q : Result A × Store Raw). q.0) h))
    | inr (f', e) ↦
        ap (λ (q : Store Raw). q.records) (sym (ap (λ q. q.1) h)) ∙ update-eq-err w s body e
  ]

  -- An edit that fails, wherever it fails, leaves every record of the store as it was.
  pub run-err :
      (e : Edit) (w : Weather) (s s' : Store Raw) (id : Text) (expected now : ℕ) (f : Failure)
      → run c e w s id expected now ≡ (err f, s')
      → s'.records ≡ s.records
  run-err e w s s' id expected now f h = elim (run-Runs c e w s id expected now) [
    | inl (f', g) ↦ ap (λ (q : Result Sandbox × Store Raw). q.1.records) (sym h ∙ g)
    | inr (admitted, g) ↦
        in_store-eq-err w s s' (edit c (change_of e expected now) id) f (sym g ∙ h)
  ]
