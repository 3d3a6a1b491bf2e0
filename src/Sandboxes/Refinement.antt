-- ===== src/Sandboxes/Refinement.antt =====
-- The catalog seen from one sandbox ID: the abstract lifecycle that every sequence of calls follows.
use kuma_box.Prelude.{
  ℕ, ◌+◌, ◌≡◌, refl, sym, ap, ◌∙◌, ◌⊎◌, inl, inr, true, false, Option, none, some, arith, Text,
  text_eq, text_eq_iff, Bool-cases, u64,
}
use kuma_box.Errdefs.{Result, ok, err}
use kuma_box.Types.Sandbox.{SandboxState, creating, deleting, Sandbox}
use kuma_box.Metadata.{Store, begin}
use kuma_box.Metadata.Laws.{begin-live}
use kuma_box.Sandboxes.Records.{Codecs}
use kuma_box.Sandboxes.Access.{load}
use kuma_box.Sandboxes.Saved.{load-IsLoaded}
use kuma_box.Sandboxes.Edits.{state_eq_sound, Edit}
use kuma_box.Sandboxes.Outcomes.{follows, Resizes-running}
use kuma_box.Sandboxes.Lifecycle.{Committed, run-Committed, run-err}
use kuma_box.Sandboxes.Reservation.{IsAdded}
use kuma_box.Sandboxes.Removal.{IsRemoved}
use kuma_box.Sandboxes.Reachable.{
  Step, edits, reserves, finalizes, forgets, fails_edit, fails_reserve, fails_finalize,
  fails_forget, closes, reserve-IsAdded, reserve-creating, remove-IsRemoved,
}
use kuma_box.Sandboxes.Failing.{reserve-err, finalize_delete-err, forget-err, close-records}
use kuma_box.Sandboxes.Operations.{finalize_delete, forget}

-- What one ID holds: nothing, or a sandbox in a state under a generation.
abbrev pub Phase : Type 0
Phase = Option (SandboxState × ℕ)

-- One transition of the lifecycle.
pub data Life (p q : Phase) : Type 0 where
  stays : q ≡ p → Life p q
  enters : p ≡ none → q ≡ some (creating, 1) → Life p q
  moves :
      (a b : SandboxState) (g : ℕ)
      → p ≡ some (a, g)
      → q ≡ some (b, u64 (g + 1))
      → follows a b ≡ true
      → Life p q
  leaves :
      (a : SandboxState) (g : ℕ)
      → p ≡ some (a, g)
      → q ≡ none
      → (a ≡ creating) ⊎ (a ≡ deleting)
      → Life p q

-- A path of the lifecycle.
pub data Lives : Phase → Phase → Type 0 where
  rested : {p q : Phase} → q ≡ p → Lives p q
  lived : {p q : Phase} (m : Phase) → Life p m → Lives m q → Lives p q

abbrev phase_of : Result Sandbox → Phase
phase_of (ok r) = some (r.state, r.generation)
phase_of (err e) = none

module _ {Raw : Type 0} (c : Codecs Raw) where
  -- What the store holds at an ID; a record that does not load counts as nothing.
  abbrev pub phase : Store Raw → Text → Phase
  phase s id = phase_of (load c (begin false s) id)

  -- A sequence of calls, failed ones included.
  pub data Calls : Store Raw → Store Raw → Type 0 where
    finished : {s s' : Store Raw} → s' ≡ s → Calls s s'
    called : {s s' : Store Raw} (u : Store Raw) → Step c s u → Calls u s' → Calls s s'

  Committed-Life :
      (s s' : Store Raw) (e : Edit) (id : Text) (expected now : ℕ) (r' : Sandbox) (j : Text)
      → Committed c s e id expected now r' s'
      → Life (phase s j) (phase s' j)
  Committed-Life s s' e id expected now r' j d = elim (Bool-cases (text_eq id j)) [
    | inr other ↦ stays (ap phase_of (d.elsewhere j other))
    | inl same ↦
        let here : id ≡ j = (text_eq_iff id j).0 same in
        let was : phase s j ≡ some (d.before.state, d.before.generation) =
          rw (sym here) (ap phase_of d.loaded) in
        let is : phase s' j ≡ some (r'.state, r'.generation) =
          rw (sym here) (ap phase_of d.after) in
        elim d.how [
          | inl (kept, again, records) ↦
              stays (is ∙ ap (λ (r : Sandbox). phase_of (ok r)) kept ∙ sym was)
          | inr m ↦ elim m [
            | inl moved ↦
                moves d.before.state r'.state d.before.generation was
                  (is ∙ ap (λ g. some (r'.state, g)) moved.next) moved.edge
            | inr resized ↦
                stays (is ∙ ground (arith, Resizes-running e now d.before r' resized) ∙ sym was)
          ]
        ]
  ]

  Added-Life :
      (s s' : Store Raw) (r : Sandbox) (j : Text)
      → IsAdded c (begin false s) r (begin false s')
      → r.state ≡ creating
      → r.generation ≡ 1
      → Life (phase s j) (phase s' j)
  Added-Life s s' r j a state first = elim (Bool-cases (text_eq r.id j)) [
    | inr other ↦ stays (ap phase_of (a.elsewhere j other))
    | inl same ↦
        let here : r.id ≡ j = (text_eq_iff r.id j).0 same in
        enters (rw (sym here) (ap phase_of a.vacant))
          (rw (sym here) (ap phase_of a.here ∙ ground (arith, state, first)))
  ]

  Removed-Life :
      (s s' : Store Raw) (id : Text) (r : Sandbox) (j : Text)
      → load c (begin false s) id ≡ ok r
      → (r.state ≡ creating) ⊎ (r.state ≡ deleting)
      → r.id ≡ id
      → IsRemoved c (begin false s) r (begin false s')
      → Life (phase s j) (phase s' j)
  Removed-Life s s' id r j loaded last own a = elim (Bool-cases (text_eq r.id j)) [
    | inr other ↦ stays (ap phase_of (a.elsewhere j other))
    | inl same ↦
        let here : r.id ≡ j = (text_eq_iff r.id j).0 same in
        leaves r.state r.generation (rw (sym here, own) (ap phase_of loaded))
          (rw (sym here) (ap phase_of a.gone)) last
  ]

  Same-Life :
      (s s' : Store Raw) → s'.records ≡ s.records → (j : Text) → Life (phase s j) (phase s' j)
  Same-Life s s' same j =
      stays (ap (λ t. phase_of (load c t j)) (begin-live s' (begin false s) refl same))

  Step-Life : (s s' : Store Raw) → Step c s s' → (j : Text) → Life (phase s j) (phase s' j)
  unfolding finalize_delete forget
  Step-Life s s' (edits e w id expected now r' h) j =
      Committed-Life s s' e id expected now r' j (run-Committed c e w s s' id expected now r' h)
  Step-Life s s' (reserves images w reference expected r d h) j =
      let (state, first) = reserve-creating c images w s s' reference expected r h in
      Added-Life s s' r j (reserve-IsAdded c images w s s' reference expected r d h) state first
  Step-Life s s' (finalizes w id expected h) j =
      let (r, loaded, fenced, fits, a) = remove-IsRemoved c deleting w s s' id expected h in
      Removed-Life s s' id r j loaded (inr (state_eq_sound r.state deleting fits))
        (load-IsLoaded c (begin false s) id r loaded).same_id a
  Step-Life s s' (forgets w id expected h) j =
      let (r, loaded, fenced, fits, a) = remove-IsRemoved c creating w s s' id expected h in
      Removed-Life s s' id r j loaded (inl (state_eq_sound r.state creating fits))
        (load-IsLoaded c (begin false s) id r loaded).same_id a
  Step-Life s s' (fails_edit e w id expected now f h) j =
      Same-Life s s' (run-err c e w s s' id expected now f h) j
  Step-Life s s' (fails_reserve images w reference expected r f h) j =
      Same-Life s s' (reserve-err c images w s s' reference expected r f h) j
  Step-Life s s' (fails_finalize w id expected f h) j =
      Same-Life s s' (finalize_delete-err c w s s' id expected f h) j
  Step-Life s s' (fails_forget w id expected f h) j =
      Same-Life s s' (forget-err c w s s' id expected f h) j
  Step-Life s s' (closes h) j = Same-Life s s' (close-records s s' h) j

  -- Seen from any one ID, any sequence of calls of the catalog, calls that return an error and
  -- Close included, follows a path of the life of a sandbox: it enters as creating under
  -- generation one, stays as it is, moves along the lifecycle diagram under the next generation,
  -- and leaves only from creating or deleting.
  pub Calls-Lives : (s s' : Store Raw) → Calls s s' → (j : Text) → Lives (phase s j) (phase s' j)
  Calls-Lives s s' (finished same) j = rested (
      ap (λ t. phase_of (load c t j))
        (begin-live s' (begin false s) refl (ap (λ (q : Store Raw). q.records) same)))
  Calls-Lives s s' (called u step more) j =
      lived (phase u j) (Step-Life s u step j) (Calls-Lives u s' more j)
