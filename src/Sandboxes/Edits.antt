-- ===== src/Sandboxes/Edits.antt =====
-- The edits of the catalog taken together: which record each reads, and what it writes back.
use kuma_box.Prelude.{
  ℕ, ◌≡◌, refl, ap, ◌∙◌, ◌⊎◌, inl, inr, true, not, none, some, arith, Text, text_eq_iff,
}
use kuma_box.Errdefs.{Failure, Result, ok, err, or_else, refuse_if}
use kuma_box.Types.Network.{NetworkSetup, validate_setup}
use kuma_box.Types.Sandbox.{
  SandboxState, creating, starting, running, stopped, error, other_state, state_eq, SandboxFailure,
  Sandbox,
}
use kuma_box.Metadata.{Store, Weather, update}
use kuma_box.Sandboxes.Records.{Codecs}
use kuma_box.Sandboxes.Changes.{
  Change, transition_change, begin_start_change, begin_stop_change, begin_delete_change,
  mark_created_change, update_network_change, bad_request,
}
use kuma_box.Sandboxes.Operations.{
  edit, in_store, mark_created, mark_error, begin_start, mark_running, update_network,
  mark_start_error, begin_stop, mark_stopped, begin_delete, may_stop, lacks_text, after_check,
}

-- One call that edits a record.
pub data Edit : Type 0 where
  creates : NetworkSetup → Edit
  fails_create fails_start : SandboxFailure → Edit
  starts runs stops deletes : Edit
  resizes : NetworkSetup → Text → Edit
  halts : SandboxState → Edit

unfoldable pub run :
    {Raw : Type 0}
    → Codecs Raw
    → Edit
    → Weather
    → Store Raw
    → Text
    → ℕ
    → ℕ
    → Result Sandbox × Store Raw
run c (creates setup) w s id expected now = mark_created c w s id expected setup now
run c (fails_create f) w s id expected now = mark_error c w s id expected f now
run c (fails_start f) w s id expected now = mark_start_error c w s id expected f now
run c starts w s id expected now = begin_start c w s id expected now
run c runs w s id expected now = mark_running c w s id expected now
run c stops w s id expected now = begin_stop c w s id expected now
run c deletes w s id expected now = begin_delete c w s id expected now
run c (resizes setup name) w s id expected now = update_network c w s id expected setup name now
run c (halts from) w s id expected now = mark_stopped c w s id expected from now

unfoldable pub change_of : Edit → ℕ → ℕ → Sandbox → Result Change
change_of (creates setup) = mark_created_change setup
change_of (fails_create f) = transition_change creating error (some f)
change_of (fails_start f) = transition_change starting error (some f)
change_of starts = begin_start_change
change_of runs = transition_change starting running none
change_of stops = begin_stop_change
change_of deletes = begin_delete_change
change_of (resizes setup name) = update_network_change setup name
change_of (halts from) = transition_change from stopped none

pub state_eq_sound : (a b : SandboxState) → state_eq a b ≡ true → a ≡ b
state_eq_sound (other_state s) (other_state t) h = ap other_state ((text_eq_iff s t).0 h)
state_eq_sound a b h = ground arith

-- What an edit's guard has let through before the store is opened.
abbrev pub IsAdmitted : Edit → Type 0
IsAdmitted (halts from) = may_stop from ≡ true
IsAdmitted _ = Unit

-- An edit either stops at its guard and leaves the store alone, or runs its change.
abbrev pub Runs : {Raw : Type 0} → Codecs Raw → Edit → Weather → Store Raw → Text → ℕ → ℕ → Type 0
Runs c e w s id expected now =
    ((err' : Failure) × (run c e w s id expected now ≡ (err err', s)))
    ⊎ (IsAdmitted e
        × (run c e w s id expected now
            ≡ in_store (update w (edit c (change_of e expected now) id) s)))

pub after_check-cases :
    {A B : Type 0} (m : Result (Unit {0})) (s : B) (rest : Result A × B)
    → ((f : Failure) × (after_check m s rest ≡ (err f, s)))
      ⊎ ((m ≡ ok tt) × (after_check m s rest ≡ rest))
after_check-cases (err e) s rest = inl (e, refl)
after_check-cases (ok u) s rest = inr (refl, refl)

abbrev guard_of : {Raw : Type 0} → Codecs Raw → Edit → Result (Unit {0})
guard_of c (creates setup) = or_else bad_request (validate_setup c.parsers setup)
guard_of c (resizes setup name) = or_else bad_request (validate_setup c.parsers setup)
guard_of c (fails_create f) = refuse_if (lacks_text f) bad_request
guard_of c (fails_start f) = refuse_if (lacks_text f) bad_request
guard_of c (halts from) = refuse_if (not (may_stop from)) bad_request
guard_of c _ = ok tt

module _ {Raw : Type 0} (c : Codecs Raw) where
  run-after_check :
      (e : Edit) (w : Weather) (s : Store Raw) (id : Text) (expected now : ℕ)
      → run c e w s id expected now
        ≡ after_check
            (guard_of c e)
            s
            (in_store (update w (edit c (change_of e expected now) id) s))
  unfolding run change_of mark_created mark_error mark_start_error begin_start mark_running
      begin_stop begin_delete update_network mark_stopped
  run-after_check (creates setup) w s id expected now = refl
  run-after_check (fails_create f) w s id expected now = refl
  run-after_check (fails_start f) w s id expected now = refl
  run-after_check starts w s id expected now = refl
  run-after_check runs w s id expected now = refl
  run-after_check stops w s id expected now = refl
  run-after_check deletes w s id expected now = refl
  run-after_check (resizes setup name) w s id expected now = refl
  run-after_check (halts from) w s id expected now = refl

  IsAdmitted-guard : (e : Edit) → guard_of c e ≡ ok tt → IsAdmitted e
  IsAdmitted-guard (halts from) h = ground arith
  IsAdmitted-guard _ h = tt

  pub run-Runs :
      (e : Edit) (w : Weather) (s : Store Raw) (id : Text) (expected now : ℕ)
      → Runs c e w s id expected now
  run-Runs e w s id expected now =
      elim (after_check-cases (guard_of c e) s
        (in_store (update w (edit c (change_of e expected now) id) s))) [
          | inl (f, h) ↦ inl (f, run-after_check e w s id expected now ∙ h)
          | inr (g, h) ↦ inr (IsAdmitted-guard e g, run-after_check e w s id expected now ∙ h)
        ]
