-- ===== src/Sandboxes/Failing.antt =====
-- The catalog's calls that return an error, and Close: they change no record.
use kuma_box.Prelude.{ℕ, ◌≡◌, sym, ap, ◌∙◌, inl, inr, not, Text}
use kuma_box.Errdefs.{Failure, Result, err, or_else, refuse_if, ◌>>◌}
use kuma_box.Types.Ids.{Digest}
use kuma_box.Types.Sandbox.{creating, deleting, Sandbox, validate_sandbox}
use kuma_box.Metadata.{Store, Weather, update, close}
use kuma_box.Sandboxes.Records.{Codecs}
use kuma_box.Sandboxes.Changes.{bad_request}
use kuma_box.Sandboxes.Operations.{
  ImageReader, is_reservation, in_store, reserve, reserve_in, finalize_delete, forget, remove_from,
}
use kuma_box.Sandboxes.Edits.{after_check-cases}
use kuma_box.Sandboxes.Lifecycle.{in_store-eq-err}

pub close-records : {Raw : Type 0} (s s' : Store Raw) → s' ≡ close s → s'.records ≡ s.records
unfolding close
close-records s s' h = ap (λ q. q.records) h

module _ {Raw : Type 0} (c : Codecs Raw) where
  -- A reservation that fails, at its guard, in its transaction or at the commit, changes no record.
  pub reserve-err :
      (images : ImageReader Raw) (w : Weather) (s s' : Store Raw) (reference : Text)
      (expected : Digest) (r : Sandbox) (f : Failure)
      → reserve c images w s reference expected r ≡ (err f, s')
      → s'.records ≡ s.records
  unfolding reserve
  reserve-err images w s s' reference expected r f h =
      let body = reserve_in c images reference expected r in
      elim (after_check-cases
        (do
          or_else bad_request (validate_sandbox c.parsers r)
          refuse_if (not (is_reservation expected r)) bad_request)
        s (in_store (update w body s))) [
          | inl (f', g) ↦ ap (λ (q : Result (Unit {0}) × Store Raw). q.1.records) (sym h ∙ g)
          | inr (checked, g) ↦ in_store-eq-err c w s s' body f (sym g ∙ h)
        ]

  pub finalize_delete-err :
      (w : Weather) (s s' : Store Raw) (id : Text) (expected : ℕ) (f : Failure)
      → finalize_delete c w s id expected ≡ (err f, s')
      → s'.records ≡ s.records
  unfolding finalize_delete
  finalize_delete-err w s s' id expected f h =
      in_store-eq-err c w s s' (remove_from c deleting id expected) f h

  pub forget-err :
      (w : Weather) (s s' : Store Raw) (id : Text) (expected : ℕ) (f : Failure)
      → forget c w s id expected ≡ (err f, s')
      → s'.records ≡ s.records
  unfolding forget
  forget-err w s s' id expected f h =
      in_store-eq-err c w s s' (remove_from c creating id expected) f h
