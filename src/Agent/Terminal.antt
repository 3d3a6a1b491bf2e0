-- ===== src/Agent/Terminal.antt =====
-- Exit, error and done are terminal: nothing is on the wire after such a message.
use kuma_box.Prelude.{
  ◌≡◌, refl, sym, subst, inl, inr, Bool, true, false, List, [], ◌∷◌, ◌++◌, All, Bool-cases,
}
use kuma_box.Agent.{Message, terminal_message, Encoder, new_encoder, encode_message, encode_all}

abbrev pub IsPlain : List Message → Type 0
IsPlain ms = All (λ m. terminal_message m.kind ≡ false) ms

-- No terminal message was sent, or one was, at the end.
pub data IsOrderly (e : Encoder) : Type 0 where
  open_ended : e.terminal ≡ false → IsPlain e.sent → IsOrderly e
  ended :
      (before : List Message) (last : Message)
      → e.terminal ≡ true
      → e.sent ≡ before ++ (last ∷ [])
      → IsPlain before
      → terminal_message last.kind ≡ true
      → IsOrderly e

IsPlain-append :
    (ms : List Message) (m : Message)
    → terminal_message m.kind ≡ false
    → IsPlain ms
    → IsPlain (ms ++ (m ∷ []))
IsPlain-append [] m h p = (h, tt)
IsPlain-append (x ∷ ms) m h p = (p.0, IsPlain-append ms m h p.1)

module _ (writes : List Message → Message → Bool) where
  encode_message-IsOrderly :
      (m : Message) (e : Encoder) → IsOrderly e → IsOrderly (encode_message writes m e).1
  unfolding encode_message
  encode_message-IsOrderly m e (ended before last t s p l) =
      let same : (encode_message writes m e).1 ≡ e = simp t in
      subst IsOrderly (sym same) (ended before last t s p l)
  encode_message-IsOrderly m e (open_ended t p) = elim (Bool-cases (writes e.sent m)) [
    | inr broken ↦
        let same : (encode_message writes m e).1 ≡ e = simp (t, broken) in
        subst IsOrderly (sym same) (open_ended t p)
    | inl written ↦ elim (Bool-cases (terminal_message m.kind)) [
      | inl last ↦
          let same : (encode_message writes m e).1
              ≡ record { sent = e.sent ++ (m ∷ []); terminal = true } =
            simp (t, written, last) in
          subst IsOrderly (sym same) (ended e.sent m refl refl p last)
      | inr more ↦
          let same : (encode_message writes m e).1
              ≡ record { sent = e.sent ++ (m ∷ []); terminal = false } =
            simp (t, written, more) in
          subst IsOrderly (sym same) (open_ended refl (IsPlain-append e.sent m more p))
    ]
  ]

  orderly : (ms : List Message) (e : Encoder) → IsOrderly e → IsOrderly (encode_all writes ms e)
  unfolding encode_all
  orderly [] e h = h
  orderly (m ∷ ms) e h = orderly ms (encode_message writes m e).1 (encode_message-IsOrderly m e h)

  -- After any sequence of messages given to a new encoder, whichever writes fail, no terminal
  -- message is on the wire and the encoder is open, or one is, it is the last, and the encoder
  -- takes no more.
  pub encode_all-IsOrderly : (ms : List Message) → IsOrderly (encode_all writes ms new_encoder)
  encode_all-IsOrderly ms = orderly ms new_encoder (open_ended refl tt)
