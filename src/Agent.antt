-- ===== src/Agent.antt =====
-- internal/agent/protocol.go: the encoder of the guest channel and the writer that cuts process output
-- into frames. Writing a frame to the connection is outside; whether it succeeds is a parameter, and
-- one that fails is taken to have put nothing on the wire.
pub mod Frames
pub mod Terminal
use kuma_box.Prelude.{
  ℕ, zero, suc, ◌+◌, Bool, true, false, ◌||◌, Option, none, some, List, [], ◌∷◌, ◌++◌,
  if◌then◌else◌, length, take, drop, Text, text, text_eq,
}
use kuma_box.Errdefs.{Result, ok, err, plain}

-- Message, with the fields that the encoder and the writer of frames set.
pub record Message : Type 0 where
  pub kind : Text
  pub content : Text

abbrev pub stream_chunk_size : ℕ
stream_chunk_size = 32768

-- terminalMessage.
unfoldable pub terminal_message : Text → Bool
terminal_message kind =
    text_eq kind (text "exit") || text_eq kind (text "error") || text_eq kind (text "done")

-- Encoder, with the messages that are on the wire.
pub record Encoder : Type 0 where
  pub sent : List Message
  pub terminal : Bool

abbrev pub new_encoder : Encoder
new_encoder = record { sent = []; terminal = false }

-- data[:length] and data[length:], for the length of the next frame.
unfoldable pub next_chunk : Text → Text
next_chunk d = take stream_chunk_size d

unfoldable pub after_chunk : Text → Text
after_chunk d = drop stream_chunk_size d

module _ (writes : List Message → Message → Bool) where
  -- Encoder.Encode, one call at a time as the mutex makes them.
  unfoldable pub encode_message : Message → Encoder → Result (Unit {0}) × Encoder
  encode_message m e =
      if e.terminal
      then (err plain, e)
      else if writes e.sent m
      then (
        ok tt,
        record {
          sent = e.sent ++ (m ∷ []);
          terminal = if terminal_message m.kind then true else e.terminal;
        },
      )
      else (err plain, e)

  -- framedWriter.Write: fuel for the loop, the data that is left and the count of what was written.
  unfoldable pub write_frames :
      Text → ℕ → Text → ℕ → Encoder → Option (ℕ × Result (Unit {0}) × Encoder)
  write_frames kind fuel [] written e = some (written, ok tt, e)
  write_frames kind zero (x ∷ xs) written e = none
  write_frames kind (suc fuel) (x ∷ xs) written e =
      let chunk = next_chunk (x ∷ xs) in
      let (result, e') = encode_message (record { kind = kind; content = chunk }) e in
      let rest = write_frames kind fuel (after_chunk (x ∷ xs)) (written + length chunk) e' in
      elim result [ ok u ↦ rest | err f ↦ some (written, err f, e') ]

  -- Calls of Encode after each other.
  unfoldable pub encode_all : List Message → Encoder → Encoder
  encode_all [] e = e
  encode_all (m ∷ ms) e = encode_all ms (encode_message m e).1
