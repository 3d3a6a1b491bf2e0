-- ===== src/Examples/Agent.antt =====
-- The theorems on the guest channel at concrete messages.
use kuma_box.Prelude.{ℕ, ◌≡◌, Bool, true, some, List, [], ◌∷◌, text, arith}
use kuma_box.Errdefs.{Result}
use kuma_box.Agent.{Message, Encoder, new_encoder, encode_all, write_frames}
use kuma_box.Agent.Terminal.{IsOrderly, encode_all-IsOrderly}
use kuma_box.Agent.Frames.{IsSplit, frame, write_frames-IsSplit}

abbrev all_written : List Message → Message → Bool
all_written sent m = true

abbrev session : List Message
session =
    frame (text "stdout") (1 ∷ []) ∷ frame (text "exit") [] ∷ frame (text "stdout") (2 ∷ []) ∷ []

encode_all-IsOrderly_example : IsOrderly (encode_all all_written session new_encoder)
encode_all-IsOrderly_example = encode_all-IsOrderly all_written session

write_frames-IsSplit_example :
    (n : ℕ) × (r : Result (Unit {0})) × (e : Encoder) × (write_frames all_written
        (text "stdout")
        3
        (7 ∷ 8 ∷ [])
        0
        new_encoder
      ≡ some (n, r, e))
    × IsSplit (text "stdout") (7 ∷ 8 ∷ []) 0 new_encoder n r e
write_frames-IsSplit_example =
    write_frames-IsSplit all_written (text "stdout") 3 (7 ∷ 8 ∷ []) 0 new_encoder (omega arith)
