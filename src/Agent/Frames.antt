-- ===== src/Agent/Frames.antt =====
-- What a write puts on the wire: the data, in order, in frames of bounded size.
use kuma_box.Prelude.{
  ℕ, zero, suc, ◌+◌, ◌≤◌, ◌<◌, ◌≡◌, refl, sym, ap, ◌∙◌, inl, inr, Bool, some, List, [], ◌∷◌, ◌++◌,
  length, take, drop, length-append, Text, All, arith, Bool-cases,
}
use kuma_box.Errdefs.{Failure, Result, ok, err, Result-cases}
use kuma_box.Agent.{
  Message, Encoder, stream_chunk_size, next_chunk, after_chunk, encode_message, write_frames,
}

unfoldable pub flatten : List Text → Text
flatten [] = []
flatten (f ∷ fs) = f ++ flatten fs

abbrev pub frame : Text → Text → Message
frame kind content = record { kind = kind; content = content }

unfoldable pub frames_of : Text → List Text → List Message
frames_of kind [] = []
frames_of kind (f ∷ fs) = frame kind f ∷ frames_of kind fs

append_assoc : {A : Type 0} (xs ys zs : List A) → (xs ++ ys) ++ zs ≡ xs ++ (ys ++ zs)
append_assoc [] ys zs = refl
append_assoc (x ∷ xs) ys zs = ap (λ l. x ∷ l) (append_assoc xs ys zs)

append_nil : {A : Type 0} (xs : List A) → xs ++ [] ≡ xs
append_nil [] = refl
append_nil (x ∷ xs) = ap (λ l. x ∷ l) (append_nil xs)

take-drop : (n : ℕ) (d : Text) → take n d ++ drop n d ≡ d
take-drop zero d = refl
take-drop (suc n) [] = refl
take-drop (suc n) (x ∷ d) = ap (λ l. x ∷ l) (take-drop n d)

length-take-le : (n : ℕ) (d : Text) → length (take n d) ≤ n
length-take-le zero d = omega arith
length-take-le (suc n) [] = omega arith
length-take-le (suc n) (x ∷ d) = omega (arith, length-take-le n d)

length-drop-le : (n : ℕ) (d : Text) → length (drop n d) ≤ length d
length-drop-le zero d = omega arith
length-drop-le (suc n) [] = omega arith
length-drop-le (suc n) (x ∷ d) = omega (arith, length-drop-le n d)

length-drop-lt : (n x : ℕ) (d : Text) → 0 < n → length (drop n (x ∷ d)) ≤ length d
length-drop-lt zero x d h = absurd (omega (arith, h))
length-drop-lt (suc n) x d h = length-drop-le n d

length-take-positive : (n x : ℕ) (d : Text) → 0 < n → 0 < length (take n (x ∷ d))
length-take-positive zero x d h = absurd (omega (arith, h))
length-take-positive (suc n) x d h = omega arith

next_chunk-after_chunk : (d : Text) → next_chunk d ++ after_chunk d ≡ d
unfolding next_chunk after_chunk
next_chunk-after_chunk d = take-drop stream_chunk_size d

length-next_chunk : (d : Text) → length (next_chunk d) ≤ stream_chunk_size
unfolding next_chunk
length-next_chunk d = length-take-le stream_chunk_size d

length-after_chunk : (x : ℕ) (d : Text) → length (after_chunk (x ∷ d)) ≤ length d
unfolding after_chunk
length-after_chunk x d = length-drop-lt stream_chunk_size x d (omega arith)

next_chunk-positive : (x : ℕ) (d : Text) → 0 < length (next_chunk (x ∷ d))
unfolding next_chunk
next_chunk-positive x d = length-take-positive stream_chunk_size x d (omega arith)

-- The outcome of a write of `content` after `written` bytes.
pub record IsSplit (kind content : Text) (written : ℕ) (e : Encoder) (n : ℕ) (r : Result (Unit {0}))
    (e' : Encoder) : Type 0 where
  pub frames : List Text
  pub rest : Text
  pub sent : e'.sent ≡ e.sent ++ frames_of kind frames
  pub split : flatten frames ++ rest ≡ content
  pub count : n ≡ written + length (flatten frames)
  pub bounded : All (λ f. (0 < length f) × (length f ≤ stream_chunk_size)) frames
  pub whole : r ≡ ok tt → rest ≡ []
  pub failed : (f : Failure) → r ≡ err f → 0 < length rest

module _ (writes : List Message → Message → Bool) (kind : Text) where
  encode_message-sent :
      (m : Message) (e : Encoder)
      → (encode_message writes m e).0 ≡ ok tt
      → (encode_message writes m e).1.sent ≡ e.sent ++ (m ∷ [])
  unfolding encode_message
  encode_message-sent m e h = elim (Bool-cases e.terminal) [
    | inl over ↦ absurd (ground arith)
    | inr going ↦ elim (Bool-cases (writes e.sent m)) [
      | inl written ↦ simp (going, written)
      | inr broken ↦ absurd (ground arith)
    ]
  ]

  encode_message-kept :
      (m : Message) (e : Encoder) (f : Failure)
      → (encode_message writes m e).0 ≡ err f
      → (encode_message writes m e).1.sent ≡ e.sent
  unfolding encode_message
  encode_message-kept m e f h = elim (Bool-cases e.terminal) [
    | inl over ↦ simp over
    | inr going ↦ elim (Bool-cases (writes e.sent m)) [
      | inl written ↦ absurd (ground arith)
      | inr broken ↦ simp (going, broken)
    ]
  ]

  -- The first frame went out, and the rest of the write follows.
  IsSplit-on :
      (d : Text) (written : ℕ) (e e1 e' : Encoder) (n : ℕ) (r : Result (Unit {0}))
      → 0 < length (next_chunk d)
      → e1.sent ≡ e.sent ++ (frame kind (next_chunk d) ∷ [])
      → IsSplit kind (after_chunk d) (written + length (next_chunk d)) e1 n r e'
      → IsSplit kind d written e n r e'
  unfolding flatten frames_of
  IsSplit-on d written e e1 e' n r positive first s =
      let chunk = next_chunk d in
      record {
        frames = chunk ∷ s.frames;
        rest = s.rest;
        sent =
            s.sent
            ∙ ap (λ l. l ++ frames_of kind s.frames) first
            ∙ append_assoc e.sent (frame kind chunk ∷ []) (frames_of kind s.frames);
        split =
            append_assoc chunk (flatten s.frames) s.rest
            ∙ ap (λ l. chunk ++ l) s.split
            ∙ next_chunk-after_chunk d;
        count = omega (arith, s.count, length-append chunk (flatten s.frames));
        bounded = ((positive, length-next_chunk d), s.bounded);
        whole = s.whole;
        failed = s.failed;
      }

  write_frames_on :
      (fuel x : ℕ) (xs : Text) (written : ℕ) (e : Encoder) (u : Unit {0})
      → (encode_message writes (frame kind (next_chunk (x ∷ xs))) e).0 ≡ ok u
      → write_frames writes kind (suc fuel) (x ∷ xs) written e
        ≡ write_frames writes kind fuel
            (after_chunk (x ∷ xs))
            (written + length (next_chunk (x ∷ xs)))
            (encode_message writes (frame kind (next_chunk (x ∷ xs))) e).1
  unfolding write_frames
  write_frames_on fuel x xs written e u h = rw (h, write_frames) refl

  write_frames_failed :
      (fuel x : ℕ) (xs : Text) (written : ℕ) (e : Encoder) (f : Failure)
      → (encode_message writes (frame kind (next_chunk (x ∷ xs))) e).0 ≡ err f
      → write_frames writes kind (suc fuel) (x ∷ xs) written e
        ≡ some (written, err f, (encode_message writes (frame kind (next_chunk (x ∷ xs))) e).1)
  unfolding write_frames
  write_frames_failed fuel x xs written e f h = rw (h, write_frames) refl

  -- With fuel for each byte, a write of output ends, and what it puts on the wire is frames of
  -- the writer's kind, none of them empty or longer than the chunk size, whose contents in order
  -- are a beginning of the data, as long as the count that it returns says; when it succeeds they
  -- are all of the data, and when it fails something is left.
  pub write_frames-IsSplit :
      (fuel : ℕ) (d : Text) (written : ℕ) (e : Encoder)
      → length d ≤ fuel
      → (n : ℕ) × (r : Result (Unit {0})) × (e' : Encoder) × (write_frames writes kind fuel d
            written e
          ≡ some (n, r, e'))
        × IsSplit kind d written e n r e'
  unfolding write_frames flatten frames_of
  write_frames-IsSplit fuel [] written e enough = (
    written,
    ok tt,
    e,
    refl,
    record {
      frames = [];
      rest = [];
      sent = sym (append_nil e.sent);
      split = refl;
      count = omega arith;
      bounded = tt;
      whole = λ h. refl;
      failed = λ f h. absurd (ground arith);
    },
  )
  write_frames-IsSplit zero (x ∷ xs) written e enough = absurd (omega (arith, enough))
  write_frames-IsSplit (suc fuel) (x ∷ xs) written e enough =
      let d : Text = x ∷ xs in
      let m = frame kind (next_chunk d) in
      let e1 = (encode_message writes m e).1 in
      elim (Result-cases (encode_message writes m e).0) [
        | inr (f, h) ↦ (
          written,
          err f,
          e1,
          write_frames_failed fuel x xs written e f h,
          record {
            frames = [];
            rest = d;
            sent = encode_message-kept m e f h ∙ sym (append_nil e.sent);
            split = refl;
            count = omega arith;
            bounded = tt;
            whole = λ k. absurd (ground arith);
            failed = λ g k. omega arith;
          },
        )
        | inl (u, h) ↦
            let (n, r, e', k, s) =
              write_frames-IsSplit fuel (after_chunk d) (written + length (next_chunk d)) e1
                (omega (arith, enough, length-after_chunk x xs)) in
            (
              n,
              r,
              e',
              write_frames_on fuel x xs written e u h ∙ k,
              IsSplit-on d written e e1 e' n r (next_chunk-positive x xs)
                  (encode_message-sent m e h) s,
            )
      ]
