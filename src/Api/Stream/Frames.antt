-- ===== src/Api/Stream/Frames.antt =====
-- However the network cuts the stream into chunks, the same records come out.
use gourl.Common.{
  ℕ, zero, suc, ◌+◌, ◌≤◌, Option, none, some, List, [], ◌∷◌, ◌++◌, Text, length, ◌≡◌, refl, arith,
  Option-cases, inl, inr, append_assoc, append-nil, ◌∙◌,
}
use gourl.Api.Stream.{first_frame, drain, frames, records_of, on_chunk, on_chunks}

-- A frame and the empty line behind it are taken off the text.
first_frame_shorter :
    (s frame rest : Text) → first_frame s ≡ some (frame, rest) → length rest + 2 ≤ length s
unfolding first_frame
first_frame_shorter [] frame rest e = cc
first_frame_shorter (c ∷ []) frame rest e = cc
first_frame_shorter (c ∷ d ∷ s) frame rest e = elim (Option-cases (first_frame (d ∷ s))) [
  | inl over ↦ ground arith
  | inr ((frame', rest'), found) ↦ ground (arith, first_frame_shorter (d ∷ s) frame' rest' found)
]

-- What follows the text does not change its first frame.
first_frame-append :
    (s more frame rest : Text)
    → first_frame s ≡ some (frame, rest)
    → first_frame (s ++ more) ≡ some (frame, rest ++ more)
unfolding first_frame
first_frame-append [] more frame rest e = cc
first_frame-append (c ∷ []) more frame rest e = cc
first_frame-append (c ∷ d ∷ s) more frame rest e = elim (Option-cases (first_frame (d ∷ s))) [
  | inl over ↦ ground arith
  | inr ((frame', rest'), found) ↦
      ground (arith, first_frame-append (d ∷ s) more frame' rest' found)
]

-- Any fuel from the length on gives the same frames.
drain_enough : (f g : ℕ) (s : Text) → length s ≤ f → length s ≤ g → drain f s ≡ drain g s
unfolding drain first_frame
drain_enough zero zero s hf hg = refl
drain_enough zero (suc g) [] hf hg = refl
drain_enough zero (suc g) (c ∷ s) hf hg = absurd (omega arith)
drain_enough (suc f) zero [] hf hg = refl
drain_enough (suc f) zero (c ∷ s) hf hg = absurd (omega arith)
drain_enough (suc f) (suc g) s hf hg = elim (Option-cases (first_frame s)) [
  | inl over ↦ rw (over, drain) refl
  | inr ((frame, rest), found) ↦
      let shorter = first_frame_shorter s frame rest found in
      let same_rest : drain f rest ≡ drain g rest =
        drain_enough f g rest (omega arith) (omega arith) in
      rw (found, drain, same_rest) refl
]

pub frames_step :
    (s frame rest : Text)
    → first_frame s ≡ some (frame, rest)
    → frames s ≡ (frame ∷ (frames rest).0, (frames rest).1)
unfolding frames drain
frames_step s frame rest found =
    let shorter = first_frame_shorter s frame rest found in
    drain_enough (length s) (suc (length s)) s (omega arith) (omega arith)
    ∙ rw (found, drain, drain_enough (length s) (length rest) rest (omega arith) (omega arith)) refl

pub frames_end : (s : Text) → first_frame s ≡ none → frames s ≡ ([], s)
unfolding frames drain
frames_end s over =
    drain_enough (length s) (suc (length s)) s (omega arith) (omega arith) ∙ rw (over, drain) refl

-- Frames of a text cut in two: those of the first part, then those of what it leaves and the rest.
frames-append :
    (fuel : ℕ) (s more : Text)
    → length s ≤ fuel
    → frames (s ++ more)
      ≡ ((frames s).0 ++ (frames ((frames s).1 ++ more)).0, (frames ((frames s).1 ++ more)).1)
frames-append zero [] more h = rw (frames_end [] (unfold first_frame in refl)) refl
frames-append zero (c ∷ s) more h = absurd (omega arith)
frames-append (suc fuel) s more h = elim (Option-cases (first_frame s)) [
  | inl over ↦ rw (frames_end s over) refl
  | inr ((frame, rest), found) ↦
      let shorter = first_frame_shorter s frame rest found in
      rw
        (
          frames_step s frame rest found,
          frames_step (s ++ more) frame (rest ++ more) (first_frame-append s more frame rest found),
          frames-append fuel rest more (omega arith),
        )
        refl
]

-- Nothing complete is left in the buffer.
frames_rest : (fuel : ℕ) (s : Text) → length s ≤ fuel → first_frame (frames s).1 ≡ none
frames_rest zero [] h = unfold frames drain first_frame in refl
frames_rest zero (c ∷ s) h = absurd (omega arith)
frames_rest (suc fuel) s h = elim (Option-cases (first_frame s)) [
  | inl over ↦ rw (frames_end s over) over
  | inr ((frame, rest), found) ↦
      let shorter = first_frame_shorter s frame rest found in
      rw (frames_step s frame rest found) (frames_rest fuel rest (omega arith))
]

-- All chunks behind one another.
abbrev pub whole : List Text → Text
whole [] = []
whole (chunk ∷ chunks) = chunk ++ whole chunks

module _ {R : Type 0} (parse : Text → Option R) where
  records_of-append :
      (fs gs : List Text) → records_of parse (fs ++ gs) ≡ records_of parse fs ++ records_of parse gs
  unfolding records_of
  records_of-append [] gs = refl
  records_of-append (f ∷ fs) gs = ground (arith, records_of-append fs gs)

  on_chunks_from :
      (buf : Text) (chunks : List Text)
      → first_frame buf ≡ none
      → on_chunks parse buf chunks
        ≡ (records_of parse (frames (buf ++ whole chunks)).0, (frames (buf ++ whole chunks)).1)
  unfolding on_chunks on_chunk
  on_chunks_from buf [] h = rw (append-nil, frames_end buf h) (unfold records_of in refl)
  on_chunks_from buf (chunk ∷ chunks) h =
      let text = buf ++ chunk in
      let later =
        on_chunks_from (frames text).1 chunks (frames_rest (length text) text (omega arith)) in
      rw
        (
          ← append_assoc buf chunk (whole chunks),
          frames-append (length text) text (whole chunks) (omega arith),
          records_of-append,
          later,
        )
        refl

  -- However the stream is cut into chunks, `onLog` receives the records of the frames of the whole
  -- text, in order and each once, and the same unfinished text stays in the buffer.
  pub on_chunks-whole :
      (chunks : List Text)
      → on_chunks parse [] chunks
        ≡ (records_of parse (frames (whole chunks)).0, (frames (whole chunks)).1)
  on_chunks-whole chunks = on_chunks_from [] chunks (unfold first_frame in refl)
