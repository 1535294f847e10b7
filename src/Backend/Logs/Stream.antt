-- ===== src/Backend/Logs/Stream.antt =====
-- The stream that internal/api/logs.go writes, read by the app (frontend/src/lib/api.ts) and by the
-- browser.
use gourl.Common.{
  has_unit-Lacks, ℕ, Option, none, some, List, [], ◌∷◌, ◌++◌, map, Text, trim, trim_start, is_space,
  starts_with, ◌==◌, ◌&&◌, false, split, split-join, drop, join, All, All-append, Lacks, ◌≡◌, ◌≢◌,
  refl, ◌∙◌, ap, append-nil, arith, Option-cases, inl, inr,
}
use gourl.Api.Stream.{newline, first_frame, frames, data_line, records_of, on_chunks}
use gourl.Api.Stream.Frames.{whole, frames_step, frames_end, on_chunks-whole}
use gourl.Api.Stream.Source.{message, on_log, on_source_event, on_source_events}
use gourl.Backend.Logs.{
  Sent, event, ping, event_line, data_start, ping_line, empty_line, write_event, print_stream,
  payloads, IsPayload, IsSent,
}

abbrev body : Text → Text
body payload = event_line ++ newline ∷ data_start ++ payload

first_frame_nil : first_frame [] ≡ none
unfolding first_frame
first_frame_nil = refl

first_frame-cons :
    (c d : ℕ) (s frame rest : Text)
    → (c == newline && d == newline) ≡ false
    → first_frame (d ∷ s) ≡ some (frame, rest)
    → first_frame (c ∷ d ∷ s) ≡ some (c ∷ frame, rest)
unfolding first_frame
first_frame-cons c d s frame rest h e = rw (h, e) refl

first_frame_behind :
    (x s frame rest : Text)
    → Lacks newline x
    → first_frame s ≡ some (frame, rest)
    → first_frame (x ++ s) ≡ some (x ++ frame, rest)
first_frame_behind [] s frame rest h e = e
first_frame_behind (c ∷ []) [] frame rest (k, h) e = absurd (cc (first_frame_nil, e))
first_frame_behind (c ∷ []) (d ∷ s) frame rest (k, h) e =
    first_frame-cons c d s frame rest (ground (arith, k)) e
first_frame_behind (c ∷ d ∷ x) s frame rest (k, h) e =
    first_frame-cons c d (x ++ s) (d ∷ x ++ frame) rest (ground (arith, k))
      (first_frame_behind (d ∷ x) s frame rest h e)

data_trim : (p : Text) → IsPayload p → trim (drop 5 (data_start ++ p)) ≡ p
unfolding trim trim_start is_space
data_trim p h = h.is_trimmed

-- The data of the body is the payload.
body-data_line :
    (payload : Text)
    → IsPayload payload
    → data_line (split newline (body payload)) ≡ some (data_start ++ payload)
unfolding data_line join starts_with
body-data_line payload h =
    let lines = event_line ∷ (data_start ++ payload) ∷ [] in
    let data_lacks =
      All-append (λ c. c ≢ newline) data_start payload (has_unit-Lacks newline data_start refl)
        h.one_line in
    let cut : split newline (body payload) ≡ lines =
      split-join newline lines (λ e. cc e)
        (has_unit-Lacks newline event_line refl, (data_lacks, tt)) in
    rw (cut) refl

write_event-first_frame :
    (payload rest : Text)
    → IsPayload payload
    → first_frame (write_event payload rest) ≡ some (body payload, rest)
write_event-first_frame payload rest h =
    let payload_part : first_frame (payload ++ empty_line rest) ≡ some (payload, rest) =
      first_frame_behind payload (empty_line rest) [] rest h.one_line (unfold first_frame in refl)
      ∙ rw (append-nil) refl in
    let data_part =
      first_frame_behind data_start (payload ++ empty_line rest) payload rest
        (has_unit-Lacks newline data_start refl) payload_part in
    first_frame_behind event_line (newline ∷ data_start ++ payload ++ empty_line rest)
      (newline ∷ data_start ++ payload) rest (has_unit-Lacks newline event_line refl)
      (first_frame-cons newline b'd' _ _ rest refl data_part)

print_ping-first_frame :
    (rest : Text) → first_frame (ping_line ++ empty_line rest) ≡ some (ping_line, rest)
print_ping-first_frame rest =
    first_frame_behind ping_line (empty_line rest) [] rest (has_unit-Lacks newline ping_line refl)
      (unfold first_frame in refl)

-- The frame of what is sent, without the empty line behind it.
abbrev frame_of : Sent → Text
frame_of (event payload) = body payload
frame_of ping = ping_line

frames-print_stream :
    (ss : List Sent) → All IsSent ss → frames (print_stream ss) ≡ (map frame_of ss, [])
unfolding print_stream
frames-print_stream [] h = frames_end [] first_frame_nil
frames-print_stream (event p ∷ ss) (h, hs) =
    frames_step (write_event p (print_stream ss)) (body p) (print_stream ss)
      (write_event-first_frame p (print_stream ss) h)
    ∙ rw (frames-print_stream ss hs) refl
frames-print_stream (ping ∷ ss) (h, hs) =
    frames_step (ping_line ++ empty_line (print_stream ss)) ping_line (print_stream ss)
      (print_ping-first_frame (print_stream ss))
    ∙ rw (frames-print_stream ss hs) refl

module _ {R : Type 0} (parse : Text → Option R) where
  records_of-body :
      (p : Text) (fs : List Text)
      → IsPayload p
      → records_of parse (body p ∷ fs)
        ≡ elim (parse p) [ none ↦ records_of parse fs | some rec ↦ rec ∷ records_of parse fs ]
  unfolding records_of
  records_of-body p fs h = rw (records_of, body-data_line p h, data_trim p h) refl

  -- A comment carries no record.
  records_of-ping : (fs : List Text) → records_of parse (ping_line ∷ fs) ≡ records_of parse fs
  unfolding records_of data_line split starts_with
  records_of-ping fs = refl

  frames-records_of :
      (ss : List Sent)
      → All IsSent ss
      → map on_log (records_of parse (map frame_of ss))
        ≡ on_source_events parse (map message (payloads ss))
  unfolding records_of on_source_events on_source_event
  frames-records_of [] h = refl
  frames-records_of (ping ∷ ss) (h, hs) =
      ap (map on_log) (records_of-ping (map frame_of ss)) ∙ frames-records_of ss hs
  frames-records_of (event p ∷ ss) (h, hs) =
      let rest = frames-records_of ss hs in
      ap (map on_log) (records_of-body p (map frame_of ss) h) ∙ (elim (Option-cases (parse p)) [
        | inl bad ↦ rw (bad, on_source_event) rest
        | inr (rec, good) ↦ rw (good, on_source_event) (ap (λ cs. on_log rec ∷ cs) rest)
      ])

  -- For a stream of records and keep-alive comments that the server wrote, however it is cut into
  -- chunks, the app calls `onLog` as the browser's EventSource does that raises the records as
  -- messages, and keeps no text back.
  pub on_chunks-on_source_events :
      (ss : List Sent) (chunks : List Text)
      → All IsSent ss
      → whole chunks ≡ print_stream ss
      → let (records, left) = on_chunks parse [] chunks in
        (map on_log records ≡ on_source_events parse (map message (payloads ss))) × (left ≡ [])
  on_chunks-on_source_events ss chunks h e =
      rw (on_chunks-whole parse chunks, e, frames-print_stream ss h) (frames-records_of ss h, refl)
