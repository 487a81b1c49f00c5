-- ===== src/Jobs/Log/Events.antt =====
-- The log of a job, read as events.
use flynn_controller.Prelude.{
  ◌≡◌, ◌≢◌, ◌∙◌, refl, ap, sym, false, Option, some, List, [], ◌∷◌, ◌++◌, map, append_assoc,
  append-nil, Text, codes, text_eq, list_eqb, ◌==◌, beq_ne, if◌then◌else◌, drop, arith,
}
use flynn_controller.Strings.{split, has_prefix}
use flynn_controller.Strings.Laws.{Lacks, split-append}
use flynn_controller.Jobs.Log.{
  Chunk, eof_event, Writer, encode_chunk, write_chunk, write_event, copy_events, log_events,
}

-- a response that takes all that is written
abbrev pub append : Writer Text
append bytes out = (false, out ++ bytes)

-- a further line of data
abbrev with_data : Text → Text → Text
with_data [] more = more
with_data (c ∷ text) more = (c ∷ text) ++ b'\n' ∷ more

-- The lines of an event stream, as its standard reads them: the type and the text of each event,
-- which ends at an empty line. The first arguments are the type and the text so far.
unfoldable pub read_lines : Text → Text → List Text → List (Text × Text)
unfolding has_prefix list_eqb
read_lines type text [] = []
read_lines type text ([] ∷ lines) =
    let rest = read_lines [] [] lines in if text == [] then rest else (type, text) ∷ rest
read_lines type text ((c ∷ s) ∷ lines) =
    let line = c ∷ s in
    let with_more = read_lines type (with_data text (drop 6 line)) lines in
    let with_type = read_lines (drop 7 line) text lines in
    let other = read_lines type text lines in
    if has_prefix (codes "data: ") line
    then with_more
    else if has_prefix (codes "event: ") line
    then with_type
    else other

unfoldable pub read_events : Text → List (Text × Text)
unfolding read_lines split
read_events s = read_lines [] [] (split b'\n' s)

module _ (print : Chunk → Text) where
  abbrev pub printed : Chunk → Option Text
  printed chunk = some (print chunk)

  -- what one write sends
  abbrev frame : Chunk → Text
  frame chunk = codes "data: " ++ print chunk ++ codes "\n\n"

  abbrev frames : List Chunk → Text
  frames [] = []
  frames (chunk ∷ chunks) = frame chunk ++ frames chunks

  write_event-frame :
      (chunk : Chunk) (out : Text) → (write_event append printed chunk out).2 ≡ out ++ frame chunk
  unfolding write_event write_chunk encode_chunk
  write_event-frame chunk out =
      append_assoc (out ++ codes "data: ") (print chunk ++ codes "\n") (codes "\n")
      ∙ ap (λ t. (out ++ codes "data: ") ++ t)
          (append_assoc (print chunk) (codes "\n") (codes "\n"))
      ∙ append_assoc out (codes "data: ") (print chunk ++ codes "\n\n")

  copy_events-frames :
      (chunks : List Chunk) (out : Text)
      → copy_events append printed chunks out ≡ out ++ frames chunks
  unfolding copy_events
  copy_events-frames [] out = sym (append-nil out)
  copy_events-frames (chunk ∷ chunks) out =
      copy_events-frames chunks ((write_event append printed chunk out).2)
      ∙ ap (λ t. t ++ frames chunks) (write_event-frame chunk out)
      ∙ append_assoc out (frame chunk) (frames chunks)

  frame-lines :
      (chunk : Chunk) (rest : Text)
      → Lacks b'\n' (print chunk)
      → split b'\n' (frame chunk ++ rest) ≡ (codes "data: " ++ print chunk) ∷ [] ∷ split b'\n' rest
  frame-lines chunk rest h =
      ap (λ t. split b'\n' (codes "data: " ++ t)) (append_assoc (print chunk) (codes "\n\n") rest)
      ∙ split-append b'\n' (codes "data: " ++ print chunk) (b'\n' ∷ rest) (ground (arith, h))
      ∙ ap (λ l. (codes "data: " ++ print chunk) ∷ l) (split-append b'\n' [] rest tt)

  read_frame :
      (chunk : Chunk) (lines : List Text)
      → print chunk ≢ []
      → read_lines [] [] ((codes "data: " ++ print chunk) ∷ [] ∷ lines)
        ≡ ([], print chunk) ∷ read_lines [] [] lines
  unfolding read_lines has_prefix
  read_frame chunk lines h = rw (beq_ne (print chunk) [] h) refl

  read_frames :
      (chunks : List Chunk)
      → ((chunk : Chunk) → (print chunk ≢ []) × Lacks b'\n' (print chunk))
      → read_lines [] [] (split b'\n' (frames chunks ++ eof_event))
        ≡ map (λ chunk. ([], print chunk)) chunks ++ (codes "eof", codes "{}") ∷ []
  unfolding read_lines split
  read_frames [] h = refl
  read_frames (chunk ∷ chunks) h =
      ap (λ t. read_lines [] [] (split b'\n' t))
        (append_assoc (frame chunk) (frames chunks) eof_event)
      ∙ ap (read_lines [] []) (frame-lines chunk (frames chunks ++ eof_event) (h chunk).1)
      ∙ read_frame chunk (split b'\n' (frames chunks ++ eof_event)) (h chunk).0
      ∙ ap (λ l. ([], print chunk) ∷ l) (read_frames chunks h)

  -- Where the encoder of JSON writes no newline, a client that reads the log as events gets one event
  -- for each write to either stream, in their order, with its JSON text, and then the event of the
  -- end.
  pub log_events-read :
      (chunks : List Chunk)
      → ((chunk : Chunk) → (print chunk ≢ []) × Lacks b'\n' (print chunk))
      → read_events (log_events append printed chunks [])
        ≡ map (λ chunk. ([], print chunk)) chunks ++ (codes "eof", codes "{}") ∷ []
  unfolding read_events log_events
  log_events-read chunks h =
      ap (λ t. read_lines [] [] (split b'\n' (t ++ eof_event))) (copy_events-frames chunks [])
      ∙ read_frames chunks h
