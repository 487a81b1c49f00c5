-- ===== src/Jobs/Log.antt =====
-- jobs.go: jobLog and the writer of its events. The response writer, the encoder of JSON and the
-- stream of the host are arguments. The lock makes a Write one step, so that the two streams of a
-- job are one sequence of writes.
pub mod Events
pub mod Writing
use flynn_controller.Prelude.{
  Bool, true, false, Option, none, some, List, [], ◌∷◌, ◌++◌, Text, codes, text_eq, list_eqb, ◌==◌,
  if◌then◌else◌, pos, length, ℕ,
}
use flynn_controller.Strings.{contains}
use flynn_controller.Types.{AttachReq}

-- sseLogChunk
pub record Chunk : Type 0 where
  pub stream : Text
  pub data_text : Text

-- what jobLog asks the host for; `tail` is the value of the form
unfoldable pub log_request : Text → Text → AttachReq
unfolding list_eqb
log_request id tail = record {
  job_id = id;
  flags =
      codes "stdout"
      ∷ codes "stderr"
      ∷ codes "logs"
      ∷ (if tail == [] then [] else codes "stream" ∷ []);
  height = pos 0;
  width = pos 0;
}

-- strings.Contains(req.Header.Get("Accept"), "text/event-stream")
unfoldable pub wants_events : Text → Bool
unfolding contains
wants_events accept = contains (codes "text/event-stream") accept

abbrev pub eof_event : Text
eof_event = codes "event: eof\ndata: {}\n\n"

-- io.Writer.Write; a true flag is an error
abbrev pub Writer : Type 0 → Type 0
Writer W = Text → W → Bool × W

module _ {W : Type 0} (write : Writer W) (encode : Chunk → Option Text) where
  -- json.Encoder.Encode: the text and a newline, in one Write
  unfoldable pub encode_chunk : Chunk → W → Bool × W
  encode_chunk chunk w = elim (encode chunk) [
    | none ↦ (true, w)
    | some text ↦ write (text ++ codes "\n") w
  ]

  -- from the Encode on
  unfoldable pub write_chunk : Chunk → Bool × W → ℕ × Bool × W
  unfolding encode_chunk
  write_chunk chunk (true, w) = (0, true, w)
  write_chunk chunk (false, w) =
      let (bad, w1) = encode_chunk chunk w in
      let (broken, w2) = write (codes "\n") w1 in
      if bad then (0, true, w1) else (length chunk.data_text, broken, w2)

  -- sseLogStreamWriter.Write: the number of bytes, and the error
  unfoldable pub write_event : Chunk → W → ℕ × Bool × W
  unfolding write_chunk
  write_event chunk w = write_chunk chunk (write (codes "data: ") w)

  -- the writes that demultiplex.Copy makes
  unfoldable pub copy_events : List Chunk → W → W
  unfolding write_event
  copy_events [] w = w
  copy_events (chunk ∷ chunks) w = copy_events chunks (write_event chunk w).2

  -- the branch of jobLog for events, with what the stream carries
  unfoldable pub log_events : List Chunk → W → W
  unfolding copy_events
  log_events chunks w = (write eof_event (copy_events chunks w)).1

-- what Attach gives: the writes that demultiplex.Copy makes of a stream, and its bytes
pub record Stream (S : Type 0) : Type 0 where
  pub chunks : S → List Chunk
  pub bytes : S → Text

module _ {W S : Type 0} (write : Writer W) (encode : Chunk → Option Text) (stream : Stream S)
    (attach : AttachReq → W → Option S × W) (close : S → W → W) where
  -- jobLog, with the status of the answer
  unfoldable pub job_log : Text → Text → Text → W → ℕ × W
  unfolding log_request wants_events log_events
  job_log id tail accept w =
      let (attached, w1) = attach (log_request id tail) w in
      elim attached [
        | none ↦ (500, w1)
        | some s ↦
            let events = log_events write encode (stream.chunks s) w1 in
            let (bad, copied) = write (stream.bytes s) w1 in
            (200, close s (if wants_events accept then events else copied))
      ]
