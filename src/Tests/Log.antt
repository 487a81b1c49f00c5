-- ===== src/Tests/Log.antt =====
-- The log of a job, with an encoder that leaves out newlines.
use flynn_controller.Prelude.{
  true, false, ◌++◌, ◌==◌, if◌then◌else◌, list_eqb, ◌≡◌, refl, some, List, [], ◌∷◌, Text, codes,
  text_eq, arith,
}
use flynn_controller.Strings.{remove_all}
use flynn_controller.Strings.Laws.{remove_all-Lacks}
use flynn_controller.Jobs.Log.{Chunk, log_events, job_log, write_event, Writer}
use flynn_controller.Jobs.Log.Writing.{IsReported, write_event-IsReported}
use flynn_controller.Jobs.Log.Events.{append, read_events, printed, log_events-read}

abbrev chunk : Text → Text → Chunk
chunk s text = record { stream = s; data_text = text }

abbrev line : Chunk → Text
line c = b'{' ∷ remove_all b'\n' c.data_text

abbrev chunks : List Chunk
chunks = chunk (codes "stdout") (codes "hello\n") ∷ chunk (codes "stderr") (codes "oops\n") ∷ []

log_events-read_example :
    read_events (log_events append (printed line) chunks [])
    ≡ ([], codes "{hello") ∷ ([], codes "{oops") ∷ (codes "eof", codes "{}") ∷ []
unfolding remove_all
log_events-read_example =
    log_events-read line chunks
      (λ c. ((λ e. ground arith), ((λ e. ground arith), remove_all-Lacks b'\n' c.data_text)))

abbrev hello : Chunk
hello = chunk (codes "stdout") (codes "hello")

write_event-IsReported_example :
    IsReported append (printed line) hello [] (write_event append (printed line) hello [])
write_event-IsReported_example = write_event-IsReported append (printed line) hello []

-- a writer that fails where it is given a newline and nothing else
abbrev stops : Writer Text
stops bytes out = if bytes == codes "\n" then (true, out) else (false, out ++ bytes)

stopped : write_event stops (printed line) hello [] ≡ (5, true, codes "data: {hello\n")
unfolding write_event remove_all list_eqb
stopped = refl

-- without the header, the bytes are copied
copied :
    job_log append
      (printed line)
      (record { chunks = λ s. chunks; bytes = λ (s : Text). s })
      (λ request w. (some (codes "raw"), w))
      (λ s w. w)
      (codes "j")
      []
      (codes "*/*")
      []
    ≡ (200, codes "raw")
unfolding job_log
copied = refl
