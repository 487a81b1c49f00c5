-- ===== src/Jobs/Log/Writing.antt =====
-- sseLogStreamWriter of jobs.go as an io.Writer.
use flynn_controller.Prelude.{
  ℕ, ◌≡◌, ◌⊎◌, sym, none, ◌↔◌, ◌∙◌, ap, refl, Bool, true, false, Option, some, ◌++◌, Text, codes,
  arith, length, inl, inr, Bool-cases, Option-cases,
}
use flynn_controller.Jobs.Log.{Chunk, Writer, encode_chunk, write_chunk, write_event}

module _ {W : Type 0} (write : Writer W) (encode : Chunk → Option Text) where
  -- The event is written up to its last newline: the parts went to the writer one behind the
  -- other, each without an error.
  abbrev pub IsBegun : Chunk → W → W → Type 0
  IsBegun chunk w after =
      (text : Text) × (w1 : W) × (encode chunk ≡ some text)
      × (write (codes "data: ") w ≡ (false, w1))
      × (write (text ++ codes "\n") w1 ≡ (false, after))

  -- The whole event is written.
  abbrev pub IsWritten : Chunk → W → W → Type 0
  IsWritten chunk w after =
      (before : W) × IsBegun chunk w before × (write (codes "\n") before ≡ (false, after))

  -- What Write reports: no error exactly where the whole event is written, all bytes where only its
  -- last newline may be missing, and else an error and no bytes.
  pub record IsReported (chunk : Chunk) (w : W) (r : ℕ × Bool × W) : Type 0 where
    pub succeeds : (r.1 ≡ false) ↔ IsWritten chunk w r.2
    pub counts :
        ((r.0 ≡ length chunk.data_text)
          × ((before : W) × IsBegun chunk w before × (write (codes "\n") before ≡ (r.1, r.2))))
        ⊎ ((r.0 ≡ 0) × (r.1 ≡ true))

  begun_lem :
      (chunk : Chunk) (w before : W)
      → IsBegun chunk w before
      → write_event write encode chunk w
        ≡ (length chunk.data_text, (write (codes "\n") before).0, (write (codes "\n") before).1)
  unfolding write_event write_chunk encode_chunk
  begun_lem chunk w before (text, w1, given, first, second) =
      ap (write_chunk write encode chunk) first ∙ ground arith

  -- an error, and no bytes
  abbrev IsRefused : Chunk → W → Type 0
  IsRefused chunk w =
      ((write_event write encode chunk w).0 ≡ 0) × ((write_event write encode chunk w).1 ≡ true)

  refused : (chunk : Chunk) (w : W) → (write (codes "data: ") w).0 ≡ true → IsRefused chunk w
  unfolding write_event write_chunk
  refused chunk w broken = rw (broken, write_chunk) (refl, refl)

  unencoded :
      (chunk : Chunk) (w : W)
      → (write (codes "data: ") w).0 ≡ false
      → encode chunk ≡ none
      → IsRefused chunk w
  unfolding write_event write_chunk encode_chunk
  unencoded chunk w first bad = rw (first, write_chunk) (rw (bad, encode_chunk) (refl, refl))

  cut :
      (chunk : Chunk) (w : W) (text : Text)
      → (write (codes "data: ") w).0 ≡ false
      → encode chunk ≡ some text
      → (write (text ++ codes "\n") (write (codes "data: ") w).1).0 ≡ true
      → IsRefused chunk w
  unfolding write_event write_chunk encode_chunk
  cut chunk w text first given broken =
      rw (first, write_chunk) (rw (given, encode_chunk) (rw broken (refl, refl)))

  write_event-counts :
      (chunk : Chunk) (w : W)
      → let r = write_event write encode chunk w in
        ((r.0 ≡ length chunk.data_text)
          × ((before : W) × IsBegun chunk w before × (write (codes "\n") before ≡ (r.1, r.2))))
        ⊎ ((r.0 ≡ 0) × (r.1 ≡ true))
  write_event-counts chunk w = elim (Bool-cases (write (codes "data: ") w).0) [
    | inl broken ↦ inr (refused chunk w broken)
    | inr first ↦ elim (Option-cases (encode chunk)) [
      | inl bad ↦ inr (unencoded chunk w first bad)
      | inr (text, given) ↦
          let w1 = (write (codes "data: ") w).1 in
          elim (Bool-cases (write (text ++ codes "\n") w1).0) [
            | inl broken ↦ inr (cut chunk w text first given broken)
            | inr second ↦
                let before = (write (text ++ codes "\n") w1).1 in
                let begun : IsBegun chunk w before =
                  (text, w1, given, ap (λ b. (b, w1)) first, ap (λ b. (b, before)) second) in
                let done = begun_lem chunk w before begun in
                inl (
                  ap (λ (r : ℕ × Bool × W). r.0) done,
                  (before, begun, sym (ap (λ (r : ℕ × Bool × W). (r.1, r.2)) done)),
                )
          ]
    ]
  ]

  -- Write reports no error exactly where each part of the event, its text encoded, was written
  -- without an error, one behind the other. It reports all of the bytes that it was given where
  -- this holds of all parts up to the last newline, and then the error of the write of that newline,
  -- if any; else it reports an error and no bytes.
  pub write_event-IsReported :
      (chunk : Chunk) (w : W) → IsReported chunk w (write_event write encode chunk w)
  write_event-IsReported chunk w =
      let counts = write_event-counts chunk w in
      record {
        succeeds = (
          λ fine. elim counts [
            | inl (number, wrote) ↦
                let (before, begun, last) = wrote in
                (before, begun, last ∙ ap (λ bad. (bad, (write_event write encode chunk w).2)) fine)
            | inr (number, bad) ↦ absurd (ground arith)
          ],
          λ written.
              let (before, begun, last) = written in
              ap (λ (r : ℕ × Bool × W). r.1) (begun_lem chunk w before begun)
              ∙ ap (λ (r : Bool × W). r.0) last,
        );
        counts = counts;
      }
