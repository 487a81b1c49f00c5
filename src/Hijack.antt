-- ===== src/Hijack.antt =====
-- utils/hijack.go: HijackRequest, which sends a request on a connection of its own and then takes
-- the connection over. The dialer and what ClientConn makes of the request are arguments.
use flynn_controller.Prelude.{
  ℕ, Bool, true, false, Option, none, some, [], ◌∷◌, ◌++◌, Text, nat_eqb, if◌then◌else◌, ◌≡◌, refl,
}
use flynn_controller.Scheduler.State.{Outcome, done, panic, failed_assertion}

-- What ClientConn.Do answers: an error without a response, or a status; the flag is ErrPersistEOF,
-- which comes with a response.
pub data Reply : Type 0 where
  broken : Reply
  replied : (persist_eof : Bool) (status : ℕ) → Reply

-- What HijackRequest returns, unless it panics. Only `unexpected` and `switched` have a response, and `switched` has
-- what a reader gets: the bytes in the order of the reads.
pub data Hijacked : Type 0 where
  undialled unanswered : Hijacked
  unexpected : ℕ → Hijacked
  switched : (reads : Text) → Hijacked

-- A dialled connection `N` over the world.
pub record Transport (W N : Type 0) : Type 0 where
  -- dial("tcp", address)
  pub dial : Text → W → Option N × W
  -- clientconn.Do(req)
  pub exchange : N → Text → W → Reply × W
  -- clientconn.Hijack(): what was read ahead into the buffer, and what the connection still brings
  pub buffered : N → W → Text
  pub rest : N → W → Text
  -- the connection has the method CloseWrite
  pub half_closes : N → Bool

-- io.MultiReader(io.LimitReader(buf, buf.Buffered()), rwc) where something is buffered
unfoldable pub reads_of : Text → Text → Text
reads_of [] rest = rest
reads_of (b ∷ buffer) rest = (b ∷ buffer) ++ rest

-- From clientconn.Hijack() on. A type assertion of a connection without CloseWrite panics: where
-- something is buffered that is rwc.(writeCloser), and else rwc.(ReadWriteCloser). The struct that
-- reads the buffer first has the CloseWrite that was asserted.
unfoldable pub taken_over : Bool → Text → Text → Outcome Hijacked
unfolding reads_of
taken_over false buffer rest = panic failed_assertion
taken_over true buffer rest = done (switched (reads_of buffer rest))

module _ {W N : Type 0} (transport : Transport W N) where
  unfoldable pub hijack_reply : N → Reply × W → Outcome Hijacked × W
  unfolding taken_over
  hijack_reply conn (broken, w) = (done unanswered, w)
  hijack_reply conn (replied persist_eof status, w) =
      if nat_eqb status 101
      then (
        taken_over (transport.half_closes conn) (transport.buffered conn w) (transport.rest conn w),
        w,
      )
      else (done (unexpected status), w)

  -- HijackRequest, of the host of the request's URL and of the request
  unfoldable pub hijack_request : Text → Text → W → Outcome Hijacked × W
  unfolding hijack_reply
  hijack_request host request w =
      let (dialled, w1) = transport.dial host w in
      elim dialled [
        | none ↦ (done undialled, w1)
        | some conn ↦ hijack_reply conn (transport.exchange conn request w1)
      ]

-- Nothing that was read ahead is lost or moved.
pub reads_of_lem : (buffer rest : Text) → reads_of buffer rest ≡ buffer ++ rest
unfolding reads_of
reads_of_lem [] rest = refl
reads_of_lem (b ∷ buffer) rest = refl
