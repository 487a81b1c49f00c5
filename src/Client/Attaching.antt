-- ===== src/Client/Attaching.antt =====
-- What RunJobAttached of client/client.go returns, over HijackRequest of utils/hijack.go.
use flynn_controller.Prelude.{Bool, ◌≡◌, ◌⊎◌, ap, ◌∙◌, Option, none, some, ◌++◌, Text, true, false}
use flynn_controller.Scheduler.State.{Fault, Outcome, done, panic}
use flynn_controller.Hijack.{
  Transport, broken, replied, Hijacked, undialled, switched, hijack_reply, hijack_request,
  taken_over, reads_of_lem,
}
use flynn_controller.Client.Connecting.{
  Prepared, unencoded, malformed, prepared, Attached, attached, attached_of, run_job_attached,
}

module _ {W N : Type 0} (transport : Transport W N) where
  -- HijackRequest ends without a response.
  abbrev pub HasNoResponse : Text → Text → W → Type 0
  HasNoResponse host request w =
      ((transport.dial host w).0 ≡ none)
      ⊎ ((conn : N) × ((transport.dial host w).0 ≡ some conn)
          × ((transport.exchange conn request (transport.dial host w).1).0 ≡ broken))

  -- The protocols are switched on a connection without CloseWrite.
  abbrev pub HasNoCloseWrite : Text → Text → W → Type 0
  HasNoCloseWrite host request w =
      (conn : N) × (eof : Bool) × ((transport.dial host w).0 ≡ some conn)
      × ((transport.exchange conn request (transport.dial host w).1).0 ≡ replied eof 101)
      × (transport.half_closes conn ≡ false)

  abbrev pub IsPanic : Outcome Attached → Type 0
  IsPanic o = (fault : Fault) × (o ≡ panic fault)

  -- why RunJobAttached panics
  abbrev pub IsFatal : Prepared → W → Type 0
  IsFatal unencoded w = ⊥
  IsFatal malformed w = Unit
  IsFatal (prepared host request) w = HasNoResponse host request w ⊎ HasNoCloseWrite host request w

  -- What the connection brings after a switch of protocols is all of what came behind the response,
  -- in its order, whether it was read ahead or not, where the connection has CloseWrite.
  pub run_job_attached-reads :
      (host request : Text) (conn : N) (eof : Bool) (w w1 w2 : W)
      → transport.dial host w ≡ (some conn, w1)
      → transport.exchange conn request w1 ≡ (replied eof 101, w2)
      → transport.half_closes conn ≡ true
      → run_job_attached transport (prepared host request) w
        ≡ (done (attached (transport.buffered conn w2 ++ transport.rest conn w2)), w2)
  unfolding run_job_attached hijack_request hijack_reply attached_of taken_over
  run_job_attached-reads host request conn eof w w1 w2 d e closes =
      let dialled : hijack_request transport host request w
          ≡ hijack_reply transport conn (transport.exchange conn request w1) =
        ap
          (λ (p : Option N × W). elim p.0 [
            | none ↦ (done undialled, p.1)
            | some c ↦ hijack_reply transport c (transport.exchange c request p.1)
          ])
          d in
      let buffer = transport.buffered conn w2 in
      let rest = transport.rest conn w2 in
      ap (λ (p : Outcome Hijacked × W). (attached_of p.0, p.1))
        (dialled
          ∙ ap (hijack_reply transport conn) e
          ∙ ap (λ b. (taken_over b buffer rest, w2)) closes
          ∙ ap (λ bytes. (done (switched bytes), w2)) (reads_of_lem buffer rest))
