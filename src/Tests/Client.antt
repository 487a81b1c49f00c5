-- ===== src/Tests/Client.antt =====
-- Requests of the client, and a router that takes paths apart at the slashes.
use flynn_controller.Prelude.{
  ℕ, ◌+◌, ◌≡◌, refl, ap, true, false, none, nat_eqb_iff, all, Option, some, List, [], ◌∷◌, ◌++◌,
  Text, codes, text_eq, list_eqb, ◌==◌, if◌then◌else◌, All, arith,
}
use flynn_controller.Prelude.Map
use flynn_controller.Prelude.Map.{Map}
use flynn_controller.Strings
use flynn_controller.Strings.{join}
use flynn_controller.Strings.Laws.{Lacks, split-join}
use flynn_controller.Auth.{to_main, rpc_mux}
use flynn_controller.Routing.{
  path_of, table, fit, job_kill, Handler, Entry, is_plain, plain_byte, IsPlain, first_fit, IsRouter,
}
use flynn_controller.Client.{
  put_resource_call, delete_key_call, request_of, authorization, Connection, nothing, missing,
  received, raw_req,
}
use flynn_controller.Routing.Injecting.{per_request, mapped, chain_of}
use flynn_controller.Routing.Supplied.{supplied, table-supplied}
use flynn_controller.Client.Reaching.{Reaches, client-Reaches}
use flynn_controller.Scheduler.State.{done, panic, failed_assertion}
use flynn_controller.Hijack.{Transport, broken, replied}
use flynn_controller.Client.Connecting.{prepared, attached, run_job_attached}
use flynn_controller.Client.Attaching.{run_job_attached-reads}
use flynn_controller.Client.Admitted.{rpc_mux-authorization}

abbrev at_slash : List Entry → Text → Text → Option (Handler × Map Text Text)
at_slash entries method [] = first_fit entries method []
at_slash entries method (c ∷ s) = first_fit entries method (Strings.split b'/' s)

plain-Lacks : (s : Text) → all plain_byte s ≡ true → Lacks b'/' s
unfolding all
plain-Lacks [] h = tt
plain-Lacks (c ∷ s) h = ((λ e. ground (arith, nat_eqb_iff c b'/')), plain-Lacks s (ground arith))

IsPlain-Lacks : (s : Text) → IsPlain s → Lacks b'/' s
unfolding is_plain
IsPlain-Lacks [] h = tt
IsPlain-Lacks (c ∷ s) h = plain-Lacks (c ∷ s) h

all-Lacks : (l : List Text) → All IsPlain l → All (Lacks b'/') l
all-Lacks [] h = tt
all-Lacks (s ∷ l) h = (IsPlain-Lacks s h.0, all-Lacks l h.1)

at_slash-IsRouter : IsRouter at_slash
at_slash-IsRouter entries method [] h = refl
at_slash-IsRouter entries method (v ∷ vs) h =
    ap (first_fit entries method) (split-join b'/' v vs (IsPlain-Lacks v h.0) (all-Lacks vs h.1))

client-Reaches_example : Reaches at_slash (put_resource_call (codes "p1") (codes "r-2"))
unfolding is_plain
client-Reaches_example =
    client-Reaches at_slash (put_resource_call (codes "p1") (codes "r-2")) at_slash-IsRouter
      (refl, (refl, tt))

abbrev segments : List Text
segments = codes "apps" ∷ codes "a1" ∷ codes "jobs" ∷ codes "h1-j" ∷ []

abbrev bound : Map Text Text
bound = (codes "apps_id", codes "a1") ∷ (codes "jobs_id", codes "h1-j") ∷ []

sent : at_slash table (codes "DELETE") (path_of segments) ≡ some (job_kill, bound)
unfolding table first_fit fit Strings.split list_eqb
sent = refl

table-supplied_example :
    supplied (per_request ++ mapped) (Map.keys bound) (chain_of job_kill) ≡ true
unfolding is_plain all
table-supplied_example =
    table-supplied at_slash (codes "DELETE") segments job_kill bound at_slash-IsRouter
      (refl, (refl, (refl, (refl, tt)))) sent

-- a fingerprint goes without its colons
unpointed : request_of (delete_key_call (codes "a:b")) ≡ some (codes "DELETE", codes "/keys/ab")
unfolding request_of
unpointed = refl

rpc_mux-authorization_example :
    rpc_mux
      (λ s. some s)
      (codes "/_goRPC_")
      (codes "key")
      (codes "/apps")
      (authorization (λ s. s) (codes "key"))
    ≡ to_main
unfolding list_eqb
rpc_mux-authorization_example =
    rpc_mux-authorization (λ s. s) (λ s. some s) (codes "/_goRPC_") (codes "key") (codes "/apps")
      (λ s. refl) (λ e. ground arith)

-- a server that has one path
abbrev server : Connection ℕ
server = record {
  exchange = λ method path content_type auth payload w.
      (if path == codes "/keys" then some (200, codes "[]") else some (404, []), w + 1);
}

keys_answered :
    raw_req server (λ s. s) [] (codes "GET") (codes "/keys") [] nothing 0
    ≡ (received (codes "[]"), 1)
unfolding raw_req list_eqb
keys_answered = refl

absent : raw_req server (λ s. s) [] (codes "GET") (codes "/key") [] nothing 0 ≡ (missing, 1)
unfolding raw_req list_eqb
absent = refl

-- A dialer that makes no connection to one host, and a server that does not answer to one request.
abbrev transport : Transport ℕ Unit
transport = record {
  dial = λ host w. (if host == [] then none else some tt, w);
  exchange = λ conn request w. (if request == [] then broken else replied false 101, w);
  buffered = λ conn w. codes "ab";
  rest = λ conn w. codes "c";
  half_closes = λ conn. true;
}

-- a connection without CloseWrite
half_open :
    run_job_attached
      (record transport { half_closes = λ conn. false })
      (prepared (codes "h") (codes "x"))
      0
    ≡ (panic failed_assertion, 0)
unfolding run_job_attached list_eqb
half_open = refl

-- What was read ahead comes first.
read_all :
    run_job_attached transport (prepared (codes "h") (codes "x")) 0
    ≡ (done (attached (codes "abc")), 0)
unfolding list_eqb
read_all = run_job_attached-reads transport (codes "h") (codes "x") tt false 0 0 0 refl refl refl
