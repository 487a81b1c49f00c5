-- ===== src/Client/Connecting.antt =====
-- client/client.go: NewClient, NewClientWithPin, Close, delete, StreamFormations and RunJobAttached.
-- The packages net/url, net, discoverd, pinned and rpcplus are arguments.
use flynn_controller.Prelude.{
  Bool, true, false, Option, none, some, [], ◌∷◌, ◌++◌, Text, codes, text_eq, list_eqb, ◌==◌,
  if◌then◌else◌,
}
use flynn_controller.Routing.{delete_method}
use flynn_controller.Scheduler.State.{Outcome, done, panic, nil_dereference}
use flynn_controller.Hijack.{
  Transport, Hijacked, undialled, unanswered, unexpected, switched, hijack_request,
}
use flynn_controller.Client.{Connection, nothing, Answer, authorization, raw_req}

-- url.URL, with what the client does not look at in `rest`
pub record Location (R : Type 0) : Type 0 where
  pub scheme : Text
  pub host : Text
  pub rest : R

pub record UrlPackage (R : Type 0) : Type 0 where
  -- url.Parse
  pub parse : Text → Option (Location R)
  -- URL.String
  pub print : Location R → Text
  -- the port that net.SplitHostPort finds, blank where it fails
  pub port_of : Text → Text

-- The function `dial` of a client: nil, that of the discoverd dialer, or that of a pinned config.
pub data Dial : Type 0 where
  no_dial discovered : Dial
  pinned : (pin : Text) → Dial

-- Client. `http` is http.DefaultClient where `dial` is nil and else a client that dials with `dial`.
pub record Client : Type 0 where
  pub url : Text
  pub key : Text
  pub addr : Text
  pub dial : Dial
  -- dialClose is set
  pub closes : Bool

abbrev pub default_uri : Text
default_uri = codes "discoverd+http://flynn-controller"

abbrev pub discoverd_scheme : Text
discoverd_scheme = codes "discoverd+http"

module _ {R : Type 0} (urls : UrlPackage R) where
  -- NewClient, from the answer of url.Parse on; `connect` is discoverd.Connect, a true flag an error
  unfoldable pub connected :
      {W : Type 0} → (W → Bool × W) → Text → Text → Location R → W → Option Client × W
  unfolding list_eqb
  connected connect uri key u w =
      if u.scheme == discoverd_scheme
      then (let (failed, w1) = connect w in
          if failed then (none, w1) else (
            some (record {
              url = urls.print (record u { scheme = codes "http" });
              key = key;
              addr = u.host;
              dial = discovered;
              closes = true;
            }),
            w1,
          ))
      else (
        some (record { url = uri; key = key; addr = u.host; dial = no_dial; closes = false }),
        w,
      )

  -- the blank address is that of discoverd
  abbrev pub uri_of : Text → Text
  uri_of [] = default_uri
  uri_of (c ∷ uri) = c ∷ uri

  -- NewClient
  unfoldable pub new_client : {W : Type 0} → (W → Bool × W) → Text → Text → W → Option Client × W
  unfolding connected
  new_client connect uri key w = elim (urls.parse (uri_of uri)) [
    | none ↦ (none, w)
    | some u ↦ connected connect (uri_of uri) key u w
  ]

  -- u.Host += ":443"
  unfoldable pub with_port : Text → Text
  unfolding list_eqb
  with_port host = if urls.port_of host == [] then host ++ codes ":443" else host

  -- NewClientWithPin
  unfoldable pub new_client_with_pin : Text → Text → Text → Option Client
  unfolding with_port
  new_client_with_pin uri key pin = elim (urls.parse uri) [
    | none ↦ none
    | some u ↦ some (record {
      url = urls.print (record u { scheme = codes "http"; host = with_port u.host });
      key = key;
      addr = with_port u.host;
      dial = pinned pin;
      closes = false;
    })
  ]

-- Close; `stop` is dialClose.Close
unfoldable pub close : {W : Type 0} → (W → W) → Client → W → W
close stop client w = if client.closes then stop w else w

-- delete: a body is closed and not decoded
unfoldable pub delete :
    {W : Type 0} → Connection W → (Text → Text) → Text → Text → W → Answer Text × W
unfolding raw_req
delete connection encode key path w = raw_req connection encode key delete_method path [] nothing w

-- What StreamFormations returns: an error with a closed channel where the connection or the
-- handshake fails, and else the call, by its method and its argument.
pub data Streamed (T : Type 0) : Type 0 where
  undialled_stream refused_stream : Streamed T
  calls : Text → T → Streamed T

abbrev pub since_of : {T : Type 0} → T → Option T → T
since_of epoch none = epoch
since_of epoch (some since) = since

module _ {W N T : Type 0} (dial : Dial → Text → W → Option N × W)
    (handshake : N → Text → W → Bool × W) (encode : Text → Text) (epoch : T) where
  -- StreamFormations: `dial` of `no_dial` is net.Dial, and a true flag of the handshake an error
  unfoldable pub stream_formations : Client → Option T → W → Streamed T × W
  unfolding authorization
  stream_formations client since w =
      let (conn, w1) = dial client.dial client.addr w in
      elim conn [
        | none ↦ (undialled_stream, w1)
        | some c ↦
            let (refused, w2) = handshake c (authorization encode client.key) w1 in
            if refused
            then (refused_stream, w2)
            else (calls (codes "Controller.StreamFormations") (since_of epoch since), w2)
      ]

-- What RunJobAttached returns: an error, or what the connection brings.
pub data Attached : Type 0 where
  unattached : Attached
  attached : (reads : Text) → Attached

-- from the answer of HijackRequest on: `res.Body.Close()` where there is no response panics
unfoldable pub attached_of : Outcome Hijacked → Outcome Attached
attached_of (panic fault) = panic fault
attached_of (done undialled) = panic nil_dereference
attached_of (done unanswered) = panic nil_dereference
attached_of (done (unexpected status)) = done unattached
attached_of (done (switched reads)) = done (attached reads)

-- The request of RunJobAttached: toJSON may fail, and so may http.NewRequest, whose error is dropped.
pub data Prepared : Type 0 where
  unencoded malformed : Prepared
  prepared : (host request : Text) → Prepared

module _ {W N : Type 0} (transport : Transport W N) where
  -- RunJobAttached. Without a request, `req.Header` panics.
  unfoldable pub run_job_attached : Prepared → W → Outcome Attached × W
  unfolding hijack_request attached_of
  run_job_attached unencoded w = (done unattached, w)
  run_job_attached malformed w = (panic nil_dereference, w)
  run_job_attached (prepared host request) w =
      let (hijacked, w1) = hijack_request transport host request w in (attached_of hijacked, w1)
