-- ===== src/Tests/Auth.antt =====
-- parseBasicAuth and rpcMuxHandler with credentials that are sent as they are.
use flynn_controller.Prelude.{◌≡◌, ◌≢◌, ◌↔◌, refl, Option, some, Text, codes, arith}
use flynn_controller.Auth.{parse_basic_auth, rpc_mux, unauthorized, pong, to_main, to_rpc}
use flynn_controller.Auth.Admission.{Carries, rpc_mux_admits}

abbrev decode : Text → Option Text
decode s = some s

abbrev header : Text
header = codes "Basic me:secret"

parsed : parse_basic_auth decode header ≡ some (codes "me", codes "secret")
unfolding parse_basic_auth
parsed = refl

served : rpc_mux decode (codes "/_rpc") (codes "secret") (codes "/apps") header ≡ to_main
unfolding rpc_mux
served = refl

streamed : rpc_mux decode (codes "/_rpc") (codes "secret") (codes "/_rpc") header ≡ to_rpc
unfolding rpc_mux
streamed = refl

pinged : rpc_mux decode (codes "/_rpc") (codes "secret") (codes "/ping") (codes "") ≡ pong
unfolding rpc_mux
pinged = refl

-- An empty key lets a request without credentials through.
no_key : rpc_mux decode (codes "/_rpc") (codes "") (codes "/apps") (codes "") ≡ to_main
unfolding rpc_mux
no_key = refl

rpc_mux_admits_example :
    (rpc_mux decode (codes "/_rpc") (codes "secret") (codes "/apps") header ≢ unauthorized)
    ↔ ((user : Text) × Carries decode header user (codes "secret"))
rpc_mux_admits_example =
    rpc_mux_admits decode (codes "/_rpc") (codes "secret") (codes "/apps") header (ground arith)
      (ground arith)
