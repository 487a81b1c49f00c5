-- ===== src/Client/Admitted.antt =====
-- A client and a server with one key.
use flynn_controller.Prelude.{
  ◌≡◌, ◌≢◌, ◌∙◌, refl, ap, Option, some, [], ◌∷◌, Text, codes, text_eq, list_eqb, nat_eqb_iff,
  length, ◌==◌, beq_refl, beq_ne, if◌then◌else◌, arith,
}
use flynn_controller.Strings.Laws.{split_n2-append}
use flynn_controller.Auth.{
  to_rpc, to_main, credentials, decoded_auth, auth_parts, parse_basic_auth, is_denied,
  constant_time_compare, rpc_mux,
}
use flynn_controller.Client.{authorization}

parse_basic_auth-authorization :
    (encode : Text → Text) (decode : Text → Option Text) (key : Text)
    → ((s : Text) → decode (encode s) ≡ some s)
    → parse_basic_auth decode (authorization encode key) ≡ some ([], key)
unfolding parse_basic_auth authorization auth_parts decoded_auth credentials list_eqb
parse_basic_auth-authorization encode decode key decodes =
    ap (auth_parts decode)
      (split_n2-append b' ' (codes "Basic") (encode (b':' ∷ key)) (ground arith))
    ∙ ap decoded_auth (decodes (b':' ∷ key))
    ∙ ap credentials (split_n2-append b':' [] key tt)

-- Where base64 decodes what it encoded, a server lets the requests of a client that has its key
-- through, for every path but /ping: to the RPC server under its path, and else to the handlers.
pub rpc_mux-authorization :
    (encode : Text → Text) (decode : Text → Option Text) (rpc_path key path : Text)
    → ((s : Text) → decode (encode s) ≡ some s)
    → path ≢ codes "/ping"
    → rpc_mux decode rpc_path key path (authorization encode key)
      ≡ (if path == rpc_path then to_rpc else to_main)
unfolding rpc_mux is_denied constant_time_compare
rpc_mux-authorization encode decode rpc_path key path decodes other =
    rw
      (
        parse_basic_auth-authorization encode decode key decodes,
        beq_ne path (codes "/ping") other,
        beq_refl key,
        (nat_eqb_iff (length key) (length key)).1 refl,
      )
      refl
