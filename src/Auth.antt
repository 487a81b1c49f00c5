-- ===== src/Auth.antt =====
-- controller.go, parseBasicAuth and rpcMuxHandler: which requests reach the program. The decoder
-- of base64 is a parameter, and so is the key that the environment gives.
pub mod Admission
use flynn_controller.Prelude.{
  ℕ, Bool, true, false, Option, none, some, List, [], ◌∷◌, Text, codes, text_eq, list_eqb, nat_eqb,
  ◌==◌, ◌||◌, length, if◌then◌else◌, not,
}
use flynn_controller.Strings.{split_n2}

-- the user name and the password of decoded credentials
unfoldable pub credentials : List Text → Option (Text × Text)
credentials (user ∷ password ∷ []) = some (user, password)
credentials _ = none

unfoldable pub decoded_auth : Option Text → Option (Text × Text)
unfolding credentials split_n2
decoded_auth none = none
decoded_auth (some c) = credentials (split_n2 b':' c)

unfoldable pub auth_parts : (Text → Option Text) → List Text → Option (Text × Text)
unfolding decoded_auth list_eqb
auth_parts decode (scheme ∷ encoded ∷ []) =
    if scheme == codes "Basic" then decoded_auth (decode encoded) else none
auth_parts decode _ = none

-- parseBasicAuth of the Authorization header; `none` is an error, beside two empty texts
unfoldable pub parse_basic_auth : (Text → Option Text) → Text → Option (Text × Text)
unfolding auth_parts split_n2
parse_basic_auth decode header = auth_parts decode (split_n2 b' ' header)

-- `_, password, _ := parseBasicAuth(r.Header)`
abbrev pub password_of : Option (Text × Text) → Text
password_of none = []
password_of (some (user, password)) = password

-- subtle.ConstantTimeCompare of texts of one length
unfoldable pub constant_time_compare : Text → Text → ℕ
unfolding list_eqb
constant_time_compare x y = if x == y then 1 else 0

-- the test that answers 401
unfoldable pub is_denied : Text → Text → Bool
unfolding constant_time_compare
is_denied password key =
    not (nat_eqb (length password) (length key))
    || not (nat_eqb (constant_time_compare password key) 1)

-- where the request goes
pub data Route : Type 0 where
  pong unauthorized to_rpc to_main : Route

-- `rpc_path` is rpcplus.DefaultRPCPath.
unfoldable pub rpc_mux : (Text → Option Text) → Text → Text → Text → Text → Route
unfolding parse_basic_auth is_denied list_eqb
rpc_mux decode rpc_path key path header =
    let password = password_of (parse_basic_auth decode header) in
    if path == codes "/ping"
    then pong
    else if is_denied password key
    then unauthorized
    else if path == rpc_path
    then to_rpc
    else to_main
