-- ===== src/Auth/Admission.antt =====
-- The requests that rpcMuxHandler lets through.
use flynn_controller.Prelude.{
  ◌≡◌, ◌≢◌, ◌↔◌, ap, sym, ◌∙◌, false, Option, none, some, List, [], ◌∷◌, ◌++◌, Text, codes, text_eq,
  beq_ne, eq_iff, eq_cases, Bool-cases, Option-cases, inl, inr, arith, list_eqb,
}
use flynn_controller.Strings.{split_n2}
use flynn_controller.Strings.Laws.{Lacks, split_n2-append, split_n2_sound}
use flynn_controller.Auth.{
  credentials, decoded_auth, auth_parts, parse_basic_auth, password_of, constant_time_compare,
  is_denied, rpc_mux, unauthorized,
}

-- The header is the scheme Basic, a space and an encoding of the user, a colon and the password.
abbrev pub Carries : (Text → Option Text) → Text → Text → Text → Type 0
Carries decode header user password =
    (encoded : Text) × (header ≡ codes "Basic" ++ b' ' ∷ encoded)
    × (decode encoded ≡ some (user ++ b':' ∷ password))
    × Lacks b':' user

credentials_sound :
    (parts : List Text) (user password : Text)
    → credentials parts ≡ some (user, password)
    → parts ≡ user ∷ password ∷ []
unfolding credentials
credentials_sound [] user password h = absurd (ground arith)
credentials_sound (a ∷ []) user password h = absurd (ground arith)
credentials_sound (a ∷ b ∷ []) user password h = ground arith
credentials_sound (a ∷ b ∷ c ∷ r) user password h = absurd (ground arith)

decoded_auth_sound :
    (decoded : Option Text) (user password : Text)
    → decoded_auth decoded ≡ some (user, password)
    → (decoded ≡ some (user ++ b':' ∷ password)) × Lacks b':' user
unfolding decoded_auth
decoded_auth_sound none user password h = absurd (ground arith)
decoded_auth_sound (some c) user password h =
    let (spells, lacks) =
      split_n2_sound b':' c user password (credentials_sound (split_n2 b':' c) user password h) in
    (ap some spells, lacks)

auth_parts_sound :
    (decode : Text → Option Text) (parts : List Text) (user password : Text)
    → auth_parts decode parts ≡ some (user, password)
    → (encoded : Text) × (parts ≡ codes "Basic" ∷ encoded ∷ [])
      × (decoded_auth (decode encoded) ≡ some (user, password))
unfolding auth_parts
auth_parts_sound decode [] user password h = absurd (ground arith)
auth_parts_sound decode (a ∷ []) user password h = absurd (ground arith)
auth_parts_sound decode (a ∷ b ∷ []) user password h = elim (eq_cases a (codes "Basic")) [
  | inl same ↦ (b, ap (λ x. x ∷ b ∷ []) same, ground (arith, eq_iff a (codes "Basic")))
  | inr other ↦ absurd (ground (arith, eq_iff a (codes "Basic")))
]
auth_parts_sound decode (a ∷ b ∷ c ∷ r) user password h = absurd (ground arith)

parse_basic_auth_sound :
    (decode : Text → Option Text) (header user password : Text)
    → parse_basic_auth decode header ≡ some (user, password)
    → Carries decode header user password
unfolding parse_basic_auth
parse_basic_auth_sound decode header user password h =
    let (encoded, parts, decoded) =
      auth_parts_sound decode (split_n2 b' ' header) user password h in
    let (fits, lacks) = decoded_auth_sound (decode encoded) user password decoded in
    (encoded, (split_n2_sound b' ' header (codes "Basic") encoded parts).0, fits, lacks)

parse_basic_auth_complete :
    (decode : Text → Option Text) (header user password : Text)
    → Carries decode header user password
    → parse_basic_auth decode header ≡ some (user, password)
unfolding parse_basic_auth auth_parts decoded_auth credentials list_eqb
parse_basic_auth_complete decode header user password (encoded, spells, fits, lacks) =
    rw (spells, fits, split_n2-append b':' user password lacks)

is_denied_iff : (password key : Text) → (is_denied password key ≡ false) ↔ (password ≡ key)
unfolding is_denied constant_time_compare
is_denied_iff password key = ground (arith, eq_iff password key)

rpc_mux_of_key :
    (decode : Text → Option Text) (rpc_path key path header : Text)
    → path ≢ codes "/ping"
    → (rpc_mux decode rpc_path key path header ≢ unauthorized)
      ↔ (password_of (parse_basic_auth decode header) ≡ key)
unfolding rpc_mux
rpc_mux_of_key decode rpc_path key path header other =
    let password = password_of (parse_basic_auth decode header) in
    elim (Bool-cases (is_denied password key)) [
      | inl denied ↦ (
        (λ h. absurd (h (rw (beq_ne path (codes "/ping") other, denied)))),
        (λ e. cc ((is_denied_iff password key).1 e, denied)),
      )
      | inr passes ↦ (
        (λ h. (is_denied_iff password key).0 passes),
        (λ e h. ground (arith, eq_iff path (codes "/ping"), eq_iff path rpc_path)),
      )
    ]

-- Of the requests for another path than /ping, exactly those are let through that carry the key as
-- the password of some user, if the key is not empty.
pub rpc_mux_admits :
    (decode : Text → Option Text) (rpc_path key path header : Text)
    → key ≢ []
    → path ≢ codes "/ping"
    → (rpc_mux decode rpc_path key path header ≢ unauthorized)
      ↔ ((user : Text) × Carries decode header user key)
rpc_mux_admits decode rpc_path key path header keyed other = (sound, complete)
  where
    sound :
        rpc_mux decode rpc_path key path header ≢ unauthorized
        → (user : Text) × Carries decode header user key
    sound h = elim (Option-cases (parse_basic_auth decode header)) [
      | inl e ↦ absurd (
          keyed (
            sym (
              sym (ap password_of e) ∙ (rpc_mux_of_key decode rpc_path key path header other).0 h)))
      | inr ((user, password), e) ↦ (
        user,
        parse_basic_auth_sound decode header user key (
            e
            ∙ ap (λ k. some (user, k))
                (sym (ap password_of e)
                  ∙ (rpc_mux_of_key decode rpc_path key path header other).0 h)),
      )
    ]

    complete :
        ((user : Text) × Carries decode header user key)
        → rpc_mux decode rpc_path key path header ≢ unauthorized
    complete (user, c) =
        (rpc_mux_of_key decode rpc_path key path header other).1
          (ap password_of (parse_basic_auth_complete decode header user key c))
