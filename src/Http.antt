-- ===== src/Http.antt =====
-- What a handler of the controller sends. `r.JSON(code, x)` is `json code (some x)`, and `none`
-- stands for the empty object `struct{}{}`; `w.WriteHeader(code)` is `header code`; a handler that
-- writes nothing leaves `silent`, which the server sends as 200.
use flynn_controller.Prelude.{ℕ, Option, none, some}

pub data Response (A : Type 0) : Type 0 where
  json : ℕ → Option A → Response A
  header : ℕ → Response A
  silent : Response A

-- the answer to what may have failed
abbrev pub answer : {A : Type 0} → Option A → Response A
answer none = json 500 none
answer (some a) = json 200 (some a)

-- the status code that the client sees
unfoldable pub status : {A : Type 0} → Response A → ℕ
status (json code body) = code
status (header code) = code
status silent = 200
