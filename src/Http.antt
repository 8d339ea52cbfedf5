-- ===== src/Http.antt =====
-- What the handlers of both transports read and write of a request and a response. `Body` is
-- their JSON.
use my_token.Base.{ℕ, Text, codes, List, [], Map, lookup, Option, none, some, Bool}

-- `ErrorEnvelope` (internal/transport/publicapi/middleware.go); an empty hint is left out.
pub record ErrorEnvelope : Type 0 where
  pub code : Text
  pub message : Text
  pub hint : Text

unfoldable pub new_error_envelope : Text → Text → Text → ErrorEnvelope
new_error_envelope code message hint = record { code = code; message = message; hint = hint }

-- A cookie of the response; `none` for the age deletes it.
pub record SetCookie : Type 0 where
  pub name : Text
  pub value : Text
  pub max_age : Option ℕ
  pub secure : Bool

pub data Content (Body : Type 0) : Type 0 where
  nothing login_error_page : Content Body
  problem : ErrorEnvelope → Content Body
  location : Text → Content Body
  json : Body → Content Body

pub record Response (Body : Type 0) : Type 0 where
  pub status : ℕ
  pub set_cookies : List SetCookie
  pub content : Content Body

-- `c.Status`, `c.AbortWithStatus`
abbrev pub respond : {B : Type 0} → ℕ → Response B
respond status = record { status = status; set_cookies = []; content = nothing }

-- `c.AbortWithStatusJSON` with an envelope
abbrev pub refuse : {B : Type 0} → ℕ → ErrorEnvelope → Response B
refuse status body = record { status = status; set_cookies = []; content = problem body }

-- `c.JSON`
abbrev pub answer : {B : Type 0} → ℕ → B → Response B
answer status body = record { status = status; set_cookies = []; content = json body }

unfoldable pub unauthorized_body : ErrorEnvelope
unfolding new_error_envelope
unauthorized_body = new_error_envelope (codes "unauthorized") (codes "authentication required") []

-- The cookies as `c.Cookie` gives them, and the first value of each key of the query.
pub record Request : Type 0 where
  pub cookies : Map Text
  pub query : Map Text

-- `c.Query`
unfoldable pub query_value : Text → Request → Text
query_value key req = elim (lookup key req.query) [ none ↦ [] | some value ↦ value ]
