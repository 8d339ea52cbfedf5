-- ===== src/Bff/Tests.antt =====
-- Examples for internal/transport/bff: each theorem at a concrete input.
use my_token.Base.{
  ℕ, zero, suc, ◌+◌, ◌-◌, Text, codes, ◌==◌, ◌≡◌, ◌≢◌, refl, sym, ◌∙◌, ap, true, [], ◌∷◌, ◌++◌, map,
  Option, none, some, ok, err, inl, cut, lookup, cut-append, Lacks, arith,
}
use my_token.Usage.Event.{Time}
use my_token.Identity.Repo.{
  User, UserRow, ApiKeyRow, IdentityTables, IdentityDriver, not_found, get_user_by_id,
  get_user_by_sso_subject,
}
use my_token.Identity.Service.{Credentials, resolve_actor}
use my_token.Http.{Request, location, query_value}
use my_token.Bff.Session.{
  Codecs, Signer, SessionClaims, StateClaims, dot, session_ttl, state_ttl, session_cookie_name,
  state_cookie_name, new_session_cookie, new_state_cookie, parse_session_cookie,
}
use my_token.Bff.Session.RoundTrip.{IsFaithful, parse_session_cookie-new_session_cookie}
use my_token.Bff.Session.Kinds.{
  IsLenient, require_json_session-new_state_cookie, check_state-new_session_cookie,
}
use my_token.Bff.Oauth.{Config, configured, oauth_config, set_cookie}
use my_token.Bff.Login.{Provider, login_handler, callback_handler, check_state, secure, in_seconds}
use my_token.Bff.Login.Callback.{IsCallback, opened, callback_handler-IsCallback}
use my_token.Bff.Login.Completing.{
  callback_handler-login_handler, require_json_session-new_session_cookie,
}
use my_token.Bff.Gate.{require_json_session}
use my_token.Bff.Gate.Admission.{
  IsAdmitted, require_json_session-IsAdmitted, require_json_session-resolve_actor,
}

abbrev shift : Text → Text
shift s = map (λ c. c + 47) s

abbrev unshift : Text → Text
unshift s = map (λ c. c - 47) s

abbrev lower : Text → Text
lower s = map (λ c. c - 1) s

unshift-shift : (s : Text) → unshift (shift s) ≡ s
unshift-shift [] = refl
unshift-shift (c ∷ s) = let e : c + 47 - 47 ≡ c = omega arith in rw (e, unshift-shift s) refl

shift-Lacks : (s : Text) → Lacks dot (shift s)
shift-Lacks [] = tt
shift-Lacks (c ∷ s) = (λ (e : c + 47 ≡ 46). omega arith, shift-Lacks s)

abbrev raised : Text → Text
raised s = map (λ c. c + 1) s

raised-Lacks : (s : Text) → Lacks 0 (raised s)
raised-Lacks [] = tt
raised-Lacks (c ∷ s) = (λ (e : c + 1 ≡ 0). omega arith, raised-Lacks s)

lower-raised : (s : Text) → lower (raised s) ≡ s
lower-raised [] = refl
lower-raised (c ∷ s) = let e : c + 1 - 1 ≡ c = omega arith in rw (e, lower-raised s) refl

-- A payload is the tag of its kind, the expiry and the texts.
abbrev write_session : SessionClaims → Text
write_session c = 0 ∷ c.expires_at ∷ c.user_id

abbrev write_state : StateClaims → Text
write_state c = 1 ∷ c.expires_at ∷ raised c.state ++ 0 ∷ c.verifier

abbrev read_session : Text → Option SessionClaims
read_session [] = none
read_session (a ∷ []) = none
read_session (zero ∷ e ∷ u) = some (record { user_id = u; expires_at = e })
read_session (suc n ∷ e ∷ u) = some (record { user_id = []; expires_at = e })

abbrev of_parts : Time → Option (Text × Text) → Option StateClaims
of_parts e none = none
of_parts e (some (a, b)) = some (record { state = lower a; verifier = b; expires_at = e })

abbrev read_state : Text → Option StateClaims
read_state [] = none
read_state (a ∷ []) = none
read_state (zero ∷ e ∷ u) = some (record { state = []; verifier = []; expires_at = e })
read_state (suc n ∷ e ∷ r) = of_parts e (cut 0 r)

abbrev codecs : Codecs
codecs = record {
  hmac = λ secret message. secret ++ message;
  encode = shift;
  decode = λ s. some (unshift s);
  marshal_session = λ c. some (write_session c);
  unmarshal_session = read_session;
  marshal_state = λ c. some (write_state c);
  unmarshal_state = read_state;
}

abbrev signer : Signer
signer = record { codecs = codecs; secret = codes "key" }

some_inj : {A : Type 0} {a b : A} → some a ≡ some b → a ≡ b
some_inj {a = a} e = ap (λ o. elim o [ none ↦ a | some x ↦ x ]) e

read_state-write_state : (c : StateClaims) → read_state (write_state c) ≡ some c
read_state-write_state c =
    ap (of_parts c.expires_at) (cut-append 0 (raised c.state) c.verifier (raised-Lacks c.state))
    ∙ ap (λ s. some (record c { state = s })) (lower-raised c.state)

faithful : IsFaithful codecs
faithful = record {
  decode-encode = λ s. ap some (unshift-shift s);
  encode-Lacks = shift-Lacks;
  session_lem = λ c p h. ap read_session (sym (some_inj h));
  state_lem = λ c p h. ap read_state (sym (some_inj h)) ∙ read_state-write_state c;
}

lenient : IsLenient codecs
lenient = record {
  session_of_state = λ c p h. ap read_session (sym (some_inj h));
  state_of_session = λ c p h. ap read_state (sym (some_inj h));
}

abbrev owner_row : UserRow
owner_row = record {
  id = codes "u1";
  handle = codes "may";
  role = codes "owner";
  active = true;
  sso_subject = some (codes "sub");
  created_at = 1;
  updated_at = 1;
}

abbrev owner : User
owner = record {
  id = codes "u1";
  handle = codes "may";
  role = codes "owner";
  active = true;
  sso_subject = codes "sub";
  created_at = 1;
  updated_at = 1;
}

abbrev agent_row : UserRow
agent_row = record owner_row {
  id = codes "u2";
  handle = codes "ann";
  role = codes "agent";
  sso_subject = none;
}

abbrev key_row : ApiKeyRow
key_row = record {
  id = codes "k1";
  user_id = codes "u2";
  key_hash = codes "secret";
  key_prefix = codes "tpl";
  created_at = 1;
  expires_at = 100;
  revoked_at = none;
}

abbrev tables : IdentityTables
tables = record { users = owner_row ∷ agent_row ∷ []; api_keys = key_row ∷ [] }

abbrev all_work : IdentityDriver
all_work = record {
  reads_users = true;
  writes_users = true;
  reads_keys = true;
  writes_keys = true;
  revokes = λ id. true;
}

abbrev cfg : Config
cfg = record {
  sso_issuer = codes "https://sso/";
  sso_client_id = codes "id";
  sso_client_secret = codes "pw";
  auth_audience = codes "https://tokens";
}

abbrev verify_id : Text → Option Text
verify_id raw = some (codes "sub")

abbrev provider : Provider
provider = record {
  scheme_of = λ url. some (codes "https");
  auth_code_url = λ c state verifier. c.auth_url ++ state;
  exchange = λ c code verifier. some (some (codes "jwt"));
  verify_id = some verify_id;
}

abbrev signed : Text → Text
signed payload = shift payload ++ dot ∷ shift (codes "key" ++ payload)

-- The cookie of a login at 1 with the bytes "r" and the verifier "v".
abbrev state_cookie : Text
state_cookie = signed (
    write_state
      (record { state = shift (codes "r"); verifier = codes "v"; expires_at = 1 + state_ttl }))

abbrev session_cookie : ℕ → Text
session_cookie made =
    signed (write_session (record { user_id = codes "u1"; expires_at = made + session_ttl }))

abbrev returned : Request
returned = record {
  cookies = (state_cookie_name, state_cookie) ∷ [];
  query = (codes "state", shift (codes "r")) ∷ (codes "code", codes "c") ∷ [];
}

abbrev browsing : Text → Request
browsing cookie = record { cookies = (session_cookie_name, cookie) ∷ []; query = [] }

state_cookie_made : new_state_cookie signer 1 (shift (codes "r")) (codes "v") ≡ some state_cookie
unfolding new_state_cookie
state_cookie_made = refl

session_cookie_made :
    (now : ℕ) → new_session_cookie signer now (codes "u1") ≡ some (session_cookie now)
unfolding new_session_cookie
session_cookie_made now = refl

owner_of_subject : get_user_by_sso_subject all_work (codes "sub") tables ≡ ok owner
unfolding get_user_by_sso_subject ◌==◌
owner_of_subject = refl

owner_of_id : get_user_by_id all_work (codes "u1") tables ≡ ok owner
unfolding get_user_by_id ◌==◌
owner_of_id = refl

nobody : get_user_by_id all_work [] tables ≡ err not_found
unfolding get_user_by_id ◌==◌
nobody = refl

sent : (cookie : Text) → lookup session_cookie_name (browsing cookie).cookies ≡ some cookie
unfolding lookup ◌==◌
sent cookie = refl

parse_session_cookie-new_session_cookie_example :
    parse_session_cookie signer 5 (session_cookie 2) ≡ some (codes "u1")
parse_session_cookie-new_session_cookie_example =
    parse_session_cookie-new_session_cookie signer faithful 2 5 (codes "u1") (session_cookie 2)
      (session_cookie_made 2)

admitted : require_json_session signer all_work (browsing (session_cookie 2)) 5 tables ≡ some owner
admitted =
    require_json_session-new_session_cookie signer faithful all_work 2 5 tables
      (browsing (session_cookie 2)) owner (session_cookie 2) (session_cookie_made 2)
      (sent (session_cookie 2)) (omega arith) owner_of_id refl refl

require_json_session-new_session_cookie_example :
    require_json_session signer all_work (browsing (session_cookie 2)) 5 tables ≡ some owner
require_json_session-new_session_cookie_example =
    require_json_session-new_session_cookie signer faithful all_work 2 5 tables
      (browsing (session_cookie 2)) owner (session_cookie 2) (session_cookie_made 2)
      (sent (session_cookie 2)) (omega arith) owner_of_id refl refl

require_json_session-IsAdmitted_example :
    IsAdmitted signer all_work (browsing (session_cookie 2)) 5 tables owner
require_json_session-IsAdmitted_example =
    require_json_session-IsAdmitted signer all_work 5 tables (browsing (session_cookie 2)) owner
      admitted

require_json_session-new_state_cookie_example :
    require_json_session signer all_work (browsing state_cookie) 5 tables ≡ none
require_json_session-new_state_cookie_example =
    require_json_session-new_state_cookie signer faithful lenient all_work 1 5 tables
      (browsing state_cookie) (shift (codes "r")) (codes "v") state_cookie not_found
      state_cookie_made (sent state_cookie) nobody

check_state-new_session_cookie_example :
    check_state provider cfg signer 5 (session_cookie 2) returned ≡ none
check_state-new_session_cookie_example =
    check_state-new_session_cookie signer faithful lenient provider cfg 2 5 returned (codes "u1")
      (session_cookie 2) (session_cookie_made 2)

callback_handler-IsCallback_example :
    IsCallback provider cfg signer all_work returned 5 tables
      (callback_handler provider cfg signer all_work returned 5 tables)
callback_handler-IsCallback_example =
    callback_handler-IsCallback provider cfg signer all_work returned 5 tables

is_configured : configured cfg ≡ true
unfolding configured ◌==◌
is_configured = refl

comes_back : lookup state_cookie_name returned.cookies ≡ some state_cookie
unfolding lookup ◌==◌
comes_back = refl

state_back : query_value (codes "state") returned ≡ shift (codes "r")
unfolding query_value lookup ◌==◌
state_back = refl

code_back : query_value (codes "code") returned ≡ codes "c"
unfolding query_value lookup ◌==◌
code_back = refl

callback_handler-login_handler_example :
    (login_handler provider cfg signer (codes "v") (some (codes "r")) 1 ≡ record {
      status = 302;
      set_cookies =
          set_cookie state_cookie_name state_cookie
            (in_seconds state_ttl)
            (secure provider cfg signer)
          ∷ [];
      content =
          location (provider.auth_code_url (oauth_config cfg) (shift (codes "r")) (codes "v"));
    })
    × (callback_handler provider cfg signer all_work returned 5 tables
        ≡ opened provider cfg signer all_work (codes "c") (codes "v") (session_cookie 5))
callback_handler-login_handler_example =
    callback_handler-login_handler provider cfg signer faithful all_work verify_id tables 1 5
      returned (codes "r") (codes "c") (codes "v") state_cookie (codes "jwt") (codes "sub")
      (session_cookie 5) owner is_configured refl (λ (e : shift (codes "r") ≡ []). cc)
      state_cookie_made (omega arith) comes_back state_back code_back (λ (e : codes "c" ≡ []). cc)
      refl (λ (e : codes "jwt" ≡ []). cc) refl owner_of_subject refl refl (session_cookie_made 5)

abbrev credentials : Credentials
credentials = record { sha256_hex = λ s. s; trim_space = λ s. s; verify = some verify_id }

require_json_session-resolve_actor_example :
    resolve_actor credentials all_work (codes "Bearer jwt") 5 tables ≢ some owner
require_json_session-resolve_actor_example =
    require_json_session-resolve_actor signer all_work 5 tables credentials
      (browsing (session_cookie 2)) (codes "Bearer jwt") owner (inl refl) admitted
