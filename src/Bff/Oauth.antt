-- ===== src/Bff/Oauth.antt =====
-- The settings of the login (internal/transport/bff/oauth.go, with `secureFromURL` and the
-- cookies of middleware.go). `url.Parse` and the calls of package oauth2 are arguments.
use my_token.Base.{
  ℕ, Text, codes, ◌==◌, eqb, Bool, true, not, ◌&&◌, List, [], ◌∷◌, ◌++◌, Option, none, some,
  if◌then◌else◌,
}
use my_token.Http.{SetCookie, Response, login_error_page}

-- The fields of `platform.Config` that the login reads.
pub record Config : Type 0 where
  pub sso_issuer : Text
  pub sso_client_id : Text
  pub sso_client_secret : Text
  pub auth_audience : Text

pub record OauthConfig : Type 0 where
  pub client_id : Text
  pub client_secret : Text
  pub auth_url : Text
  pub token_url : Text
  pub redirect_url : Text
  pub scopes : List Text

-- `strings.TrimRight(s, c)` for one byte
unfoldable pub trim_right : ℕ → Text → Text
trim_right c [] = []
trim_right c (a ∷ s) = let rest = trim_right c s in if rest == [] && eqb a c then [] else a ∷ rest

-- '/'
abbrev pub slash : ℕ
slash = 47

unfoldable pub oauth_config : Config → OauthConfig
unfolding trim_right
oauth_config cfg =
    let issuer = trim_right slash cfg.sso_issuer in
    record {
      client_id = cfg.sso_client_id;
      client_secret = cfg.sso_client_secret;
      auth_url = issuer ++ codes "/oauth2/auth";
      token_url = issuer ++ codes "/oauth2/token";
      redirect_url = trim_right slash cfg.auth_audience ++ codes "/callback";
      scopes = codes "openid" ∷ [];
    }

unfoldable pub configured : Config → Bool
configured cfg =
    not (cfg.sso_issuer == [])
    && (not (cfg.sso_client_id == [])
        && (not (cfg.sso_client_secret == []) && not (cfg.auth_audience == [])))

-- The scheme that `url.Parse` finds; `none` is its error.
unfoldable pub secure_from_url : (Text → Option Text) → Text → Bool
secure_from_url scheme_of raw_url = elim (scheme_of raw_url) [
  | none ↦ true
  | some scheme ↦ scheme == codes "https"
]

abbrev pub set_cookie : Text → Text → ℕ → Bool → SetCookie
set_cookie name value max_age secure = record {
  name = name;
  value = value;
  max_age = some max_age;
  secure = secure;
}

abbrev pub clear_cookie : Text → Bool → SetCookie
clear_cookie name secure = record { name = name; value = []; max_age = none; secure = secure }

-- The page is the same whatever the reason.
unfoldable pub render_login_error : List SetCookie → Response (Unit {0})
render_login_error cookies = record {
  status = 401;
  set_cookies = cookies;
  content = login_error_page;
}
