-- ===== src/Fiberauth.antt =====
-- The login gate (oidcauth/fiberauth/gate.go, oidcauth/fiberauth/cookies.go): its settings, its cookies
-- and what a request carries. Paths, names and values are texts. Every cookie has the path "/", is kept
-- from scripts and is SameSite=Lax. An OnLoginFailure of the application and the log are not modelled.
pub mod Sanitize
pub mod Sanitized
pub mod Handshake
pub mod Middleware
pub mod Logout
pub mod Routes
use neokit.Base.{
  ◌++◌, Bool, List, [], if◌then◌else◌, pos, ℕ, ℤ, ◌*◌, Option, none, some, take, true, ◌∷◌, length,
  suc, false, negsuc, zero,
}
use neokit.Clock.{Instant, Duration, second, add}
use neokit.Oidcauth.{blank}
use neokit.Session.{Identity}
use neokit.Session.Policy.{Policy}
use neokit.Text.{Text, text_eq, codes, trim_space}

-- Options, without what the application supplies as functions.
pub record Options : Type 0 where
  pub cookie_prefix : Text
  pub lifetime : Policy
  pub handshakes_per_minute : ℤ
  pub login_failure_path : Text
  pub reason_param : Text

pub record Gate : Type 0 where
  pub policy : Policy
  pub api_base : Text
  pub handshake_base : Text
  pub rate_limit : ℤ
  pub session_cookie : Text
  pub state_cookie : Text
  pub failure_path : Text
  pub failure_param : Text

abbrev pub default_rate_limit : ℤ
default_rate_limit = pos 30

abbrev pub handshake_ttl : Duration
handshake_ttl = pos (10 * 60 * second)

abbrev is_unset : ℤ → Bool
is_unset (pos zero) = true
is_unset (pos (suc n)) = false
is_unset (negsuc n) = false

unfoldable pub or_default : Text → Text → Text
or_default v default = if blank (trim_space v) then default else trim_space v

-- New
unfoldable pub new_gate : Text → Text → Options → Gate
unfolding or_default
new_gate api_base auth_base o =
    let prefix = or_default o.cookie_prefix (codes "auth") in
    record {
      policy = o.lifetime;
      api_base = api_base;
      handshake_base = auth_base;
      rate_limit =
          if is_unset o.handshakes_per_minute then default_rate_limit else o.handshakes_per_minute;
      session_cookie = prefix ++ codes "_session";
      state_cookie = prefix ++ codes "_auth_state";
      failure_path = o.login_failure_path;
      failure_param = or_default o.reason_param (codes "reason");
    }

abbrev pub login_path : Gate → Text
login_path g = g.handshake_base ++ codes "/login"

abbrev pub callback_path : Gate → Text
callback_path g = g.handshake_base ++ codes "/callback"

abbrev pub logout_path : Gate → Text
logout_path g = g.handshake_base ++ codes "/logout"

abbrev pub whoami_path : Gate → Text
whoami_path g = g.api_base ++ codes "/auth/whoami"

abbrev pub sessions_path : Gate → Text
sessions_path g = g.api_base ++ codes "/auth/sessions"

abbrev pub host_prefix : Text
host_prefix = codes "__Host-"

-- sessionCookieName and stateCookieName
unfoldable pub session_cookie_name : Gate → Bool → Text
session_cookie_name g secure = if secure then host_prefix ++ g.session_cookie else g.session_cookie

unfoldable pub state_cookie_name : Gate → Bool → Text
state_cookie_name g secure = if secure then host_prefix ++ g.state_cookie else g.state_cookie

-- sessionCookieNames and stateCookieNames
abbrev pub session_cookie_names : Gate → List Text
session_cookie_names g = (host_prefix ++ g.session_cookie) ∷ g.session_cookie ∷ []

abbrev pub state_cookie_names : Gate → List Text
state_cookie_names g = (host_prefix ++ g.state_cookie) ∷ g.state_cookie ∷ []

-- A Set-Cookie header; without an expiry it is the one that removes the cookie.
pub record SetCookie : Type 0 where
  pub cookie_name : Text
  pub value : Text
  pub secure : Bool
  pub expires : Option Instant

-- setSessionCookie
unfoldable pub set_session_cookie : Gate → Text → Instant → Bool → SetCookie
set_session_cookie g token expires secure = record {
  cookie_name = session_cookie_name g secure;
  value = token;
  secure = secure;
  expires = some expires;
}

-- setStateCookie
unfoldable pub set_state_cookie : Gate → Text → Bool → Instant → SetCookie
set_state_cookie g value secure now = record {
  cookie_name = state_cookie_name g secure;
  value = value;
  secure = secure;
  expires = some (add now handshake_ttl);
}

-- strings.HasPrefix
abbrev pub has_prefix : Text → Text → Bool
has_prefix s prefix = text_eq (take (length prefix) s) prefix

-- clearCookie
unfoldable pub clear_cookie : Text → SetCookie
clear_cookie name = record {
  cookie_name = name;
  value = [];
  secure = has_prefix name host_prefix;
  expires = none;
}

-- The causes a sign-in can fail for.
pub data Reason : Type 0 where
  for_expired for_denied for_provider for_code : Reason
  for_secret for_token for_unreachable for_server : Reason

abbrev pub reason_text : Reason → Text
reason_text for_expired = codes "expired"
reason_text for_denied = codes "denied"
reason_text for_provider = codes "provider"
reason_text for_code = codes "code"
reason_text for_secret = codes "secret"
reason_text for_token = codes "token"
reason_text for_unreachable = codes "unreachable"
reason_text for_server = codes "server"

-- What a handler answers: a redirect, the JSON of a failed login, the provider's end-session address,
-- an empty answer, an error of that status, or what the rest of the chain answers.
pub data Answer : Type 0 where
  redirect : Text → Answer
  login_failed : Reason → Answer
  end_session : Text → Answer
  no_content passed : Answer
  refused : ℕ → Answer

-- defaultFailureHandler; a reason's text is its own query escape.
unfoldable pub failure : Gate → Reason → Answer
failure g reason =
    if blank (trim_space g.failure_path)
    then login_failed reason
    else redirect
        (g.failure_path ++ codes "?" ++ g.failure_param ++ codes "=" ++ reason_text reason)
