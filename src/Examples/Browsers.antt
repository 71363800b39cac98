-- ===== src/Examples/Browsers.antt =====
-- Browsers at a gate with the provider and the encoding of Idp and the SQLite store.
use neokit.Base.{
  ◌≤ℤ◌, List, String, [], length, pos, some, ℕ, ◌≡◌, ◌*◌, false, if◌then◌else◌, refl, true, ◌≤◌,
  ◌⊎◌, inr, none, arith, map, ◌≢◌, inl,
}
use neokit.Clock.{second, add}
use neokit.Examples.Devices.{json}
use neokit.Examples.Idp.{idp, relying, b64, parse_url}
use neokit.Fiberauth.{
  Answer, Gate, SetCookie, session_cookie_names, clear_cookie, set_session_cookie,
}
use neokit.Fiberauth.Handshake.{
  Draw, Request, Server, state_cookie_value, callback_handler, issue_session, session_of,
}
use neokit.Fiberauth.Handshake.Callback.{Left, callback_handler-Proven}
use neokit.Fiberauth.Logout.{logout_handler, logout_handler-resolve_session}
use neokit.Fiberauth.Middleware.{SessionView, resolve_session, list_sessions, revoke_session, owned}
use neokit.Fiberauth.Middleware.Guards.{Owned, session_routes-Owned, row_of_view, row_of_session}
use neokit.Fiberauth.Middleware.Resolving.{
  identity_under, seen, resolve_session-Live, issue_session-resolve_session,
}
use neokit.Fiberauth.Sanitize.{
  safe_return_path, one_slash, plain, bytes, max_return_path, slash, on_site, bounded_description,
}
use neokit.Fiberauth.Sanitized.{safe_return_path-Local}
use neokit.Oidcauth.{Handshake, valid}
use neokit.Oidcauth.Provider.{cookie_secure, is_owner}
use neokit.Session.{Identity, Session}
use neokit.Base.{◌+ℤ◌}
use neokit.Session.Sqlite.{create_session}
use neokit.Session.Policy.{expiry_for, with_defaults, default_policy, live, expiry_for}
use neokit.Session.Sqlite.{Row, create_session}
use neokit.Session.Sqlite.Stored.{sqlite_store}
use neokit.Session.Store.{Store}
use neokit.Text.{Text, codes, text_eq}

abbrev hash_token : Text → String
hash_token t = if text_eq t (codes "t1") then "h1" else "h2"

abbrev gate : Gate
gate = record {
  policy = default_policy;
  api_base = codes "/api";
  handshake_base = codes "/auth";
  rate_limit = pos 30;
  session_cookie = codes "app_session";
  state_cookie = codes "app_auth_state";
  failure_path = [];
  failure_param = codes "reason";
}

abbrev login : Handshake
login = record { state = codes "s1"; nonce = codes "n1"; verifier = codes "v1" }

abbrev drawn : Draw
drawn = record { token = codes "t1"; session_id = "one"; now = pos (100 * second) }

-- Whatever cookie is asked for, the browser has the one of its login.
abbrev request : Request
request = record {
  cookies = λ name. state_cookie_value b64 parse_url login (codes "/home");
  query_state = codes "s1";
  query_error = [];
  query_code = codes "n1";
  agent = codes "Firefox";
}

abbrev server : Server ℕ Text (List Row)
server = record { provider = some relying; world = 0; rows = [] }

abbrev store : Store (List Row)
store = sqlite_store json

callback_handler-Proven_example :
    Left idp
      (some store)
      hash_token
      b64
      parse_url
      gate
      request
      server
      relying
      drawn
      (callback_handler idp (some store) hash_token b64 parse_url gate drawn request server)
callback_handler-Proven_example =
    callback_handler-Proven idp (some store) hash_token b64 parse_url gate drawn request server
      relying refl

-- The callback answers with the path of the cookie, and the store has a row.
abbrev alice : Identity
alice = record {
  subject = codes "alice";
  name = codes "alice";
  email = [];
  groups = [];
  owner = false;
}

login-Valid : valid login ≡ true
unfolding valid
login-Valid = refl

safe_return_path-Local_example :
    let path = safe_return_path parse_url (codes "//evil.example") in
    (one_slash path ≡ true)
    × (plain path ≡ true)
    × (length (bytes path) ≤ max_return_path)
    × ((path ≡ slash)
        ⊎ ((path ≡ codes "//evil.example") × (on_site (parse_url (codes "//evil.example")) ≡ true)))
    × (safe_return_path parse_url path ≡ path)
safe_return_path-Local_example = safe_return_path-Local parse_url (codes "//evil.example")

abbrev set_cookie : SetCookie
set_cookie =
    set_session_cookie gate (codes "t1") (pos (2592100 * second)) (cookie_secure idp relying)

abbrev table : List Row
table = (create_session json (session_of gate drawn (codes "Firefox") alice) "h1" []).0

issued :
    issue_session
      (some store)
      hash_token
      gate
      drawn
      (codes "Firefox")
      (cookie_secure idp relying)
      alice
      []
    ≡ (table, some set_cookie)
unfolding issue_session sqlite_store create_session expiry_for text_eq bounded_description ◌+ℤ◌
    with_defaults
issued = refl

abbrev sent : Text → Text
sent name = codes "t1"

sent_back : sent set_cookie.cookie_name ≡ set_cookie.value
unfolding set_session_cookie
sent_back = refl

issue_session-resolve_session_example :
    let expiry = expiry_for gate.policy drawn.now drawn.now in
    let user = record alice { owner = is_owner idp relying.cfg alice.groups } in
    let (rows, who) =
      resolve_session idp hash_token gate (some store) (pos (200 * second)) sent relying table in
    (add (pos (200 * second)) (pos second) ≤ℤ expiry → who ≡ some user)
    × (expiry ≤ℤ pos (200 * second) → (rows ≡ table) × (who ≡ none))
    × ((who ≡ some user) ⊎ (who ≡ none))
issue_session-resolve_session_example =
    issue_session-resolve_session idp store hash_token gate drawn (codes "Firefox") alice [] table
      set_cookie (pos (200 * second)) sent relying issued (λ e. ground (arith, e)) sent_back
      (ground arith) (ground arith)

resolve_session-Live_example :
    let (r', who) =
      resolve_session idp hash_token gate (some store) (pos (200 * second)) sent relying table in
    ((r' ≡ table) × (who ≡ none))
    ⊎ ((sess : Session) × (codes "t1" ≢ [])
        × (store.session_by_token (hash_token (codes "t1")) table ≡ some (some sess))
        × (live gate.policy sess (pos (200 * second)) ≡ true)
        × (who ≡ some (identity_under idp store hash_token gate relying sess))
        × (r' ≡ seen idp store hash_token gate (pos (200 * second)) sess table))
resolve_session-Live_example =
    resolve_session-Live idp store hash_token gate (pos (200 * second)) sent relying table

session_routes-Owned_example :
    (((a : Answer) × (list_sessions idp hash_token gate store sent (some relying) (some alice) table
          ≡ inl a))
      ⊎ ((views : List SessionView) × (list : List Session) × (list_sessions idp hash_token gate
              store sent
              (some relying)
              (some alice)
              table
            ≡ inr views)
          × Owned true (some alice)
          × (store.list_sessions table ≡ some list)
          × (map row_of_view views
              ≡ map (row_of_session (owned idp hash_token gate store (some relying))) list)))
    × (((revoke_session idp hash_token gate store "one" true (some alice) table).0 ≡ table)
        ⊎ Owned true (some alice))
session_routes-Owned_example =
    session_routes-Owned idp hash_token gate store sent (some relying) (some alice) table "one" true

deletions : (h : String) (rows : List Row) → (store.delete_session_by_token h rows).1 ≡ true
unfolding sqlite_store
deletions h rows = refl

abbrev signed_in : Server ℕ Text (List Row)
signed_in = record { provider = some relying; world = 0; rows = table }

logout_handler-resolve_session_example :
    let (s', gone, answer) = logout_handler idp (some store) hash_token gate sent signed_in in
    ((resolve_session idp hash_token gate (some store) (pos (200 * second)) sent relying s'.rows).1
      ≡ none)
    × (gone ≡ map clear_cookie (session_cookie_names gate))
logout_handler-resolve_session_example =
    logout_handler-resolve_session idp store hash_token gate deletions sent signed_in
      (pos (200 * second)) relying
