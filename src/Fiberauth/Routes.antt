-- ===== src/Fiberauth/Routes.antt =====
-- oidcauth/fiberauth/handshake.go: register, the routes of a gate with their handlers in order.
use neokit.Base.{
  ℤ, pos, Bool, List, [], ◌∷◌, ◌++◌, ltb_ℤ, if◌then◌else◌, Option, ◌≡◌, false, true, arith, some,
  refl, none,
}
use neokit.Fiberauth.{
  Gate, Answer, passed, login_path, callback_path, logout_path, whoami_path, sessions_path,
}
use neokit.Fiberauth.Middleware.{require_owner, require_configured, stops, guard}
use neokit.Session.{Identity}
use neokit.Text.{Text, codes}

pub data Method : Type 0 where
  get post delete : Method

-- RateLimiterByPeer with its requests per minute, the guards, and the handlers that answer.
pub data Handler : Type 0 where
  peer_limit : ℤ → Handler
  configured owner : Handler
  login callback logout whoami list revoke : Handler

pub record Route : Type 0 where
  pub method : Method
  pub path : Text
  pub handlers : List Handler

-- The chain of a handshake route.
unfoldable pub chain : Gate → Handler → List Handler
chain g h = if ltb_ℤ g.rate_limit (pos 0) then h ∷ [] else peer_limit g.rate_limit ∷ h ∷ []

-- register
unfoldable pub register : Gate → List Route
unfolding chain
register g =
    record { method = get; path = login_path g; handlers = chain g login }
    ∷ record { method = get; path = callback_path g; handlers = chain g callback }
    ∷ record { method = post; path = logout_path g; handlers = chain g logout }
    ∷ record { method = get; path = whoami_path g; handlers = whoami ∷ [] }
    ∷ record { method = get; path = sessions_path g; handlers = configured ∷ owner ∷ list ∷ [] }
    ∷ record {
      method = delete;
      path = sessions_path g ++ codes "/:id";
      handlers = configured ∷ owner ∷ revoke ∷ [];
    }
    ∷ []

-- What a handler that is no last one answers of a request.
abbrev pub gate_of : Bool → Option Identity → (ℤ → Answer) → Handler → Answer
gate_of enabled who limit (peer_limit n) = limit n
gate_of enabled who limit configured = require_configured enabled
gate_of enabled who limit owner = require_owner enabled who
gate_of enabled who limit login = passed
gate_of enabled who limit callback = passed
gate_of enabled who limit logout = passed
gate_of enabled who limit whoami = passed
gate_of enabled who limit list = passed
gate_of enabled who limit revoke = passed

-- The handlers of a route up to the first that answers.
unfoldable pub serve : (Handler → Answer) → List Handler → Answer
serve f [] = passed
serve f (h ∷ hs) = let rest = serve f hs in if stops (f h) then f h else rest

abbrev pub managed : Handler → List Handler
managed h = configured ∷ owner ∷ h ∷ []

-- The two chains of the session routes let through to their last handler whom `guard` lets through,
-- and answer as it does otherwise.
pub serve-guard :
    (enabled : Bool) (who : Option Identity) (limit : ℤ → Answer)
    → (serve (gate_of enabled who limit) (managed list) ≡ guard enabled who)
      × (serve (gate_of enabled who limit) (managed revoke) ≡ guard enabled who)
unfolding serve guard require_configured require_owner
serve-guard false who limit = (refl, refl)
serve-guard true none limit = (refl, refl)
serve-guard true (some id) limit = (ground (arith), ground (arith))

-- A request over its peer's budget reaches no handshake handler, unless the limit is switched off.
pub serve-chain :
    (g : Gate) (h : Handler) (f : Handler → Answer)
    → stops (f (peer_limit g.rate_limit)) ≡ true
    → ltb_ℤ g.rate_limit (pos 0) ≡ false
    → serve f (chain g h) ≡ f (peer_limit g.rate_limit)
unfolding serve chain
serve-chain g h f k e = rw (e) ground (arith, k)
