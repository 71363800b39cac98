-- ===== src/Examples/Logins.antt =====
-- Logins at a provider that takes every code.
use neokit.Base.{[], false, some, ℕ, ◌≡◌, ◌≢◌, inr, none, ◌⊎◌, refl, ◌∷◌, true}
use neokit.Examples.Idp.{idp, config, relying}
use neokit.Oidcauth.Errors.{
  Failure, exchange_err, client_rejected, listed, token_endpoint_errors, unrecognised, answered,
  code_rejected, token_endpoint_unreachable, redacted, bare, RetrieveError,
}
use neokit.Oidcauth.Login.{exchange_verified}
use neokit.Oidcauth.Provider.{
  string_claim, strings_claim, Provider, exchange, discover, identity_from, is_owner, oauth_config,
  IdToken,
}
use neokit.Oidcauth.Sentinels.{exchange_err-Closed}
use neokit.Session.{Identity}
use neokit.Text.{Text, codes, text_eq, trim}

abbrev alice : Identity
alice = record {
  subject = codes "alice";
  name = codes "alice";
  email = [];
  groups = [];
  owner = false;
}

abbrev found : Provider Text
found = record { cfg = config; discovered = some (codes "https://id") }

exchanged : exchange idp (codes "n1") (codes "n1") (codes "v1") relying 0 ≡ (found, 3, inr alice)
unfolding exchange discover identity_from is_owner text_eq trim string_claim strings_claim
exchanged = refl

exchange_verified_example :
    (codes "n1" ≢ [])
    × ((m : Text) × (v v' : ℕ) × (raw : Text) × (token : IdToken) × (discover idp relying 0
          ≡ (found, v, inr m))
        × (idp.exchange_code (oauth_config found m) (codes "n1") (some (codes "v1")) v
            ≡ (v', inr (some raw)))
        × (idp.verify m config.client_id raw v' ≡ (3, inr token))
        × (token.token_nonce ≡ codes "n1")
        × (identity_from idp config token ≡ inr alice))
    × (alice.subject ≢ [])
    × (alice.name ≢ [])
    × (alice.owner ≡ is_owner idp config alice.groups)
exchange_verified_example =
    exchange_verified idp (codes "n1") (codes "n1") (codes "v1") relying found 0 3 alice exchanged

-- The token endpoint answers 401 beside a stale code.
abbrev stale : Failure
stale = record {
  context = false;
  dns = false;
  certificate = false;
  url = false;
  retrieve = some (record { error_code = codes "invalid_grant"; status = some 401 });
}

exchange_err-Closed_example :
    ((stale.retrieve ≡ none)
      × ((exchange_err stale).0 ≡ token_endpoint_unreachable)
      × (((exchange_err stale).1 ≡ redacted) ⊎ ((exchange_err stale).1 ≡ bare)))
    ⊎ ((re : RetrieveError) × (t : Text) × (stale.retrieve ≡ some re)
        × (listed t (unrecognised ∷ token_endpoint_errors) ≡ true)
        × ((exchange_err stale).1 ≡ answered t)
        × (((exchange_err stale).0 ≡ client_rejected) ⊎ ((exchange_err stale).0 ≡ code_rejected)))
exchange_err-Closed_example = exchange_err-Closed stale
