-- ===== src/Oidcauth/Sentinels.antt =====
-- How the failures of the provider are classified (oidcauth/provider.go, oidcauth/errors.go).
use neokit.Base.{
  List, none, ◌∷◌, ◌≡◌, inl, true, ◌⊎◌, arith, false, some, Option, inr, ◌≢◌, Bool-cases, refl,
}
use neokit.Oidcauth.Errors.{
  Failure, RetrieveError, answered, redacted, bare, exchange_err, client_rejected, code_rejected,
  token_endpoint_unreachable, token_endpoint_errors, unrecognised, listed, answer,
}
use neokit.Oidcauth.Provider.{Upstream, Provider, oauth_config, verify_client_credentials}
use neokit.Text.{Text, text_eq_iff, codes}

listed_more : (s t : Text) (ts : List Text) → listed s ts ≡ true → listed s (t ∷ ts) ≡ true
unfolding listed
listed_more s t ts h = ground (arith, h)

listed_here : (s : Text) (ts : List Text) → listed s (s ∷ ts) ≡ true
unfolding listed
listed_here s ts = ground (arith, text_eq_iff s s)

answer-Listed :
    (re : RetrieveError) → listed (answer re) (unrecognised ∷ token_endpoint_errors) ≡ true
answer-Listed re = step (Bool-cases (listed re.error_code token_endpoint_errors))
  where
    step :
        (listed re.error_code token_endpoint_errors ≡ true)
          ⊎ (listed re.error_code token_endpoint_errors ≡ false)
        → listed (answer re) (unrecognised ∷ token_endpoint_errors) ≡ true
    step (inl h) = rw (h) (listed_more re.error_code unrecognised token_endpoint_errors h)
    step (inr h) = rw (h) (listed_here unrecognised token_endpoint_errors)

-- A failed exchange is one of three. Without an answer of the token endpoint the endpoint counts as
-- unreachable, and nothing is echoed. With an answer, the client or the code was rejected, and the
-- text echoed is one of the six registered error codes or a fixed one, whatever was sent.
pub exchange_err-Closed :
    (e : Failure)
    → ((e.retrieve ≡ none)
        × ((exchange_err e).0 ≡ token_endpoint_unreachable)
        × (((exchange_err e).1 ≡ redacted) ⊎ ((exchange_err e).1 ≡ bare)))
      ⊎ ((re : RetrieveError) × (t : Text) × (e.retrieve ≡ some re)
          × (listed t (unrecognised ∷ token_endpoint_errors) ≡ true)
          × ((exchange_err e).1 ≡ answered t)
          × (((exchange_err e).0 ≡ client_rejected) ⊎ ((exchange_err e).0 ≡ code_rejected)))
unfolding exchange_err
exchange_err-Closed e = step e.retrieve refl
  where
    step :
        (r : Option RetrieveError)
        → e.retrieve ≡ r
        → ((e.retrieve ≡ none)
            × ((exchange_err e).0 ≡ token_endpoint_unreachable)
            × (((exchange_err e).1 ≡ redacted) ⊎ ((exchange_err e).1 ≡ bare)))
          ⊎ ((re : RetrieveError) × (t : Text) × (e.retrieve ≡ some re)
              × (listed t (unrecognised ∷ token_endpoint_errors) ≡ true)
              × ((exchange_err e).1 ≡ answered t)
              × (((exchange_err e).0 ≡ client_rejected) ⊎ ((exchange_err e).0 ≡ code_rejected)))
    step none h = ground (arith, h)
    step (some re) h =
        inr (re, answer re, h, answer-Listed re, ground (arith, h), ground (arith, h))

module _ {W M : Type 0} (up : Upstream W M) where
  -- The health probe and the login classify a refusal of the token endpoint alike: whatever the
  -- probe's exchange fails with, the probe reports the client rejected exactly if a login whose
  -- exchange failed so would, and otherwise it reports nothing.
  pub verify_client_credentials-exchange_err :
      (p : Provider M) (m : M) (w w' : W) (e : Failure)
      → up.exchange_code
          (oauth_config p m)
          (codes "oidcauth-credential-probe-not-a-real-code")
          none
          w
        ≡ (w', inl e)
      → (((exchange_err e).0 ≡ client_rejected)
          × (verify_client_credentials up p m w ≡ (w', some (client_rejected, bare))))
        ⊎ (((exchange_err e).0 ≢ client_rejected)
            × (verify_client_credentials up p m w ≡ (w', none)))
  unfolding exchange_err verify_client_credentials
  verify_client_credentials-exchange_err p m w w' e h = ground (arith, h)
