-- ===== src/Oidcauth/Provider.antt =====
-- oidcauth/provider.go: the relying party. What go-oidc, oauth2 and net/url do
-- is the parameter `Upstream`, over a world `W` that every call of the network may change; a failure
-- of theirs is what its errors module reads of it. Discovery is serialised by a mutex, so a call is one function.
use neokit.Base.{
  Bool, true, false, not, ◌||◌, List, [], ◌∷◌, ◌++◌, Option, none, some, ◌⊎◌, inl, inr,
  if◌then◌else◌,
}
use neokit.Text.{Text, text_eq, codes, trim_space}
use neokit.Session.{Identity}
use neokit.Oidcauth.Errors.{
  Failure, OidcError, discovery_err, exchange_err, client_was_rejected, client_rejected,
  token_invalid, bare,
}
use neokit.Oidcauth.{Config, blank, normalize, configured}

-- A claim of a token: absent, a text, a list with the texts among its elements, or anything else.
pub data Claim : Type 0 where
  absent other_claim : Claim
  text_claim : Text → Claim
  list_claim : List (Option Text) → Claim

-- stringClaim
unfoldable pub string_claim : Claim → Text
string_claim absent = []
string_claim other_claim = []
string_claim (text_claim s) = s
string_claim (list_claim es) = []

unfoldable pub texts_of : List (Option Text) → List Text
texts_of [] = []
texts_of (none ∷ es) = texts_of es
texts_of (some s ∷ es) = s ∷ texts_of es

-- stringsClaim
unfoldable pub strings_claim : Claim → List Text
unfolding texts_of
strings_claim absent = []
strings_claim other_claim = []
strings_claim (text_claim s) = if blank s then [] else s ∷ []
strings_claim (list_claim es) = texts_of es

-- oidc.IDToken: its nonce and its claims, unless they cannot be read.
pub record IdToken : Type 0 where
  pub token_nonce : Text
  pub claims : Option (Text → Claim)

-- oauth2.Config
pub record OauthConfig (M : Type 0) : Type 0 where
  pub oauth_client_id : Text
  pub oauth_client_secret : Text
  pub endpoint : M
  pub redirect_url : Text
  pub oauth_scopes : List Text

-- Discovery at an issuer, the address to log in at, the exchange of a code for the raw ID token it
-- may bring, the verification of that token, the scheme of a URL, the end-session address of the
-- metadata, and that address with the client and the return address set in its query.
pub record Upstream (W M : Type 0) : Type 0 where
  pub new_provider : Text → W → W × (Failure ⊎ M)
  pub auth_code_url : OauthConfig M → Text → Text → Text → Text
  pub exchange_code : OauthConfig M → Text → Option Text → W → W × (Failure ⊎ Option Text)
  pub verify : M → Text → Text → W → W × (Failure ⊎ IdToken)
  pub url_scheme : Text → Option Text
  pub end_session_endpoint : M → Option Text
  pub with_return : Text → Text → Text → Option Text
  pub equal_fold : Text → Text → Bool

-- Provider; the metadata once it is discovered.
pub record Provider (M : Type 0) : Type 0 where
  pub cfg : Config
  pub discovered : Option M

module _ {M : Type 0} where
  -- New
  unfoldable pub new : Config → Option (Provider M)
  new cfg =
      if configured (normalize cfg)
      then some (record { cfg = normalize cfg; discovered = none })
      else none

  -- RedirectURI
  abbrev pub redirect_uri : Provider M → Text
  redirect_uri p = p.cfg.base_url ++ p.cfg.callback_path

  -- PostLogoutURI
  abbrev pub post_logout_uri : Provider M → Text
  post_logout_uri p = p.cfg.base_url ++ p.cfg.post_logout_path

  -- oauthConfig
  abbrev pub oauth_config : Provider M → M → OauthConfig M
  oauth_config p m = record {
    oauth_client_id = p.cfg.client_id;
    oauth_client_secret = p.cfg.client_secret;
    endpoint = m;
    redirect_url = redirect_uri p;
    oauth_scopes = p.cfg.scopes;
  }

  module _ {W : Type 0} (up : Upstream W M) where
    -- CookieSecure
    unfoldable pub cookie_secure : Provider M → Bool
    cookie_secure p = elim (up.url_scheme p.cfg.base_url) [
      | none ↦ false
      | some scheme ↦ text_eq scheme (codes "https")
    ]

    -- discover
    unfoldable pub discover : Provider M → W → Provider M × W × (OidcError ⊎ M)
    discover p w = elim p.discovered [
      | some m ↦ (p, w, inr m)
      | none ↦
          let (w', got) = up.new_provider p.cfg.issuer w in
          elim got [
            | inl e ↦ (p, w', inl (discovery_err e))
            | inr m ↦ (record p { discovered = some m }, w', inr m)
          ]
    ]

    -- AuthorizeURL
    unfoldable pub authorize_url :
        Text → Text → Text → Provider M → W → Provider M × W × (OidcError ⊎ Text)
    authorize_url state nonce verifier p w =
        let (p', w', got) = discover p w in
        elim got [
          | inl e ↦ (p', w', inl e)
          | inr m ↦ (p', w', inr (up.auth_code_url (oauth_config p' m) state nonce verifier))
        ]

    -- IsOwner
    unfoldable pub in_group : Text → List Text → Bool
    in_group owner_group [] = false
    in_group owner_group (g ∷ groups) =
        up.equal_fold (trim_space g) owner_group || in_group owner_group groups

    unfoldable pub is_owner : Config → List Text → Bool
    unfolding in_group
    is_owner cfg groups = if blank cfg.owner_group then true else in_group cfg.owner_group groups

    abbrev pub invalid : OidcError
    invalid = (token_invalid, bare)

    -- identityFrom
    unfoldable pub identity_from : Config → IdToken → OidcError ⊎ Identity
    identity_from cfg token = elim token.claims [
      | none ↦ inl invalid
      | some claims ↦
          let subject = trim_space (string_claim (claims (codes "sub"))) in
          let name = trim_space (string_claim (claims (codes "name"))) in
          let groups = strings_claim (claims cfg.groups_claim) in
          if blank subject
          then inl invalid
          else inr (record {
            subject = subject;
            name = if blank name then subject else name;
            email = trim_space (string_claim (claims (codes "email")));
            groups = groups;
            owner = is_owner cfg groups;
          })
    ]

    -- Exchange
    unfoldable pub exchange :
        Text → Text → Text → Provider M → W → Provider M × W × (OidcError ⊎ Identity)
    exchange code nonce verifier p w =
        let (p', w', got) = discover p w in
        elim got [
          | inl e ↦ (p', w', inl e)
          | inr m ↦
              let (w'', tok) = up.exchange_code (oauth_config p' m) code (some verifier) w' in
              elim tok [
                | inl e ↦ (p', w'', inl (exchange_err e))
                | inr none ↦ (p', w'', inl invalid)
                | inr (some raw) ↦
                    let (w3, verified) = up.verify m p'.cfg.client_id raw w'' in
                    if blank raw then (p', w'', inl invalid) else elim verified [
                      | inl e ↦ (p', w3, inl invalid)
                      | inr token ↦
                          if blank nonce
                            || blank token.token_nonce
                            || not (text_eq token.token_nonce nonce)
                          then (p', w3, inl invalid)
                          else (p', w3, identity_from p'.cfg token)
                    ]
              ]
        ]

    -- EndSessionURL; `none` is the empty address.
    unfoldable pub end_session_url : Provider M → W → Provider M × W × (OidcError ⊎ Option Text)
    end_session_url p w =
        let (p', w', got) = discover p w in
        elim got [
          | inl e ↦ (p', w', inl e)
          | inr m ↦ elim (up.end_session_endpoint m) [
            | none ↦ (p', w', inr none)
            | some end ↦
                if blank (trim_space end)
                then (p', w', inr none)
                else (p', w', inr (up.with_return end p'.cfg.client_id (post_logout_uri p')))
          ]
        ]

    -- verifyClientCredentials
    unfoldable pub verify_client_credentials : Provider M → M → W → W × Option OidcError
    verify_client_credentials p m w =
        let probe = codes "oidcauth-credential-probe-not-a-real-code" in
        let (w', tok) = up.exchange_code (oauth_config p m) probe none w in
        elim tok [
          | inr id ↦ (w', none)
          | inl e ↦ elim e.retrieve [
            | none ↦ (w', none)
            | some re ↦
                if client_was_rejected re then (w', some (client_rejected, bare)) else (w', none)
          ]
        ]

    -- CheckHealth
    unfoldable pub check_health : Provider M → W → W × Option OidcError
    check_health p w =
        let (w', got) = up.new_provider p.cfg.issuer w in
        elim got [ inl e ↦ (w', some (discovery_err e)) | inr m ↦ verify_client_credentials p m w' ]
