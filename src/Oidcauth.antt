-- ===== src/Oidcauth.antt =====
-- The oidcauth package's configuration and what a login's identity is (oidcauth/config.go,
-- oidcauth/identity.go). Texts are lists of code points.
pub mod Errors
pub mod Provider
pub mod Sentinels
pub mod Settings
pub mod Login
pub mod Sweep
use neokit.Base.{
  ℕ, Bool, true, false, not, ◌&&◌, List, [], ◌∷◌, ◌++◌, Option, none, some, reverse, ◌==◌,
  if◌then◌else◌,
}
use neokit.Text.{Text, codes, trim_space, drop_while}

abbrev pub blank : Text → Bool
blank [] = true
blank (c ∷ s) = false

abbrev pub is_slash : ℕ → Bool
is_slash c = c == 47

-- strings.TrimRight by a slash.
unfoldable pub trim_slashes : Text → Text
unfolding drop_while
trim_slashes s = reverse (drop_while is_slash (reverse s))

abbrev pub default_scopes : List Text
default_scopes = codes "openid" ∷ codes "profile" ∷ codes "email" ∷ codes "groups" ∷ []

abbrev pub default_callback_path : Text
default_callback_path = codes "/api/auth/callback"

abbrev pub default_post_logout_path : Text
default_post_logout_path = codes "/"

abbrev pub default_groups_claim : Text
default_groups_claim = codes "groups"

-- Config, without the HTTP client.
pub record Config : Type 0 where
  pub issuer : Text
  pub client_id : Text
  pub client_secret : Text
  pub base_url : Text
  pub owner_group : Text
  pub scopes : List Text
  pub groups_claim : Text
  pub callback_path : Text
  pub post_logout_path : Text

-- normalizePath
unfoldable pub normalize_path : Text → Text → Text
normalize_path p default = elim (trim_space p) [
  | [] ↦ default
  | c ∷ rest ↦ if is_slash c then c ∷ rest else 47 ∷ c ∷ rest
]

abbrev pub or_default_scopes : List Text → List Text
or_default_scopes [] = default_scopes
or_default_scopes (s ∷ rest) = s ∷ rest

abbrev pub or_default_claim : Text → Text
or_default_claim [] = default_groups_claim
or_default_claim (c ∷ rest) = c ∷ rest

-- Config.Normalize
unfoldable pub normalize : Config → Config
normalize c = record {
  issuer = trim_slashes (trim_space c.issuer);
  client_id = trim_space c.client_id;
  client_secret = trim_space c.client_secret;
  base_url = trim_slashes (trim_space c.base_url);
  owner_group = trim_space c.owner_group;
  scopes = or_default_scopes c.scopes;
  groups_claim = or_default_claim (trim_space c.groups_claim);
  callback_path = normalize_path c.callback_path default_callback_path;
  post_logout_path = normalize_path c.post_logout_path default_post_logout_path;
}

-- Config.Configured
unfoldable pub configured : Config → Bool
configured c =
    not (blank (trim_space c.issuer))
    && not (blank (trim_space c.client_id))
    && not (blank (trim_space c.client_secret))
    && not (blank (trim_space c.base_url))

-- The secrets of one login.
pub record Handshake : Type 0 where
  pub state : Text
  pub nonce : Text
  pub verifier : Text

-- Handshake.Valid
unfoldable pub valid : Handshake → Bool
valid h = not (blank h.state) && not (blank h.nonce) && not (blank h.verifier)
