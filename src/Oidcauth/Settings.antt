-- ===== src/Oidcauth/Settings.antt =====
-- What normalising a configuration guarantees (oidcauth/config.go).
use neokit.Base.{Bool, [], ◌≡◌, false, refl, some, true, arith, none, ◌∷◌, subst, sym}
use neokit.Oidcauth.{
  Config, blank, is_slash, trim_slashes, normalize, normalize_path, configured,
  default_callback_path, default_post_logout_path,
}
use neokit.Oidcauth.Provider.{Provider, new}
use neokit.Text.{Text, trim, trim_space, drop_while}

-- A text that starts with a slash.
abbrev pub rooted : Text → Bool
rooted [] = false
rooted (c ∷ s) = is_slash c

trim_space_nil : trim_space [] ≡ []
unfolding trim drop_while
trim_space_nil = refl

trim_slashes_nil : trim_slashes [] ≡ []
unfolding trim_slashes drop_while
trim_slashes_nil = refl

trim_again :
    (s : Text)
    → blank (trim_space (trim_slashes (trim_space s))) ≡ false
    → blank (trim_space s) ≡ false
trim_again s h = step (trim_space s) refl h
  where
    step :
        (t : Text)
        → trim_space s ≡ t
        → blank (trim_space (trim_slashes t)) ≡ false
        → blank t ≡ false
    step [] e h = ground (arith, h, trim_space_nil, trim_slashes_nil)
    step (c ∷ t) e h = refl

trim_space_again :
    (s : Text) → blank (trim_space (trim_space s)) ≡ false → blank (trim_space s) ≡ false
trim_space_again s h = step (trim_space s) h
  where
    step : (t : Text) → blank (trim_space t) ≡ false → blank t ≡ false
    step [] h = ground (arith, h, trim_space_nil)
    step (c ∷ t) h = refl

normalize_path-Rooted :
    (p default : Text) → rooted default ≡ true → rooted (normalize_path p default) ≡ true
unfolding normalize_path
normalize_path-Rooted p default h = ground (arith, h)

-- The guards of configured hold of the raw values when they hold of the normalised ones.
configured-normalize : (c : Config) → configured (normalize c) ≡ true → configured c ≡ true
unfolding normalize configured
configured-normalize c h = ground (
  arith,
  h,
  trim_again c.issuer,
  trim_space_again c.client_id,
  trim_space_again c.client_secret,
  trim_again c.base_url,
)

normalize-Rooted :
    (c : Config)
    → (rooted (normalize c).callback_path ≡ true) × (rooted (normalize c).post_logout_path ≡ true)
unfolding normalize
normalize-Rooted c = (
  normalize_path-Rooted c.callback_path default_callback_path refl,
  normalize_path-Rooted c.post_logout_path default_post_logout_path refl,
)

new_lem :
    {M : Type 0} (c : Config) (p : Provider M)
    → new c ≡ some p
    → (configured (normalize c) ≡ true) × (p ≡ record { cfg = normalize c; discovered = none })
unfolding new
new_lem c p h = ground (arith, h)

-- New returns a provider only for a configuration that is configured, and it does no discovery. The
-- provider's configuration is normalised, so that its redirect URI is the base URL followed by a path
-- that starts with a slash, and so is its return address.
pub new-configured :
    {M : Type 0} (c : Config) (p : Provider M)
    → new c ≡ some p
    → (configured c ≡ true)
      × (p.cfg ≡ normalize c)
      × (p.discovered ≡ none)
      × (rooted p.cfg.callback_path ≡ true)
      × (rooted p.cfg.post_logout_path ≡ true)
new-configured c p h =
    let (a, e) = new_lem c p h in
    subst
      (λ q.
        (configured c ≡ true)
        × (q.cfg ≡ normalize c)
        × (q.discovered ≡ none)
        × (rooted q.cfg.callback_path ≡ true)
        × (rooted q.cfg.post_logout_path ≡ true))
      (sym e) (configured-normalize c a, refl, refl, (normalize-Rooted c).0, (normalize-Rooted c).1)
