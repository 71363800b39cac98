-- ===== src/Oidcauth/Login.antt =====
-- What a login yields (oidcauth/provider.go).

use neokit.Base.{◌≡◌, inr, ◌≢◌, [], arith, some, ◌⊎◌, inl, Option, none, refl, subst}
use neokit.Oidcauth.{Config}
use neokit.Oidcauth.Errors.{Failure, OidcError}
use neokit.Oidcauth.Provider.{
  Upstream, Provider, IdToken, discover, exchange, identity_from, is_owner, oauth_config,
}
use neokit.Text.{Text, text_eq_iff}
use neokit.Session.{Identity}

module _ {W M : Type 0} (up : Upstream W M) where
  identity_from-Owned :
      (cfg : Config) (token : IdToken) (id : Identity)
      → identity_from up cfg token ≡ inr id
      → (id.subject ≢ []) × (id.name ≢ []) × (id.owner ≡ is_owner up cfg id.groups)
  unfolding identity_from
  identity_from-Owned cfg token id h = ground (arith, h)

  -- A code exchange yields an identity only if discovery gave metadata, the token endpoint took the
  -- code with this login's PKCE verifier and brought an ID token, and that token verified for this
  -- client and carries this login's nonce, which is not blank. The identity is then the token's; it
  -- has a subject and a name, and it is an owner exactly if its groups make it one.
  pub exchange_verified :
      (code nonce verifier : Text) (p p' : Provider M) (w w' : W) (id : Identity)
      → exchange up code nonce verifier p w ≡ (p', w', inr id)
      → (nonce ≢ [])
        × ((m : M) × (v v' : W) × (raw : Text) × (token : IdToken) × (discover up p w
              ≡ (p', v, inr m))
            × (up.exchange_code (oauth_config p' m) code (some verifier) v ≡ (v', inr (some raw)))
            × (up.verify m p'.cfg.client_id raw v' ≡ (w', inr token))
            × (token.token_nonce ≡ nonce)
            × (identity_from up p'.cfg token ≡ inr id))
        × (id.subject ≢ [])
        × (id.name ≢ [])
        × (id.owner ≡ is_owner up p'.cfg id.groups)
  unfolding exchange
  exchange_verified code nonce verifier p p' w w' id h = first (discover up p w) refl
    where
      Verified : Type 0
      Verified =
          (nonce ≢ [])
          × ((m : M) × (v v' : W) × (raw : Text) × (token : IdToken) × (discover up p w
                ≡ (p', v, inr m))
              × (up.exchange_code (oauth_config p' m) code (some verifier) v ≡ (v', inr (some raw)))
              × (up.verify m p'.cfg.client_id raw v' ≡ (w', inr token))
              × (token.token_nonce ≡ nonce)
              × (identity_from up p'.cfg token ≡ inr id))
          × (id.subject ≢ [])
          × (id.name ≢ [])
          × (id.owner ≡ is_owner up p'.cfg id.groups)

      finish :
          (q : Provider M) (v v' v'' : W) (m : M) (raw : Text) (token : IdToken)
          → discover up p w ≡ (q, v, inr m)
          → up.exchange_code (oauth_config q m) code (some verifier) v ≡ (v', inr (some raw))
          → up.verify m q.cfg.client_id raw v' ≡ (v'', inr token)
          → (nonce ≢ [])
            × (q ≡ p')
            × (v'' ≡ w')
            × (token.token_nonce ≡ nonce)
            × (identity_from up q.cfg token ≡ inr id)
          → Verified
      finish q v v' v'' m raw token d x y (n, q≡p', w≡, t, i) =
          let j = subst (λ r. identity_from up r.cfg token ≡ inr id) q≡p' i in
          let owned = identity_from-Owned p'.cfg token id j in
          (
            n,
            (
              m,
              v,
              v',
              raw,
              token,
              subst (λ r. discover up p w ≡ (r, v, inr m)) q≡p' d,
              subst
                  (λ r.
                    up.exchange_code (oauth_config r m) code (some verifier) v
                    ≡ (v', inr (some raw)))
                  q≡p' x,
              subst (λ z. up.verify m p'.cfg.client_id raw v' ≡ (z, inr token)) w≡
                  (subst (λ r. up.verify m r.cfg.client_id raw v' ≡ (v'', inr token)) q≡p' y),
              t,
              j,
            ),
            owned.0,
            owned.1,
            owned.2,
          )

      third :
          (q : Provider M) (v v' v'' : W) (m : M) (raw : Text) (got : Failure ⊎ IdToken)
          → discover up p w ≡ (q, v, inr m)
          → up.exchange_code (oauth_config q m) code (some verifier) v ≡ (v', inr (some raw))
          → up.verify m q.cfg.client_id raw v' ≡ (v'', got)
          → Verified
      third q v v' v'' m raw (inl e) d x y = ground (arith, h, d, x, y)
      third q v v' v'' m raw (inr token) d x y = finish q v v' v'' m raw token d x y accepted
        where
          accepted :
              (nonce ≢ [])
              × (q ≡ p')
              × (v'' ≡ w')
              × (token.token_nonce ≡ nonce)
              × (identity_from up q.cfg token ≡ inr id)
          accepted = ground (arith, h, d, x, y, text_eq_iff token.token_nonce nonce)

      second :
          (q : Provider M) (v v' : W) (m : M) (got : Failure ⊎ Option Text)
          → discover up p w ≡ (q, v, inr m)
          → up.exchange_code (oauth_config q m) code (some verifier) v ≡ (v', got)
          → Verified
      second q v v' m (inl e) d x = ground (arith, h, d, x)
      second q v v' m (inr none) d x = ground (arith, h, d, x)
      second q v v' m (inr (some raw)) d x =
          third q v v' (up.verify m q.cfg.client_id raw v').0 m raw
            (up.verify m q.cfg.client_id raw v').1 d x refl

      first : (r : Provider M × W × (OidcError ⊎ M)) → discover up p w ≡ r → Verified
      first (q, v, inl e) d = ground (arith, h, d)
      first (q, v, inr m) d =
          second q v (up.exchange_code (oauth_config q m) code (some verifier) v).0 m
            (up.exchange_code (oauth_config q m) code (some verifier) v).1 d refl

  discovered :
      (p p' : Provider M) (w w' : W) (m : M)
      → discover up p w ≡ (p', w', inr m)
      → (p'.discovered ≡ some m) × (p'.cfg ≡ p.cfg)
  unfolding discover
  discovered p p' w w' m h = ground (arith, h)

  discovered_stays :
      (p : Provider M) (w : W) (m : M) → p.discovered ≡ some m → discover up p w ≡ (p, w, inr m)
  unfolding discover
  discovered_stays p w m h = ground (arith, h)

  discover_failed :
      (p p' : Provider M) (w w' : W) (e : OidcError) → discover up p w ≡ (p', w', inl e) → p' ≡ p
  unfolding discover
  discover_failed p p' w w' e h = ground (arith, h)

  -- Once a call of discovery has succeeded, every later one answers the same metadata without
  -- touching the network, whatever the world has become; a call that failed has cached nothing.
  pub discover_once :
      (p p' : Provider M) (w w' v : W)
      → ((m : M)
          → discover up p w ≡ (p', w', inr m)
          → (p'.cfg ≡ p.cfg) × (discover up p' v ≡ (p', v, inr m)))
        × ((e : OidcError) → discover up p w ≡ (p', w', inl e) → p' ≡ p)
  discover_once p p' w w' v = (
    λ m h. let (a, b) = discovered p p' w w' m h in (b, discovered_stays p' v m a),
    λ e h. discover_failed p p' w w' e h,
  )
