-- ===== src/Examples/Idp.antt =====
-- An identity provider that counts the calls of it: it takes every code, and the ID token carries the
-- code as its nonce and "alice" as its subject.
use neokit.Base.{
  Option, [], any, if◌then◌else◌, map, none, some, ℕ, ◌==◌, ltb, suc, ◌≡◌, ◌-◌, arith, false, inr,
  ◌∷◌, refl,
}
use neokit.Fiberauth.Handshake.{Base64}
use neokit.Oidcauth.{Config}
use neokit.Oidcauth.Provider.{Claim, absent, text_claim, Upstream, Provider}
use neokit.Text.{Text, text_eq, codes}

abbrev pub claims_of : Text → Claim
claims_of key = if text_eq key (codes "sub") then text_claim (codes " alice ") else absent

abbrev pub idp : Upstream ℕ Text
idp = record {
  new_provider = λ issuer n. (suc n, inr issuer);
  auth_code_url = λ cfg state nonce verifier. cfg.redirect_url;
  exchange_code = λ cfg code verifier n. (suc n, inr (some code));
  verify = λ m client raw n. (suc n, inr (record { token_nonce = raw; claims = some claims_of }));
  url_scheme = λ s. some (codes "https");
  end_session_endpoint = λ m. none;
  with_return = λ address client back. none;
  equal_fold = text_eq;
}

abbrev pub config : Config
config = record {
  issuer = codes "https://id";
  client_id = codes "app";
  client_secret = codes "s";
  base_url = codes "https://app";
  owner_group = codes "admins";
  scopes = [];
  groups_claim = codes "groups";
  callback_path = codes "/cb";
  post_logout_path = codes "/";
}

abbrev pub relying : Provider Text
relying = record { cfg = config; discovered = none }

-- An encoding that leaves out the bar.
abbrev pub shift : ℕ → ℕ
shift c = if ltb c 124 then c else suc c

abbrev pub unshift : ℕ → ℕ
unshift c = if ltb c 124 then c else c - 1

unshift-shift : (c : ℕ) → unshift (shift c) ≡ c
unshift-shift c = ground arith

pub unshift_all : (s : Text) → some (map unshift (map shift s)) ≡ some s
unshift_all [] = refl
unshift_all (c ∷ s) = ground (arith, unshift-shift c, unshift_all s)

pub shift-barless : (s : Text) → any (λ c. c == 124) (map shift s) ≡ false
shift-barless [] = refl
shift-barless (c ∷ s) = ground (arith, shift-barless s)

abbrev pub b64 : Base64
b64 = record {
  encode = map shift;
  decode = λ s. some (map unshift s);
  decode-encode = unshift_all;
  encode-barless = shift-barless;
}

-- Nothing has a scheme or a host.
abbrev pub parse_url : Text → Option (Text × Text)
parse_url s = some ([], [])
