-- ===== src/Httpc/Ssrf/Guard.antt =====
-- What the guard keeps out (httpc/ssrf.go).
use neokit.Base.{
  ℕ, ◌<◌, ◌^◌, ◌*◌, ◌≡◌, ◌+◌, true, ◌↔◌, ◌⊎◌, ◌≤◌, Bool, arith, refl, sym, ◌/◌, ◌∙◌, ◌==◌, ◌||◌,
  Option, none, some, false, Option-cases, inl, inr, Bool-cases,
}
use neokit.Text.{Text}
use neokit.Httpc.Ssrf.{Addr, v4, v6, unmap, is_private_addr, is_internal_addr, control, policy}

unmap_mapped : (a : ℕ) → a < 2 ^ 32 → unmap (v6 (0xffff * 2 ^ 32 + a)) ≡ v4 a
unfolding unmap
unmap_mapped a h = ground arith

judged_by_unmap :
    (x y : Addr)
    → unmap x ≡ unmap y
    → (is_private_addr x ≡ is_private_addr y) × (is_internal_addr x ≡ is_internal_addr y)
unfolding is_private_addr
judged_by_unmap x y e = rw e (refl, refl)

unmap_v4 : (a : ℕ) → unmap (v4 a) ≡ v4 a
unfolding unmap
unmap_v4 a = refl

-- An IPv4 address is judged the same when it is written as an IPv4-mapped IPv6 address, by both
-- policies.
pub mapped_same :
    (a : ℕ)
    → a < 2 ^ 32
    → (is_private_addr (v6 (0xffff * 2 ^ 32 + a)) ≡ is_private_addr (v4 a))
      × (is_internal_addr (v6 (0xffff * 2 ^ 32 + a)) ≡ is_internal_addr (v4 a))
mapped_same a h = judged_by_unmap _ _ (unmap_mapped a h ∙ sym (unmap_v4 a))

-- The tests of the strict policy on an IPv4 address.
abbrev tests : ℕ → Bool
tests a =
    (a / 2 ^ 24 == 10 || a / 2 ^ 20 == 2753 || a / 2 ^ 16 == 49320)
    || (a / 2 ^ 24 == 127
        || a / 2 ^ 16 == 43518
        || a / 2 ^ 8 == 14680064
        || a == 0
        || a / 2 ^ 28 == 14)

v4_tests : (a : ℕ) → is_private_addr (v4 a) ≡ tests a
unfolding is_private_addr unmap
v4_tests a = refl

abbrev Ranges : ℕ → Type 0
Ranges a =
    (a ≡ 0)
    ⊎ ((0x0a000000 ≤ a) × (a < 0x0b000000))
    ⊎ ((0x7f000000 ≤ a) × (a < 0x80000000))
    ⊎ ((0xa9fe0000 ≤ a) × (a < 0xa9ff0000))
    ⊎ ((0xac100000 ≤ a) × (a < 0xac200000))
    ⊎ ((0xc0a80000 ≤ a) × (a < 0xc0a90000))
    ⊎ ((0xe0000000 ≤ a) × (a < 0xf0000000))

tests_iff : (a : ℕ) → a < 2 ^ 32 → (tests a ≡ true) ↔ Ranges a
tests_iff a h = (λ e. ground arith, λ r. ground arith)

-- The strict policy refuses an IPv4 address exactly if it is 0.0.0.0 or lies in 10/8, 127/8,
-- 169.254/16, 172.16/12, 192.168/16 or 224/4.
pub private_v4_ranges :
    (a : ℕ)
    → a < 2 ^ 32
    → (is_private_addr (v4 a) ≡ true) ↔ (
        (a ≡ 0)
        ⊎ ((0x0a000000 ≤ a) × (a < 0x0b000000))
        ⊎ ((0x7f000000 ≤ a) × (a < 0x80000000))
        ⊎ ((0xa9fe0000 ≤ a) × (a < 0xa9ff0000))
        ⊎ ((0xac100000 ≤ a) × (a < 0xac200000))
        ⊎ ((0xc0a80000 ≤ a) × (a < 0xc0a90000))
        ⊎ ((0xe0000000 ≤ a) × (a < 0xf0000000)))
unfolding is_private_addr
private_v4_ranges a h =
    let t = v4_tests a in (λ e. (tests_iff a h).0 (sym t ∙ e), λ r. t ∙ (tests_iff a h).1 r)

-- The dialer lets a connection be made exactly if the address splits and parses and the policy
-- allows the parsed address, where the policy is the strict one unless another is given.
pub control_allows_iff :
    (split : Text → Option Text)
    → (parse : Text → Option Addr) → (deny : Option (Addr → Bool)) → (address : Text)
    → (control split parse deny address ≡ none) ↔ (
        (host : Text) × (ip : Addr) × (split address ≡ some host)
        × (parse host ≡ some ip)
        × (policy deny ip ≡ false))
unfolding control
control_allows_iff split parse deny address = elim (Option-cases (split address)) [
  | inl e ↦ (λ c. ground (arith, e), λ (h, ip, f, g, x). ground (arith, e))
  | inr (h, e) ↦ elim (Option-cases (parse h)) [
    | inl f ↦ (λ c. ground (arith, e, f), λ (h', ip, g, g2, x). ground (arith, e, f))
    | inr (ip, f) ↦ elim (Bool-cases (policy deny ip)) [
      | inl b ↦ (λ c. ground (arith, e, f, b), λ (h', ip', g, g2, x). ground (arith, e, f, b))
      | inr b ↦ (λ c. (h, ip, e, f, b), λ x. ground (arith, e, f, b))
    ]
  ]
]
