-- ===== src/Base/Keys.antt =====
-- Keys with a Boolean equality, and lists of distinct keys.
use Prim.Native.Nat.{ℕ}
use Prim.Native.String.{String}
use text.Mathlib.Text.{◌==◌ as str_eq}
use text.Mathlib.TextEquality.{eq_iff}
use mathlib.Core.Path.{◌≡◌, refl, sym}
use mathlib.Core.Logic.{◌↔◌, inl, inr}
use mathlib.Core.Bool.{Bool, true, false, ◌||◌}
use mathlib.Core.List.{List, [], ◌∷◌, ◌++◌}
use native.Mathlib.Omega.{arith}
use neokit.Base.Tests.{Bool-cases, ◌==◌ as nat_beq, ==_iff}

pub record Eq {ℓ} (A : Type ℓ) : Type ℓ where
  pub beq : A → A → Bool
  pub beq_iff : (a b : A) → (beq a b ≡ true) ↔ (a ≡ b)

instance abbrev pub nat_eq : Eq ℕ
nat_eq = record { beq = nat_beq; beq_iff = ==_iff }

instance abbrev pub string_eq : Eq String
string_eq = record { beq = str_eq; beq_iff = eq_iff }

abbrev pub same {ℓ} : {A : Type ℓ} ⦃e : Eq A⦄ → A → A → Bool
same ⦃e⦄ = e.beq

pub same_refl {ℓ} : {A : Type ℓ} ⦃e : Eq A⦄ (a : A) → e.beq a a ≡ true
same_refl ⦃e⦄ a = (e.beq_iff a a).1 refl

module _ {ℓ} {K : Type ℓ} ⦃e : Eq K⦄ where
  abbrev pub contains : List K → K → Bool
  contains [] k = false
  contains (x ∷ xs) k = e.beq x k || contains xs k

  -- No key occurs twice.
  abbrev pub Distinct : List K → Type 0
  Distinct [] = Unit
  Distinct (x ∷ xs) = (contains xs x ≡ false) × Distinct xs

  pub same_false : (a b : K) → e.beq a b ≡ false → e.beq b a ≡ false
  same_false a b h = elim (Bool-cases (e.beq b a)) [
    | inl t ↦ cc ((e.beq_iff a b).1 (sym ((e.beq_iff b a).0 t)))
    | inr f ↦ f
  ]

  pub contains-append :
      (xs ys : List K) (k : K) → contains (xs ++ ys) k ≡ contains xs k || contains ys k
  contains-append [] ys k = refl
  contains-append (x ∷ xs) ys k = ground (arith, contains-append xs ys k)

  pub Distinct-append :
      (ks : List K) (k : K) → Distinct ks → contains ks k ≡ false → Distinct (ks ++ k ∷ [])
  Distinct-append [] k d h = (refl, tt)
  Distinct-append (j ∷ ks) k d h = (
    ground (arith, contains-append ks (k ∷ []) j, same_false j k),
    Distinct-append ks k d.1 (ground arith),
  )
