-- ===== src/Safe/All.antt =====
-- All (safe/all.go): a fan-out over items, each on a goroutine of its own. The goroutines write
-- to their own indices and end in any order, which is a list of indices here; a panic and an
-- error leave the zero value.
use neokit.Base.{
  ℕ, List, Bool, ◌⊎◌, false, get_elem?, inl, ◌≡◌, ◌∷◌, [], if◌then◌else◌, ◌==◌, true, inr, arith,
  contains, none, ◌≢◌, nat_eq, some, refl, Bool-cases, subst, sym, ==_iff, ◌∙◌, if_same, ap,
}
use neokit.Safe.{Ending, returned, panicked}

-- results and ok, as functions of the index.
pub record Results (R : Type 0) : Type 0 where
  pub result : ℕ → R
  pub ok : ℕ → Bool

module _ {T R E : Type 0} (zero_value : R) (fn : T → Ending (R ⊎ E)) where
  abbrev pub blank : Results R
  blank = record { result = λ i. zero_value; ok = λ i. false }

  abbrev pub answer : Ending (R ⊎ E) → ℕ → Results R → Results R
  answer (returned (inl r)) i s = record {
    result = λ j. if j == i then r else s.result j;
    ok = λ j. if j == i then true else s.ok j;
  }
  answer (returned (inr e)) i s = s
  answer panicked i s = s

  -- The goroutine of one index, from its call to its writes.
  unfoldable pub run_one : List T → ℕ → Results R → Results R
  run_one items i s = elim (get_elem? items i) [ none ↦ s | some item ↦ answer (fn item) i s ]

  unfoldable pub all : List T → List ℕ → Results R → Results R
  unfolding run_one
  all items [] s = s
  all items (i ∷ order) s = all items order (run_one items i s)

  -- What index i is answered, on its own.
  abbrev pub value_at : List T → ℕ → R × Bool
  value_at items i = elim (get_elem? items i) [
    | none ↦ (zero_value, false)
    | some item ↦ elim (fn item) [
      | returned (inl r) ↦ (r, true)
      | returned (inr e) ↦ (zero_value, false)
      | panicked ↦ (zero_value, false)
    ]
  ]

  abbrev pub at : Results R → ℕ → R × Bool
  at s i = (s.result i, s.ok i)

  run_one_self :
      (items : List T) (i : ℕ) (s : Results R)
      → (at s i ≡ value_at items i) ⊎ (at s i ≡ (zero_value, false))
      → at (run_one items i s) i ≡ value_at items i
  unfolding run_one
  run_one_self items i s v = ground (arith, v)

  run_one_ne :
      (items : List T) (i j : ℕ) (s : Results R) → i ≢ j → at (run_one items i s) j ≡ at s j
  unfolding run_one
  run_one_ne items i j s v = ground arith

  all_lem :
      (items : List T) (order : List ℕ) (j : ℕ) (s : Results R)
      → (at s j ≡ value_at items j) ⊎ (at s j ≡ (zero_value, false))
      → at (all items order s) j ≡ (if contains order j then value_at items j else at s j)
  unfolding all
  all_lem items [] j s v = refl
  all_lem items (i ∷ order) j s v = elim (Bool-cases (i == j)) [
    | inl t ↦
        let answered = run_one_self items j s v in
        let rest = all_lem items order j (run_one items j s) (inl answered) in
        rw t (
          subst (λ k. at (all items order (run_one items k s)) j ≡ value_at items j)
            (sym ((==_iff i j).0 t))
            (rest ∙ rw answered (if_same (contains order j) (value_at items j))))
    | inr f ↦
        let other = run_one_ne items i j s (λ e. ground arith) in
        rw f (
          all_lem items order j (run_one items i s) (rw other v)
          ∙ ap (λ x. if contains order j then value_at items j else x) other)
  ]

  -- Whatever the order in which the goroutines end, once index i has ended it has the answer of
  -- its own item, and an index that has not has none: no source blanks, delays or changes another.
  pub all_any_order :
      (items : List T) (order : List ℕ) (i : ℕ)
      → at (all items order blank) i
        ≡ (if contains order i then value_at items i else (zero_value, false))
  all_any_order items order i = all_lem items order i blank (inr refl)
