-- ===== src/Capset.antt =====
-- capset/capset.go: capabilities of a set of components, found by type assertion and remembered.
-- A capability is named by a `C` (its reflect.Type); whether a component implements it is the
-- parameter `implements`. What the code returns at the capability's own type is the component
-- itself here. The locks guard the two memos, which are part of the state.
pub mod Lookup
use neokit.Base.{
  ℕ, Eq, List, length, Bool, Option, String, get_elem?, keep, lookup, ltb, [], none, some, ◌∷◌,
  if◌then◌else◌, insert, string_eq,
}

pub record Set (E C : Type 0) : Type 0 where
  pub items : List E
  pub name : Option (E → String)
  pub lists : List (C × List E)
  pub tables : List (C × List (String × E))

-- New
unfoldable pub new : {E C : Type 0} → List E → Option (E → String) → Set E C
new items name = record { items = items; name = name; lists = []; tables = [] }

-- Len
unfoldable pub len : {E C : Type 0} → Set E C → ℕ
len s = length s.items

module _ {E C : Type 0} ⦃e : Eq C⦄ (implements : C → E → Bool) where
  -- All, with the set after it.
  unfoldable pub all_of : C → Set E C → Set E C × List E
  all_of cap s = elim (lookup cap s.lists) [
    | some cached ↦ (s, cached)
    | none ↦
        let out = keep (implements cap) s.items in
        (record s { lists = insert cap out s.lists }, out)
  ]

  -- The loop of ByName: a later component takes the name over.
  unfoldable pub table_from : C → (E → String) → List E → List (String × E) → List (String × E)
  table_from cap name [] out = out
  table_from cap name (it ∷ items) out =
      table_from cap name items (if implements cap it then insert (name it) it out else out)

  -- ByName; `none` is its panic on a set without a name function.
  unfoldable pub by_name : C → Set E C → Option (Set E C × List (String × E))
  unfolding table_from
  by_name cap s = elim (lookup cap s.tables) [
    | some cached ↦ some (s, cached)
    | none ↦ elim s.name [
      | none ↦ none
      | some name ↦
          let out = table_from cap name s.items [] in
          some (record s { tables = insert cap out s.tables }, out)
    ]
  ]

  -- Of: the zero value is `none`.
  unfoldable pub of : C → String → Set E C → Option (Set E C × Option E)
  unfolding by_name
  of cap name s = elim (by_name cap s) [
    | none ↦ none
    | some (s', table) ↦ some (s', lookup name table)
  ]

  -- First
  unfoldable pub first : C → Set E C → Set E C × Option E
  unfolding all_of
  first cap s = let (s', list) = all_of cap s in (s', get_elem? list 0)

  -- Both
  unfoldable pub both : C → C → Set E C → Set E C × List E
  unfolding all_of
  both cap cap' s = let (s', list) = all_of cap s in (s', keep (implements cap') list)

  -- Any
  unfoldable pub any_of : C → Set E C → Set E C × Bool
  unfolding all_of
  any_of cap s = let (s', list) = all_of cap s in (s', ltb 0 (length list))
