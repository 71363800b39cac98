-- ===== src/Capset/Lookup.antt =====
-- The memos change nothing of what a lookup answers (capset/capset.go).
use neokit.Base.{
  Eq, Bool, List, String, ◌≡◌, Option, Option-cases, keep, lookup, arith, inr, none, some, [], inl,
  ◌∷◌, if◌then◌else◌, lookup-insert, ◌&&◌, refl, string_eq, insert, ◌∙◌, ltb, Bool-cases, length,
  ◌↔◌, any, ap, get_elem?,
}
use neokit.Capset.{Set, new, all_of, table_from, of, first, by_name, both, any_of}

module _ {E C : Type 0} ⦃e : Eq C⦄ (implements : C → E → Bool) where
  -- The implementors of a capability, in the order of registration.
  abbrev pub implementors : C → Set E C → List E
  implementors cap s = keep (implements cap) s.items

  -- The last registered implementor of the name.
  abbrev pub last_named : C → (E → String) → String → List E → Option E
  last_named cap name k [] = none
  last_named cap name k (it ∷ items) = elim (last_named cap name k items) [
    | some later ↦ some later
    | none ↦ if implements cap it && string_eq.beq (name it) k then some it else none
  ]

  -- The memos hold what a scan of the items would give.
  pub record Coherent (s : Set E C) : Type 0 where
    pub lists_ok :
        (cap : C) (out : List E) → lookup cap s.lists ≡ some out → out ≡ implementors cap s
    pub tables_ok :
        (cap : C) (out : List (String × E))
        → lookup cap s.tables ≡ some out
        → (name : E → String) × (s.name ≡ some name)
          × (out ≡ table_from implements cap name s.items [])

  pub new-Coherent : (items : List E) (name : Option (E → String)) → Coherent (new items name)
  unfolding new
  new-Coherent items name = record {
    lists_ok = λ cap out h. ground arith;
    tables_ok = λ cap out h. absurd (cc);
  }

  -- On a coherent set All gives the implementors in the order of registration, at the first call
  -- and at every later one, and leaves the set coherent with the same components.
  pub all_of_lem :
      (cap : C) (s : Set E C)
      → Coherent s
      → let (s', out) = all_of implements cap s in
        (out ≡ implementors cap s) × (s'.items ≡ s.items) × (s'.name ≡ s.name) × Coherent s'
  unfolding all_of
  all_of_lem cap s v = elim (Option-cases (lookup cap s.lists)) [
    | inr (out, h) ↦ rw (h, all_of) (v.lists_ok cap out h, refl, refl, v)
    | inl h ↦
        rw (h, all_of)
          (
            refl,
            refl,
            refl,
            record {
              lists_ok = λ c out k. ground (
                arith,
                lookup-insert cap c (implementors cap s) s.lists,
                v.lists_ok c out,
                e.beq_iff cap c,
              );
              tables_ok = v.tables_ok;
            },
          )
  ]

  or_else : Option E → Option E → Option E
  or_else (some a) b = some a
  or_else none b = b

  table_from_lem :
      (cap : C) (name : E → String) (k : String) (items : List E) (out : List (String × E))
      → lookup k (table_from implements cap name items out)
        ≡ or_else (last_named cap name k items) (lookup k out)
  unfolding table_from or_else
  table_from_lem cap name k [] out = refl
  table_from_lem cap name k (it ∷ items) out = ground (
    arith,
    table_from_lem cap name k items out,
    table_from_lem cap name k items (insert (name it) it out),
    lookup-insert (name it) k it out,
    string_eq.beq_iff (name it) k,
  )

  table_named :
      (cap : C) (name : E → String) (k : String) (items : List E)
      → lookup k (table_from implements cap name items []) ≡ last_named cap name k items
  unfolding or_else
  table_named cap name k items =
      table_from_lem cap name k items [] ∙ unit (last_named cap name k items)
    where
      unit : (o : Option E) → or_else o none ≡ o
      unit none = refl
      unit (some a) = refl

  -- On a coherent set with a name function Of finds, whether or not the table was remembered, the
  -- implementor of that name that was registered last, or none, and leaves the set coherent.
  pub of_lem :
      (cap : C) (k : String) (name : E → String) (s : Set E C)
      → Coherent s
      → s.name ≡ some name
      → (s' : Set E C) × (of implements cap k s ≡ some (s', last_named cap name k s.items))
        × Coherent s'
  unfolding of by_name
  of_lem cap k name s v n = elim (Option-cases (lookup cap s.tables)) [
    | inr (out, h) ↦
        let (name', n', t) = v.tables_ok cap out h in
        let one : name' ≡ name = cc in
        (
          s,
          ground (
            arith,
            table_named cap name k s.items,
            ap (λ f. table_from implements cap f s.items []) one,
          ),
          v,
        )
    | inl h ↦
        let out : List (String × E) = table_from implements cap name s.items [] in
        (
          record s { tables = insert cap out s.tables },
          ground (arith, table_named cap name k s.items),
          record { lists_ok = v.lists_ok; tables_ok = λ c out' g. retable c out' g },
        )
  ]
    where
      retable :
          (c : C) (out' : List (String × E))
          → lookup c (insert cap (table_from implements cap name s.items []) s.tables) ≡ some out'
          → (nm : E → String) × (s.name ≡ some nm) × (out' ≡ table_from implements c nm s.items [])
      retable c out' g = elim (Bool-cases (e.beq cap c)) [
        | inl t ↦ (
          name,
          n,
          ground (
            arith,
            lookup-insert cap c (table_from implements cap name s.items []) s.tables,
            ap (λ x. table_from implements x name s.items []) ((e.beq_iff cap c).0 t),
          ),
        )
        | inr f ↦ v.tables_ok c out' (
            ground
              (arith, lookup-insert cap c (table_from implements cap name s.items []) s.tables))
      ]

  -- ByName and Of panic exactly on a set without a name function, for a table not remembered.
  pub by_name_panics :
      (cap : C) (s : Set E C)
      → (by_name implements cap s ≡ none) ↔ ((lookup cap s.tables ≡ none) × (s.name ≡ none))
  unfolding by_name
  by_name_panics cap s = (λ h. ground arith, λ h. ground arith)

  keep_both :
      (cap cap' : C) (items : List E)
      → keep (implements cap') (keep (implements cap) items)
        ≡ keep (λ it. implements cap it && implements cap' it) items
  keep_both cap cap' [] = refl
  keep_both cap cap' (it ∷ items) = ground (arith, keep_both cap cap' items)

  any-keep :
      (cap : C) (items : List E)
      → ltb 0 (length (keep (implements cap) items)) ≡ any (implements cap) items
  any-keep cap [] = refl
  any-keep cap (it ∷ items) = ground (arith, any-keep cap items)

  -- On a coherent set First is the implementor that was registered first, Both the implementors
  -- of both capabilities in order, and Any whether there is an implementor at all.
  pub scan_answers :
      (cap cap' : C) (s : Set E C)
      → Coherent s
      → ((first implements cap s).1 ≡ get_elem? (implementors cap s) 0)
        × ((both implements cap cap' s).1
            ≡ keep (λ it. implements cap it && implements cap' it) s.items)
        × ((any_of implements cap s).1 ≡ any (implements cap) s.items)
  unfolding first both any_of
  scan_answers cap cap' s v =
      let found = (all_of_lem cap s v).0 in
      (rw found refl, rw found (keep_both cap cap' s.items), rw found (any-keep cap s.items))
