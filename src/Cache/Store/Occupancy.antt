-- ===== src/Cache/Store/Occupancy.antt =====
-- The keys that the cache holds after any calls: how many, in which order, and which is found.
use neokit.Base.{
  ℕ, String, List, ◌<◌, arith, lookup, Option-cases, ◌++◌, ◌≡◌, ◌∷◌, [], some, none, insert, keys,
  Distinct, length, ◌-◌, contains, false, inl, length-drop, string_eq, inr, lookup_missing,
  keys-insert_new, ◌∙◌, ◌∙◌, ap, Distinct-append, drop, ◌≤◌, ◌≤◌, length-append, ◌≢◌, ◌≢◌, true,
  lookup-insert, same_refl, length-keys, refl,
}
use neokit.Cache.Store.{
  Cache, new, evict, add_entry, entry_for, len, invalidate_key, Call, fetches, invalidates, run,
}
use neokit.Cache.Store.Eviction.{Inv, evict_lem, lookup-evict, Distinct-drop, drop-append_last}
use neokit.Cache.{default_max_entries}

module _ {V : Type 0} where
  pub new-Inv : Inv (new {V = V})
  unfolding new
  new-Inv = ground arith

  longer_keys :
      (key : String) (c : Cache V)
      → Inv c
      → lookup key c.entries ≡ none
      → (keys (insert key c.next c.entries) ≡ c.order ++ key ∷ []) × Distinct (c.order ++ key ∷ [])
  longer_keys key c v h =
      let absent : contains (keys c.entries) key ≡ false = lookup_missing key c.entries h in
      (
        keys-insert_new key c.next c.entries absent ∙ ap (λ ks. ks ++ key ∷ []) v.ordered,
        Distinct-append c.order key v.distinct (rw v.ordered at absent),
      )

  add_entry-Inv :
      (key : String) (c : Cache V) → Inv c → lookup key c.entries ≡ none → Inv (add_entry key c).0
  unfolding add_entry
  add_entry-Inv key c v h =
      let order = c.order ++ key ∷ [] in
      let (e, d) = longer_keys key c v h in
      let (same_keys, newest) = evict_lem c.max_entries order (insert key c.next c.entries) e d in
      record {
        ordered = same_keys;
        distinct = rw newest (Distinct-drop (length order - c.max_entries) order d);
        capped = rw newest (omega (arith, length-drop (length order - c.max_entries) order));
      }

  entry_for-Inv : (key : String) (c : Cache V) → Inv c → Inv (entry_for key c).0
  unfolding entry_for
  entry_for-Inv key c v = elim (Option-cases (lookup key c.entries)) [
    | inl h ↦ rw (h, entry_for) (add_entry-Inv key c v h)
    | inr (p, h) ↦ rw (h, entry_for) v
  ]

  add_entry_found :
      (key : String) (c : Cache V)
      → Inv c
      → 0 < c.max_entries
      → lookup key c.entries ≡ none
      → lookup key (add_entry key c).0.entries ≡ some c.next
  unfolding add_entry
  add_entry_found key c v h a =
      let order = c.order ++ key ∷ [] in
      let (e, d) = longer_keys key c v a in
      let m : List (String × ℕ) = insert key c.next c.entries in
      let (same_keys, newest) = evict_lem c.max_entries order m e d in
      let few : length order - c.max_entries ≤ length c.order =
        omega (arith, length-append c.order (key ∷ [])) in
      let kept : contains (evict c.max_entries order m).0 key ≡ true =
        rw newest (drop-append_last (length order - c.max_entries) c.order key few) in
      lookup-evict c.max_entries order m key e d kept
      ∙ ground (arith, lookup-insert key key c.next c.entries, same_refl key)

  entry_for_absent :
      (key : String) (c : Cache V) → lookup key c.entries ≡ none → entry_for key c ≡ add_entry key c
  unfolding entry_for
  entry_for_absent key c h = ground arith

  entry_for_present :
      (key : String) (c : Cache V) {p : ℕ}
      → lookup key c.entries ≡ some p
      → entry_for key c ≡ (c, p)
  unfolding entry_for
  entry_for_present key c h = ground arith

  add_entry_pointer : (key : String) (c : Cache V) → (add_entry key c).1 ≡ c.next
  unfolding add_entry
  add_entry_pointer key c = refl

  -- With room for a key at all, entryFor hands out an entry that later calls for the key find:
  -- a second call gives the same entry and changes nothing.
  pub entry_for_again :
      (key : String) (c : Cache V)
      → Inv c
      → 0 < c.max_entries
      → let (c', p) = entry_for key c in
        (lookup key c'.entries ≡ some p) × (entry_for key c' ≡ (c', p))
  entry_for_again key c v h = (found, entry_for_present key (entry_for key c).0 found)
    where
      found : lookup key (entry_for key c).0.entries ≡ some (entry_for key c).1
      found = elim (Option-cases (lookup key c.entries)) [
        | inl a ↦ rw (entry_for_absent key c a, add_entry_pointer) (add_entry_found key c v h a)
        | inr (p, f) ↦ rw (entry_for_present key c f) f
      ]

  -- A key that the map lacks goes to the end of the order, and the oldest keys beyond the cap go
  -- from the front; a key that is there moves nothing.
  pub entry_for_order :
      (key : String) (c : Cache V)
      → Inv c
      → let order = c.order ++ key ∷ [] in
        (lookup key c.entries ≡ none
          → (entry_for key c).0.order ≡ drop (length order - c.max_entries) order)
        × (lookup key c.entries ≢ none → (entry_for key c).0 ≡ c)
  unfolding entry_for add_entry
  entry_for_order key c v = (
    λ a.
        let (e, d) = longer_keys key c v a in
        rw (a, entry_for) (evict_lem c.max_entries _ (insert key c.next c.entries) e d).1,
    λ f. ground arith,
  )

  invalidate_key-Inv : (key : String) (c : Cache V) → Inv c → Inv (invalidate_key key c)
  unfolding invalidate_key
  invalidate_key-Inv key c v =
      let w = entry_for-Inv key c v in
      record { ordered = w.ordered; distinct = w.distinct; capped = w.capped }

  entry_for_cap : (key : String) (c : Cache V) → (entry_for key c).0.max_entries ≡ c.max_entries
  unfolding entry_for add_entry
  entry_for_cap key c = ground arith

  run-Inv : (calls : List Call) (c : Cache V) → Inv c → Inv (run calls c)
  unfolding run
  run-Inv [] c v = v
  run-Inv (fetches key ∷ calls) c v = run-Inv calls _ (entry_for-Inv key c v)
  run-Inv (invalidates key ∷ calls) c v = run-Inv calls _ (invalidate_key-Inv key c v)

  run_cap : (calls : List Call) (c : Cache V) → (run calls c).max_entries ≡ c.max_entries
  unfolding run invalidate_key
  run_cap [] c = refl
  run_cap (fetches key ∷ calls) c = run_cap calls _ ∙ entry_for_cap key c
  run_cap (invalidates key ∷ calls) c = run_cap calls _ ∙ entry_for_cap key c

-- After any calls on a new cache the map and the insertion order hold the same keys, each once,
-- and Len is at most 4096.
pub run_capped :
    (V : Type 0) (calls : List Call)
    → let c = run calls (new {V = V}) in
      (keys c.entries ≡ c.order) × Distinct c.order × (len c ≤ default_max_entries)
unfolding len new
run_capped V calls =
    let v = run-Inv calls (new {V = V}) new-Inv in
    (
      v.ordered,
      v.distinct,
      omega (
        arith,
        v.capped,
        run_cap calls (new {V = V}),
        ap length v.ordered,
        length-keys (run calls (new {V = V})).entries,
      ),
    )
