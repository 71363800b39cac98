-- ===== src/Cache/Store/Eviction.antt =====
-- What the cap on keys keeps true (cache/cache.go, entryFor).
use neokit.Base.{
  ℕ, suc, ◌≤◌, ◌≡◌, refl, true, false, String, List, [], ◌∷◌, ◌++◌, arith, length, lookup, keys,
  contains, Distinct, string_eq, same_refl, drop, inl, inr, ◌-◌, if◌then◌else◌, sym, ltb,
  delete_absent, Bool-cases, contains-append, zero,
}
use neokit.Cache.Store.{Cache, evict}

-- The order lists the keys of the map, oldest first, each once, and no more of them than the cap.
pub record Inv {V : Type 0} (c : Cache V) : Type 0 where
  pub ordered : keys c.entries ≡ c.order
  pub distinct : Distinct c.order
  pub capped : length c.order ≤ c.max_entries

drop_step :
    (max : ℕ) (k : String) (ks : List String)
    → drop (suc (length ks) - max) (k ∷ ks)
      ≡ (if ltb max (suc (length ks)) then drop (length ks - max) ks else k ∷ ks)
drop_step max k ks = elim (Bool-cases (ltb max (suc (length ks)))) [
  | inl more ↦
      let e : suc (length ks) - max ≡ suc (length ks - max) = ground arith in rw (e, more) refl
  | inr fits ↦ let e : suc (length ks) - max ≡ 0 = ground arith in rw (e, fits) refl
]

drop_nil : (n : ℕ) → drop {A = String} n [] ≡ []
drop_nil zero = refl
drop_nil (suc n) = refl

-- Dropping the oldest keys leaves the newest ones, and keeps the map and the order in step.
pub evict_lem :
    (max : ℕ) (order : List String) (m : List (String × ℕ))
    → keys m ≡ order
    → Distinct order
    → (keys (evict max order m).1 ≡ (evict max order m).0)
      × ((evict max order m).0 ≡ drop (length order - max) order)
unfolding evict
evict_lem max [] m e d = (e, sym (drop_nil (0 - max)))
evict_lem max (k ∷ order) [] e d = cc
evict_lem max (k ∷ order) ((j, p) ∷ m) e d =
    let first : j ≡ k = cc in
    let rest : keys m ≡ order = cc in
    let absent : contains (keys m) k ≡ false = rw rest d.0 in
    ground (
      arith,
      same_refl k,
      drop_step max k order,
      delete_absent k m absent,
      evict_lem max order m rest d.1,
    )

contains-drop :
    (n : ℕ) (ks : List String) (k : String) → contains (drop n ks) k ≡ true → contains ks k ≡ true
contains-drop zero ks k h = h
contains-drop (suc n) [] k h = h
contains-drop (suc n) (j ∷ ks) k h = ground (arith, contains-drop n ks k)

pub Distinct-drop : (n : ℕ) (ks : List String) → Distinct ks → Distinct (drop n ks)
Distinct-drop zero ks d = d
Distinct-drop (suc n) [] d = tt
Distinct-drop (suc n) (j ∷ ks) d = Distinct-drop n ks d.1

pub drop-append_last :
    (n : ℕ) (ks : List String) (k : String)
    → n ≤ length ks
    → contains (drop n (ks ++ k ∷ [])) k ≡ true
drop-append_last zero ks k h = ground (arith, contains-append ks (k ∷ []) k, same_refl k)
drop-append_last (suc n) [] k h = absurd (omega arith)
drop-append_last (suc n) (j ∷ ks) k h = drop-append_last n ks k (omega arith)

-- What is left of the map is found as before.
pub lookup-evict :
    (max : ℕ) (order : List String) (m : List (String × ℕ)) (k : String)
    → keys m ≡ order
    → Distinct order
    → contains (evict max order m).0 k ≡ true
    → lookup k (evict max order m).1 ≡ lookup k m
unfolding evict
lookup-evict max [] m k e d h = refl
lookup-evict max (i ∷ order) [] k e d h = cc
lookup-evict max (i ∷ order) ((j, p) ∷ m) k e d h =
    let first : j ≡ i = cc in
    let rest : keys m ≡ order = cc in
    let absent : contains (keys m) i ≡ false = rw rest d.0 in
    ground (
      arith,
      same_refl i,
      string_eq.beq_iff j k,
      delete_absent i m absent,
      (evict_lem max order m rest d.1).1,
      contains-drop (length order - max) order k,
      lookup-evict max order m k rest d.1,
    )
