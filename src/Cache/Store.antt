-- ===== src/Cache/Store.antt =====
-- The keys of the cache (cache/cache.go): type Cache, New, entryFor, Len and Invalidate. Entries
-- are pointers into a heap, as a caller may hold an entry that has been evicted from the map.
pub mod Eviction
pub mod Occupancy
use neokit.Base.{
  ℕ, suc, ◌<◌, String, List, [], ◌∷◌, ◌++◌, Option, none, some, if◌then◌else◌, ltb, length, ◌==◌,
  lookup, insert, delete, string_eq,
}
use neokit.Cache.{Entry, new_entry, default_max_entries, invalidate}

pub record Cache (V : Type 0) : Type 0 where
  pub entries : List (String × ℕ)
  pub order : List String
  pub max_entries : ℕ
  pub heap : ℕ → Entry V
  pub next : ℕ  -- the first pointer that is not allocated

module _ {V : Type 0} where
  unfoldable pub new : Cache V
  new = record {
    entries = [];
    order = [];
    max_entries = default_max_entries;
    heap = λ p. new_entry;
    next = 0;
  }

  abbrev pub write : Cache V → ℕ → Entry V → Cache V
  write c p e = record c { heap = λ q. if q == p then e else c.heap q }

-- `for len(order) > max`: drops the oldest key from the order and from the map.
unfoldable pub evict : ℕ → List String → List (String × ℕ) → List String × List (String × ℕ)
evict max [] entries = ([], entries)
evict max (oldest ∷ order) entries =
    let rest = evict max order (delete oldest entries) in
    if ltb max (length (oldest ∷ order)) then rest else (oldest ∷ order, entries)

module _ {V : Type 0} where
  -- The new entry for a key that the map lacks.
  unfoldable pub add_entry : String → Cache V → Cache V × ℕ
  add_entry key c =
      let p = c.next in
      let (order, entries) = evict c.max_entries (c.order ++ key ∷ []) (insert key p c.entries) in
      (record (write c p new_entry) { order = order; entries = entries; next = suc p }, p)

  unfoldable pub entry_for : String → Cache V → Cache V × ℕ
  unfolding add_entry
  entry_for key c = elim (lookup key c.entries) [ some p ↦ (c, p) | none ↦ add_entry key c ]

  -- Len counts the keys of the map.
  unfoldable pub len : Cache V → ℕ
  len c = length c.entries

  unfoldable pub invalidate_key : String → Cache V → Cache V
  invalidate_key key c = let (c', p) = entry_for key c in write c' p (invalidate (c'.heap p))

-- The exported calls, as far as they touch the keys: Fetch and GetOrFetch look their entry up.
pub data Call : Type 0 where
  fetches : String → Call
  invalidates : String → Call

unfoldable pub run : {V : Type 0} → List Call → Cache V → Cache V
run [] c = c
run (fetches key ∷ calls) c = run calls (entry_for key c).0
run (invalidates key ∷ calls) c = run calls (invalidate_key key c)
