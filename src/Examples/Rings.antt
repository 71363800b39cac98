-- ===== src/Examples/Rings.antt =====
-- A debug ring of two slots and three requests.
use neokit.Base.{pos, ℕ, ◌∷◌, [], ◌≡◌, last}
use neokit.Httpc.Debug.{DebugEntry, capacity, new_ring, entries_of, push_all, zero_entry}
use neokit.Httpc.Debug.Window.{entries_of-push_all}

abbrev asked : ℕ → DebugEntry
asked status = record zero_entry { status_code = pos status }

entries_of-push_all_example :
    entries_of (push_all (asked 200 ∷ asked 404 ∷ asked 503 ∷ []) (new_ring (pos 2)))
    ≡ last (capacity (pos 2)) (asked 200 ∷ asked 404 ∷ asked 503 ∷ [])
entries_of-push_all_example = entries_of-push_all (pos 2) (asked 200 ∷ asked 404 ∷ asked 503 ∷ [])
