-- ===== src/Httpc/Debug.antt =====
-- httpc/debug.go: the ring of a client's last outbound requests. The mutex makes each call one
-- function. A slot that was never written holds Go's zero entry.
pub mod Window
use neokit.Base.{
  ◌+◌, List, String, pos, ℕ, ℤ, ◌%◌, Bool, [], false, if◌then◌else◌, ◌∷◌, ◌==◌, not, set, suc,
  negsuc, take, true, zero, drop, ◌++◌,
}
use neokit.Text.{Text}
use neokit.Clock.{Instant, zero_time}

pub record DebugEntry : Type 0 where
  pub time : Instant
  pub method : Text
  pub url : Text
  pub status_code : ℤ
  pub duration_ms : ℤ
  pub error : Text

abbrev pub zero_entry : DebugEntry
zero_entry = record {
  time = zero_time;
  method = [];
  url = [];
  status_code = pos 0;
  duration_ms = pos 0;
  error = [];
}

pub record DebugRing : Type 0 where
  pub entries : List DebugEntry
  pub cap : ℕ
  pub cursor : ℕ
  pub full : Bool

abbrev pub blank : ℕ → List DebugEntry
blank zero = []
blank (suc n) = zero_entry ∷ blank n

-- The capacity that NewDebugRing settles on.
unfoldable pub capacity : ℤ → ℕ
capacity (pos n) = if n == 0 then 50 else n
capacity (negsuc n) = 50

-- NewDebugRing
unfoldable pub new_ring : ℤ → DebugRing
new_ring n = let c = capacity n in record { entries = blank c; cap = c; cursor = 0; full = false }

-- DebugRing.Push
unfoldable pub push : DebugEntry → DebugRing → DebugRing
push e r =
    let next = (r.cursor + 1) % r.cap in
    record r {
      entries = set r.entries r.cursor e;
      cursor = next;
      full = (if next == 0 then true else r.full);
    }

-- DebugRing.Entries
unfoldable pub entries_of : DebugRing → List DebugEntry
entries_of r =
    if not r.full
    then take r.cursor r.entries
    else drop r.cursor r.entries ++ take r.cursor r.entries

unfoldable pub push_all : List DebugEntry → DebugRing → DebugRing
push_all [] r = r
push_all (e ∷ es) r = push_all es (push e r)
