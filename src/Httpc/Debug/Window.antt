-- ===== src/Httpc/Debug/Window.antt =====
-- The debug ring against the window of the last requests.
use native.Mathlib.Nat.{mod-eq_of_lt, mod_self}
use neokit.Base.{
  List, arith, last, length, suc, ℕ, ℤ, ◌≡◌, ◌+◌, ◌<◌, [], ap, if◌then◌else◌, length-set, true,
  drop, pos, zero, ◌≤◌, ◌++◌, inr, negsuc, refl, ◌∙◌, ◌⊎◌, false, take, ◌∷◌, take-set, drop-set,
  take_whole, set, drop_whole, Bool, inl, ◌==◌, not, sym, if_same, drop-append, last-snoc, subst,
  last_whole, length-drop, drop-drop, length-append,
}
use neokit.Httpc.Debug.{
  DebugEntry, DebugRing, blank, capacity, new_ring, push, entries_of, push_all,
}
use mathlib.Core.List.{append_assoc, append-nil}

-- What NewDebugRing and Push maintain.
pub record IsValid (r : DebugRing) : Type 0 where
  pub sized : length r.entries ≡ r.cap
  pub inside : r.cursor < r.cap

within : {r : DebugRing} → IsValid r → r.cursor < length r.entries
within v = omega arith

-- The ring holds the last of the entries `seen`.
pub record Holds (r : DebugRing) (seen : List DebugEntry) : Type 0 where
  pub valid : IsValid r
  pub window : entries_of r ≡ last r.cap seen
  pub filled : (r.full ≡ true) × (r.cap ≤ length seen) ⊎ (r.full ≡ false) × (r.cursor ≡ length seen)

length-blank : (n : ℕ) → length (blank n) ≡ n
length-blank zero = refl
length-blank (suc n) = ap suc (length-blank n)

pub capacity_positive : (n : ℤ) → 0 < capacity n
unfolding capacity
capacity_positive (pos n) = ground arith
capacity_positive (negsuc n) = omega arith

new_ring-Holds : (n : ℤ) → Holds (new_ring n) []
unfolding new_ring entries_of last
new_ring-Holds n = record {
  valid = record { sized = length-blank (capacity n); inside = capacity_positive n };
  window = drop_nil _;
  filled = inr (refl, refl);
}
  where
    drop_nil : (k : ℕ) → [] ≡ drop {A = DebugEntry} k []
    drop_nil zero = refl
    drop_nil (suc k) = refl

-- Push before the last slot, and at it.
push_inside :
    (e : DebugEntry) (r : DebugRing)
    → r.cursor + 1 < r.cap
    → push e r ≡ record r { entries = set r.entries r.cursor e; cursor = suc r.cursor }
unfolding push
push_inside e r h = rw (mod-eq_of_lt h, suc_eq r.cursor, still r.cursor r.full) refl
  where
    still : (n : ℕ) (b : Bool) → (if suc n == 0 then true else b) ≡ b
    still n b = ground arith

    suc_eq : (n : ℕ) → n + 1 ≡ suc n
    suc_eq n = omega arith

push_at_end :
    (e : DebugEntry) (r : DebugRing)
    → r.cursor + 1 ≡ r.cap
    → push e r ≡ record r { entries = set r.entries r.cursor e; cursor = 0; full = true }
unfolding push
push_at_end e r h = rw (h, mod_self r.cap) refl

push-cases : (r : DebugRing) → IsValid r → (r.cursor + 1 < r.cap) ⊎ (r.cursor + 1 ≡ r.cap)
push-cases r v = ground arith

-- The older entries that Push leaves, and the new one behind them.
entries_of-push :
    (e : DebugEntry) (r : DebugRing)
    → IsValid r
    → entries_of (push e r)
      ≡ (if r.full then drop (suc r.cursor) r.entries else [])
        ++ (take r.cursor r.entries ++ e ∷ [])
unfolding entries_of
entries_of-push e r v = elim (push-cases r v) [
  | inl h ↦
      rw
        (push_inside e r h, take-set r.entries r.cursor e (within v), drop-set r.entries r.cursor e)
        (branches r.full _ _)
  | inr h ↦
      rw
        (
          push_at_end e r h,
          append-nil (set r.entries r.cursor e),
          stored h,
          drop_whole r.entries (suc r.cursor) (omega (arith, v.sized)),
          if_same r.full,
        )
        refl
]
  where
    branches :
        (b : Bool) (xs ys : List DebugEntry)
        → (if not b then ys else xs ++ ys) ≡ (if b then xs else []) ++ ys
    branches true xs ys = refl
    branches false xs ys = refl

    stored : r.cursor + 1 ≡ r.cap → set r.entries r.cursor e ≡ take r.cursor r.entries ++ e ∷ []
    stored h =
        sym (
          take_whole (set r.entries r.cursor e) (suc r.cursor)
            (omega (arith, v.sized, length-set r.entries r.cursor e)))
        ∙ take-set r.entries r.cursor e (within v)

push-IsValid : (e : DebugEntry) (r : DebugRing) → IsValid r → IsValid (push e r)
push-IsValid e r v =
    ground
      (arith, push-cases r v, push_inside e r, push_at_end e r, length-set r.entries r.cursor e)

-- A full ring gives up its oldest entry.
entries_of-push_step :
    (e : DebugEntry) (r : DebugRing)
    → IsValid r
    → entries_of (push e r) ≡ (if r.full then drop 1 (entries_of r) else entries_of r) ++ e ∷ []
unfolding entries_of
entries_of-push_step e r v =
    entries_of-push e r v
    ∙ sym (append_assoc (if r.full then drop (suc r.cursor) r.entries else []) _ _)
    ∙ ap (λ l. l ++ e ∷ []) (older r.full)
  where
    older :
        (b : Bool)
        → (if b then drop (suc r.cursor) r.entries else []) ++ take r.cursor r.entries ≡ (
            if b
            then drop 1 (
                if not b
                then take r.cursor r.entries
                else drop r.cursor r.entries ++ take r.cursor r.entries)
            else if not b
            then take r.cursor r.entries
            else drop r.cursor r.entries ++ take r.cursor r.entries)
    older true =
        rw
          (
            drop-append (drop r.cursor r.entries) (take r.cursor r.entries) 1
                (omega (arith, length-drop r.cursor r.entries, v.sized, v.inside)),
            drop-drop r.entries r.cursor,
          )
          refl
    older false = refl

cap-push : (e : DebugEntry) (r : DebugRing) → (push e r).cap ≡ r.cap
unfolding push
cap-push e r = refl

-- One more request moves the window.
push-Holds :
    (e : DebugEntry) (r : DebugRing) (seen : List DebugEntry)
    → Holds r seen
    → Holds (push e r) (seen ++ e ∷ [])
push-Holds e r seen h = record {
  valid = push-IsValid e r h.valid;
  window =
      entries_of-push_step e r h.valid
      ∙ moved h.filled
      ∙ ap (λ n. last n (seen ++ e ∷ [])) (sym (cap-push e r));
  filled = ground (
    arith,
    push-cases r h.valid,
    push_inside e r,
    push_at_end e r,
    length-append seen (e ∷ []),
    h.filled,
  );
}
  where
    moved :
        (r.full ≡ true) × (r.cap ≤ length seen) ⊎ (r.full ≡ false) × (r.cursor ≡ length seen)
        → (if r.full then drop 1 (entries_of r) else entries_of r) ++ e ∷ []
          ≡ last r.cap (seen ++ e ∷ [])
    moved (inl (b, k)) =
        rw (h.window, b) (sym (last-snoc r.cap seen e (omega (arith, h.valid.inside)) k))
    moved (inr (b, k)) =
        rw (h.window, b, last_whole r.cap seen (omega (arith, h.valid.inside)))
          (sym (
            last_whole r.cap (seen ++ e ∷ [])
              (omega (arith, h.valid.inside, length-append seen (e ∷ [])))))

push_all-Holds :
    (es : List DebugEntry) (r : DebugRing) (seen : List DebugEntry)
    → Holds r seen
    → Holds (push_all es r) (seen ++ es)
unfolding push_all
push_all-Holds [] r seen h = rw append-nil h
push_all-Holds (e ∷ es) r seen h =
    subst (λ l. Holds (push_all es (push e r)) l) (append_assoc seen (e ∷ []) es)
      (push_all-Holds es (push e r) (seen ++ e ∷ []) (push-Holds e r seen h))

cap-push_all : (es : List DebugEntry) (r : DebugRing) → (push_all es r).cap ≡ r.cap
unfolding push_all
cap-push_all [] r = refl
cap-push_all (e ∷ es) r = cap-push_all es (push e r) ∙ cap-push e r

cap-new_ring : (n : ℤ) → (new_ring n).cap ≡ capacity n
unfolding new_ring
cap-new_ring n = refl

-- Entries lists, oldest first, the last of the entries pushed: as many as the capacity that
-- NewDebugRing was given, 50 where it was given none, or all of them while they are fewer.
pub entries_of-push_all :
    (n : ℤ) (es : List DebugEntry) → entries_of (push_all es (new_ring n)) ≡ last (capacity n) es
entries_of-push_all n es =
    (push_all-Holds es (new_ring n) [] (new_ring-Holds n)).window
    ∙ ap (λ k. last k es) (cap-push_all es (new_ring n) ∙ cap-new_ring n)
