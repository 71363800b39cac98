-- ===== src/Backup/Retention.antt =====
-- What a retention keeps (backup/backup.go).
use neokit.Base.{
  ℕ, suc, ◌≤◌, ◌≡◌, leb, Bool, true, false, not, ◌&&◌, List, [], ◌∷◌, keep, length, drop, arith,
  refl, Bool-cases, inl, inr, zero, All, All-map, ap, subst, sym, ◌≢◌, none, ◌∙◌,
}
use neokit.Text.{Text, text_eq_iff}
use neokit.Backup.{
  Service, File, Answers, is_backup, insert_name, sort_names, names_of, list_backups, doomed, named,
  prune, write_daily, later, text_eq, trim_space, path_of,
}

drop_short : (n : ℕ) (ns : List Text) → length ns ≤ n → drop n ns ≡ []
drop_short zero [] h = refl
drop_short (suc n) [] h = refl
drop_short zero (m ∷ ns) h = absurd (omega arith)
drop_short (suc n) (m ∷ ns) h = drop_short n ns (omega arith)

count-insert :
    (p : Text → Bool) (n : Text) (ns : List Text)
    → length (keep p (insert_name n ns)) ≡ length (keep p (n ∷ ns))
unfolding insert_name
count-insert p n [] = refl
count-insert p n (m ∷ ns) = ground (arith, count-insert p n ns)

-- Sorting changes no count.
count-sort :
    (p : Text → Bool) (ns : List Text) → length (keep p (sort_names ns)) ≡ length (keep p ns)
unfolding sort_names
count-sort p [] = refl
count-sort p (n ∷ ns) = ground (arith, count-insert p n (sort_names ns), count-sort p ns)

named_self : (n : Text) (ns : List Text) → named (n ∷ ns) n ≡ true
named_self n ns = ground (arith, text_eq_iff n n)

keep_nothing :
    (q : Text → Bool) (ns : List Text)
    → ((n : Text) → named ns n ≡ true → q n ≡ false)
    → length (keep q ns) ≡ 0
keep_nothing q [] h = refl
keep_nothing q (n ∷ ns) h =
    ground (arith, h n (named_self n ns), keep_nothing q ns (λ m k. h m (ground arith)))

-- Of a list whose tail is removed at most its head is left.
count-drop :
    (r : ℕ) (q : Text → Bool) (ns : List Text)
    → ((n : Text) → named (drop r ns) n ≡ true → q n ≡ false)
    → length (keep q ns) ≤ r
count-drop zero q ns h = ground (arith, keep_nothing q ns h)
count-drop (suc r) q [] h = omega arith
count-drop (suc r) q (n ∷ ns) h = ground (arith, count-drop r q ns h)

count_names :
    (p : File → Bool) (q : Text → Bool) (files : List File)
    → length (keep p (keep (λ f. q f.name) files)) ≡ length (keep q (names_of (keep p files)))
count_names p q [] = refl
count_names p q (f ∷ files) = ground (arith, count_names p q files)

doomed_rest :
    (s : Service) (files : List File) → doomed s files ≡ drop s.retention (list_backups s files)
unfolding doomed
doomed_rest s files = elim (Bool-cases (leb (length (list_backups s files)) s.retention)) [
  | inl e ↦ ground (arith, e, drop_short s.retention (list_backups s files))
  | inr e ↦ ground (arith, e)
]

prune_bounded :
    (os : Answers) (s : Service) (files : List File)
    → os.readable ≡ true
    → ((n : Text) → os.removable n ≡ true)
    → length (keep (is_backup s) (prune os s files)) ≤ s.retention
unfolding prune list_backups
prune_bounded os s files r h =
    let q : Text → Bool = λ n. not (named (doomed s files) n && os.removable n) in
    let names = names_of (keep (is_backup s) files) in
    ground (
      arith,
      count_names (is_backup s) q files,
      count-sort q names,
      count-drop s.retention q (sort_names names) (λ n k. ground (arith, h n, doomed_rest s files)),
    )

-- With a directory set that can be read and whose files can be removed, a run of the day that
-- succeeds leaves no more backups than the retention.
pub write_daily_bounded :
    (os : Answers) (s : Service) (day : Text) (files : List File)
    → os.readable ≡ true
    → ((n : Text) → os.removable n ≡ true)
    → trim_space s.dir ≢ []
    → (write_daily os s day files).1 ≡ none
    → length (keep (is_backup s) (write_daily os s day files).0) ≤ s.retention
unfolding write_daily
write_daily_bounded os s day files r h d ok = ground (
  arith,
  prune_bounded os s files r h,
  prune_bounded os s (record { name = path_of s day; is_dir = false } ∷ files) r h,
  d,
)

later_irrefl : (n m : Text) → later n m ≡ true → later m n ≡ false
unfolding later
later_irrefl [] m h = ground arith
later_irrefl (c ∷ n) [] h = refl
later_irrefl (c ∷ n) (d ∷ m) h = ground (arith, later_irrefl n m)

later_trans : (a b c : Text) → later b a ≡ false → later c b ≡ false → later c a ≡ false
unfolding later
later_trans a b [] h k = ground arith
later_trans a [] (z ∷ c) h k = ground arith
later_trans [] (y ∷ b) (z ∷ c) h k = ground arith
later_trans (x ∷ a) (y ∷ b) (z ∷ c) h k = ground (arith, later_trans a b c)

-- Every name comes no later than those before it.
abbrev Falling : List Text → Type 0
Falling [] = Unit
Falling (n ∷ ns) = All (λ m. later m n ≡ false) ns × Falling ns

All-insert :
    (P : Text → Type 0) (n : Text) (ns : List Text) → P n → All P ns → All P (insert_name n ns)
unfolding insert_name
All-insert P n [] h k = (h, tt)
All-insert P n (m ∷ ns) h k = elim (Bool-cases (later m n)) [
  | inl e ↦ rw e (k.0, All-insert P n ns h k.1)
  | inr e ↦ rw e (h, k)
]

insert_name-Falling : (n : Text) (ns : List Text) → Falling ns → Falling (insert_name n ns)
unfolding insert_name
insert_name-Falling n [] d = (tt, tt)
insert_name-Falling n (m ∷ ns) d = elim (Bool-cases (later m n)) [
  | inl e ↦ rw e (All-insert _ n ns (later_irrefl m n e) d.0, insert_name-Falling n ns d.1)
  | inr e ↦ rw e ((e, All-map _ _ (λ x k. later_trans n m x e k) ns d.0), d)
]

sort_names-Falling : (ns : List Text) → Falling (sort_names ns)
unfolding sort_names
sort_names-Falling [] = tt
sort_names-Falling (n ∷ ns) = insert_name-Falling n (sort_names ns) (sort_names-Falling ns)

All-named : (P : Text → Type 0) (n : Text) (ns : List Text) → All P ns → named ns n ≡ true → P n
All-named P n [] h k = absurd (cc)
All-named P n (m ∷ ns) h k = elim (Bool-cases (text_eq m n)) [
  | inl e ↦ subst P ((text_eq_iff m n).0 e) h.0
  | inr e ↦ All-named P n ns h.1 (ground (arith, e))
]

named-drop : (r : ℕ) (ns : List Text) (d : Text) → named (drop r ns) d ≡ true → named ns d ≡ true
named-drop zero ns d h = h
named-drop (suc r) [] d h = h
named-drop (suc r) (n ∷ ns) d h = ground (arith, named-drop r ns d h)

later-drop :
    (r : ℕ) (ns : List Text) (k d : Text)
    → Falling ns
    → named ns k ≡ true
    → named (drop r ns) k ≡ false
    → named (drop r ns) d ≡ true
    → later d k ≡ false
later-drop zero ns k d f a b c = absurd (cc)
later-drop (suc r) [] k d f a b c = absurd (cc)
later-drop (suc r) (n ∷ ns) k d f a b c = elim (Bool-cases (text_eq n k)) [
  | inl e ↦
      subst (λ x. later d x ≡ false) ((text_eq_iff n k).0 e)
        (All-named (λ m. later m n ≡ false) d ns f.0 (named-drop r ns d c))
  | inr e ↦ later-drop r ns k d f.1 (ground (arith, e)) b c
]

-- What a prune deletes is no later, by name and so by date, than any backup that it keeps.
pub doomed_oldest :
    (s : Service) (files : List File) (kept deleted : Text)
    → named (list_backups s files) kept ≡ true
    → named (doomed s files) kept ≡ false
    → named (doomed s files) deleted ≡ true
    → later deleted kept ≡ false
unfolding list_backups
doomed_oldest s files k d a b c =
    let e = doomed_rest s files in
    later-drop s.retention (list_backups s files) k d
      (sort_names-Falling (names_of (keep (is_backup s) files))) a
      (ap (λ ns. named ns k) (sym e) ∙ b) (ap (λ ns. named ns d) (sym e) ∙ c)
