-- ===== src/Sqlitex/Query/Laws.antt =====
-- The query helpers against a scan of the rows one by one.
use mathlib.Core.List.{append-nil, append_assoc}
use neokit.Base.{
  ◌⊎◌, List, Option, inl, inr, some, ◌≡◌, ◌++◌, ap, none, ◌∷◌, [], sym, refl, ◌∙◌, get_elem?, arith,
  ℕ, suc, zero, pos,
}
use neokit.Sqlitex.Query.{Rows, each, each_row, collect, query, keep_first, placeholders, query_one}
use neokit.Text.{Text, codes, join}

module _ {R E S : Type 0} (fn : R → S → S × Option E) where
  each_row-next :
      (last : Option E) (r : R) (rs : List R) (s s' : S)
      → fn r s ≡ (s', none)
      → each_row fn last (r ∷ rs) s ≡ each_row fn last rs s'
  unfolding each_row
  each_row-next last r rs s s' h =
      ap (λ o. elim o.1 [ some e ↦ (o.0, some e) | none ↦ each_row fn last rs o.0 ]) h

module _ {R E T : Type 0} (scan : R → E ⊎ T) where
  -- The values of the rows, or the first error of a scan, and else the rows' own.
  unfoldable pub scan_all : Option E → List R → E ⊎ List T
  scan_all none [] = inr []
  scan_all (some e) [] = inl e
  scan_all last (r ∷ rs) =
      let rest = scan_all last rs in
      elim (scan r) [ inl e ↦ inl e | inr v ↦ elim rest [ inl e ↦ inl e | inr vs ↦ inr (v ∷ vs) ] ]

  collected : List T → E ⊎ List T → E ⊎ List T
  collected out (inl e) = inl e
  collected out (inr vs) = inr (out ++ vs)

  query_from : Option E → List R → List T → E ⊎ List T
  unfolding each_row collect
  query_from last rs out =
      let (out', err) = each_row (collect scan) last rs out in
      elim err [ some e ↦ inl e | none ↦ inr out' ]

  query_from-scan_all :
      (last : Option E) (rs : List R) (out : List T)
      → query_from last rs out ≡ collected out (scan_all last rs)
  unfolding query_from each_row collect scan_all collected
  query_from-scan_all none [] out = ap inr (sym (append-nil out))
  query_from-scan_all (some e) [] out = refl
  query_from-scan_all last (r ∷ rs) out =
      go (scan r) (λ v. query_from-scan_all last rs (out ++ v ∷ [])) refl
    where
      go :
          (x : E ⊎ T)
          → ((v : T)
              → query_from last rs (out ++ v ∷ []) ≡ collected (out ++ v ∷ []) (scan_all last rs))
          → scan r ≡ x
          → query_from last (r ∷ rs) out ≡ collected out (scan_all last (r ∷ rs))
      go (inl e) f h = rw (query_from, each_row, collect, scan_all, h) refl
      go (inr v) f h =
          ap (λ o. elim o.1 as (λ x. E ⊎ List T) [ some e ↦ inl e | none ↦ inr o.0 ])
            (each_row-next (collect scan) last r rs out (out ++ v ∷ []) (rw (collect, h) refl))
          ∙ f v
          ∙ nested (scan_all last rs)
          ∙ rw (scan_all, h) refl
        where
          nested :
              (x : E ⊎ List T)
              → collected (out ++ v ∷ []) x
                ≡ collected out (elim x [ inl e ↦ inl e | inr vs ↦ inr (v ∷ vs) ])
          nested (inl e) = refl
          nested (inr vs) = ap inr (append_assoc out (v ∷ []) vs)

  -- Query answers the value of every row in the rows' order; the first error of a scan ends it, and
  -- else the error that the rows report after the last; an error of the query itself comes first.
  pub query-scan_all :
      (got : E ⊎ Rows R E)
      → query scan got ≡ elim got [ inl e ↦ inl e | inr rows ↦ scan_all rows.err rows.yielded ]
  unfolding query each query_from collected
  query-scan_all (inl e) = refl
  query-scan_all (inr rows) =
      query_from-scan_all rows.err rows.yielded [] ∙ same (scan_all rows.err rows.yielded)
    where
      same : (x : E ⊎ List T) → collected [] x ≡ x
      same (inl e) = refl
      same (inr vs) = refl

  -- The rows behind the first are read, never scanned.
  each_row-found :
      (last : Option E) (rs : List R) (v : T)
      → each_row (keep_first scan) last rs (some v) ≡ (some v, last)
  unfolding each_row keep_first
  each_row-found last [] v = refl
  each_row-found last (r ∷ rs) v = each_row-found last rs v

  scan_all-failed : (e : E) (rs : List R) → (f : E) × (scan_all (some e) rs ≡ inl f)
  unfolding scan_all
  scan_all-failed e [] = (e, refl)
  scan_all-failed e (r ∷ rs) = go (scan r) (scan_all-failed e rs) refl
    where
      go :
          (x : E ⊎ T)
          → ((f : E) × (scan_all (some e) rs ≡ inl f))
          → scan r ≡ x
          → (f : E) × (scan_all (some e) (r ∷ rs) ≡ inl f)
      go (inl e') k h = (e', rw (scan_all, h) refl)
      go (inr v) (f, k) h = (f, rw (scan_all, h, k) refl)

  first_of : Option E → List R → E ⊎ Option T
  first_of last rs =
      let (out, err) = each_row (keep_first scan) last rs none in
      elim err [ some e ↦ inl e | none ↦ inr out ]

  head_of : E ⊎ List T → Option T
  head_of (inl e) = none
  head_of (inr vs) = get_elem? vs 0

  first_of-scan_all :
      (last : Option E) (rs : List R) (vs : List T)
      → scan_all last rs ≡ inr vs
      → first_of last rs ≡ inr (get_elem? vs 0)
  unfolding first_of each_row keep_first scan_all head_of
  first_of-scan_all (some e) rs vs h = let (f, k) = scan_all-failed e rs in cc
  first_of-scan_all none [] vs h = ap (λ x. inr (head_of x)) h
  first_of-scan_all none (r ∷ rs) vs h = go (scan r) (scan_all none rs) refl refl
    where
      go :
          (x : E ⊎ T) (y : E ⊎ List T)
          → scan r ≡ x
          → scan_all none rs ≡ y
          → first_of none (r ∷ rs) ≡ inr (get_elem? vs 0)
      go (inl e) y k l = ground (arith, h, k, l)
      go (inr v) (inl e) k l = ground (arith, h, k, l)
      go (inr v) (inr ws) k l = ground (arith, h, k, l, each_row-found none rs v)

  -- Where Query answers the rows' values, QueryOne answers the first of them, and sql.ErrNoRows
  -- where there is none.
  pub query_one-query :
      (got : E ⊎ Rows R E) (vs : List T)
      → query scan got ≡ inr vs
      → query_one scan got ≡ inr (get_elem? vs 0)
  unfolding query_one each first_of
  query_one-query (inl e) vs h = absurd_of (sym (query-scan_all (inl e)) ∙ h)
    where
      absurd_of : inl e ≡ inr vs → query_one scan (inl e) ≡ inr (get_elem? vs 0)
      absurd_of k = cc
  query_one-query (inr rows) vs h =
      first_of-scan_all rows.err rows.yielded vs (sym (query-scan_all (inr rows)) ∙ h)

abbrev copies : ℕ → Text → List Text
copies zero s = []
copies (suc n) s = s ∷ copies n s

-- Placeholders lists as many markers as it is asked for, with a comma between two.
placeholders-join : (n : ℕ) → placeholders (pos n) ≡ join (codes ", ") (copies n (codes "?"))
unfolding placeholders join
placeholders-join zero = refl
placeholders-join (suc zero) = refl
placeholders-join (suc (suc n)) = ap (λ s. codes "?, " ++ s) (placeholders-join (suc n))
