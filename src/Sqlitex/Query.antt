-- ===== src/Sqlitex/Query.antt =====
-- sqlitex/query.go and exec.go: Each, Query, QueryOne, Placeholders, CheckAffected. What a query
-- gives is its error, or the rows that Next yields and what Err answers after them. A callback acts
-- on a state `S`.
pub mod Laws
use neokit.Base.{
  List, Option, ℕ, ℤ, ◌⊎◌, [], inl, none, pos, some, ◌∷◌, inr, suc, ◌++◌, negsuc, zero,
}
use neokit.Text.{Text, codes}

pub record Rows (R E : Type 0) : Type 0 where
  pub yielded : List R
  pub err : Option E

module _ {R E S : Type 0} (fn : R → S → S × Option E) where
  -- The loop of Each, and rows.Err behind it.
  unfoldable pub each_row : Option E → List R → S → S × Option E
  each_row last [] s = (s, last)
  each_row last (r ∷ rs) s =
      let (s', err) = fn r s in
      let rest = each_row last rs s' in elim err [ some e ↦ (s', some e) | none ↦ rest ]

  -- Each
  unfoldable pub each : E ⊎ Rows R E → S → S × Option E
  unfolding each_row
  each (inl e) s = (s, some e)
  each (inr rows) s = each_row rows.err rows.yielded s

module _ {R E T : Type 0} (scan : R → E ⊎ T) where
  -- The callback of Query.
  unfoldable pub collect : R → List T → List T × Option E
  collect r out = elim (scan r) [ inl e ↦ (out, some e) | inr v ↦ (out ++ v ∷ [], none) ]

  -- Query
  unfoldable pub query : E ⊎ Rows R E → E ⊎ List T
  unfolding each collect
  query got = let (out, err) = each collect got [] in elim err [ some e ↦ inl e | none ↦ inr out ]

  -- The callback of QueryOne.
  unfoldable pub keep_first : R → Option T → Option T × Option E
  keep_first r (some out) = (some out, none)
  keep_first r none = elim (scan r) [ inl e ↦ (none, some e) | inr v ↦ (some v, none) ]

  -- QueryOne; the inner none is sql.ErrNoRows.
  unfoldable pub query_one : E ⊎ Rows R E → E ⊎ Option T
  unfolding each keep_first
  query_one got =
      let (out, err) = each keep_first got none in elim err [ some e ↦ inl e | none ↦ inr out ]

-- Placeholders
abbrev pub repeated : ℕ → Text → Text
repeated zero s = []
repeated (suc n) s = s ++ repeated n s

unfoldable pub placeholders : ℤ → Text
placeholders (pos zero) = []
placeholders (pos (suc n)) = repeated n (codes "?, ") ++ codes "?"
placeholders (negsuc n) = []

-- CheckAffected, of what RowsAffected answers.
pub data Affected (E : Type 0) : Type 0 where
  some_affected not_found : Affected E
  rows_affected_failed : E → Affected E

unfoldable pub check_affected : {E : Type 0} → E ⊎ ℤ → Affected E
check_affected (inl e) = rows_affected_failed e
check_affected (inr (pos zero)) = not_found
check_affected (inr (pos (suc n))) = some_affected
check_affected (inr (negsuc n)) = some_affected
