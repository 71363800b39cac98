-- ===== src/Netx/Lsof.antt =====
-- What LsofLookup reads of lsof's first process.
use neokit.Base.{
  any, ℕ, ◌<◌, Bool, ◌≡◌, ◌==◌, ◌^◌, false, ◌++◌, ◌∷◌, arith, some, [], pos, refl, List, suc, ℤ,
  true, ap, ◌∙◌, zero,
}
use neokit.Text.{Text, split}
use neokit.Text.Trimming.{split-line}
use neokit.Strconv.{atoi, itoa}
use neokit.Strconv.Printing.{atoi-itoa, itoa_free, of_int}
use neokit.Netx.{label, read_line, read_lines, lsof_lookup}

abbrev newline : ℕ → Bool
newline c = c == 10

-- The line of the pid: nothing is complete without a name.
pid_line :
    (t : Text) (v : ℤ) (ls : List Text)
    → atoi t ≡ some v
    → read_lines ((b'p' ∷ t) ∷ ls) (pos 0) [] ≡ read_lines ls v []
unfolding read_lines read_line atoi
pid_line [] v ls h = cc
pid_line (d ∷ s) v ls h = ground (arith, h)

name_line :
    (n c : ℕ) (name : Text) (ls : List Text)
    → read_lines ((b'c' ∷ c ∷ name) ∷ ls) (pos (suc n)) []
      ≡ (label (c ∷ name) (pos (suc n)), pos (suc n))
unfolding read_lines read_line
name_line n c name ls = refl

-- Where lsof prints a process that is not 0 and a name of one line, LsofLookup answers both,
-- whatever comes after them.
pub lsof_lookup-first :
    (pid c : ℕ) (name rest : Text)
    → 0 < pid
    → pid < 2 ^ 63
    → any newline (c ∷ name) ≡ false
    → lsof_lookup (some (b'p' ∷ (itoa (pos pid) ++ 10 ∷ b'c' ∷ c ∷ (name ++ 10 ∷ rest))))
      ≡ (label (c ∷ name) (pos pid), pos pid)
unfolding lsof_lookup
lsof_lookup-first zero c name rest h k e = ground (arith, h)
lsof_lookup-first (suc n) c name rest h k e =
    ap (λ ls. read_lines ls (pos 0) [])
      (split-line 10 (b'p' ∷ itoa (pos (suc n))) _ (itoa_free newline (pos (suc n)) other)
        ∙ ap (λ ls. (b'p' ∷ itoa (pos (suc n))) ∷ ls) (split-line 10 (b'c' ∷ c ∷ name) rest e))
    ∙ pid_line (itoa (pos (suc n))) (pos (suc n)) ((b'c' ∷ c ∷ name) ∷ split 10 rest)
        (atoi-itoa (pos (suc n)) (ground (arith, k)))
    ∙ name_line n c name (split 10 rest)
  where
    other : (d : ℕ) → of_int d ≡ true → newline d ≡ false
    other d h = ground (arith, h)
