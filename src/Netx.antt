-- ===== src/Netx.antt =====
-- netx/addrinuse.go: the hint for an address that is in use, and the process that lsof names. Whether
-- an error is EADDRINUSE and what lsof prints are arguments.
pub mod Lsof
use neokit.Base.{
  Bool, List, Option, [], ℤ, ◌++◌, false, none, pos, some, true, ◌∷◌, if◌then◌else◌, suc, ◌==◌,
  negsuc, not, ◌&&◌, zero,
}
use neokit.Text.{Text, codes, split}
use neokit.Strconv.{atoi, itoa}

-- A Lookup's answer: a label, blank where there is none, and a pid.
abbrev pub Holder : Type 0
Holder = Text × ℤ

abbrev pub no_holder : Holder
no_holder = ([], pos 0)

-- NoLookup
unfoldable pub no_lookup : ℤ → Holder
no_lookup port = no_holder

-- AddrInUseHint: the message before the wrapped error, or none where the error is returned as it is.
-- The lookup is there or nil.
unfoldable pub addr_in_use_hint : Bool → ℤ → Text → Option (ℤ → Holder) → Option Text
unfolding no_lookup
addr_in_use_hint in_use port env_var lookup =
    let (holder, pid) = (elim lookup as (λ x. Holder) [
      | none ↦ no_lookup port
      | some find ↦ find port
    ]) in
    let message = codes "port " ++ itoa port ++ codes " is already in use" in
    let advice = codes ", or set " ++ env_var ++ codes " to a free port: " in
    if not in_use
    then none
    else some (elim holder [
      | [] ↦ message ++ codes " — stop whatever is listening on it" ++ advice
      | c ∷ name ↦
          message
          ++ codes " by "
          ++ (c ∷ name)
          ++ codes " — stop it with `kill "
          ++ itoa pid
          ++ codes "`"
          ++ advice
    ])

abbrev pub label : Text → ℤ → Text
label name pid = name ++ codes " (pid " ++ itoa pid ++ codes ")"

abbrev pub complete : ℤ → Text → Bool
complete pid [] = false
complete (pos zero) (c ∷ s) = false
complete (pos (suc n)) (c ∷ s) = true
complete (negsuc n) (c ∷ s) = true

-- One line of lsof's output: the pid and the name after it, none for a pid that is no number.
unfoldable pub read_line : Text → ℤ → Text → Option (ℤ × Text)
read_line [] pid name = some (pid, name)
read_line (c ∷ []) pid name = some (pid, name)
read_line (c ∷ d ∷ s) pid name =
    if c == b'p'
    then elim (atoi (d ∷ s)) [ none ↦ none | some n ↦ some (n, name) ]
    else if c == b'c'
    then some (pid, d ∷ s)
    else some (pid, name)

abbrev pub short : Text → Bool
short [] = true
short (c ∷ []) = true
short (c ∷ d ∷ s) = false

-- The loop of LsofLookup.
unfoldable pub read_lines : List Text → ℤ → Text → Holder
unfolding read_line
read_lines [] pid name = no_holder
read_lines (l ∷ ls) pid name = elim (read_line l pid name) [
  | none ↦ no_holder
  | some (pid', name') ↦
      let rest = read_lines ls pid' name' in
      if not (short l) && complete pid' name' then (label name' pid', pid') else rest
]

-- LsofLookup, of what lsof prints; none is a missing lsof or its failure.
unfoldable pub lsof_lookup : Option Text → Holder
unfolding read_lines
lsof_lookup none = no_holder
lsof_lookup (some out) = read_lines (split 10 out) (pos 0) []
