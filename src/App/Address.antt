-- ===== src/App/Address.antt =====
-- listenAddress (app/run.go). net.JoinHostPort is written out as documented; the port comes in as
-- its decimal digits.
use neokit.Base.{
  ℕ, ◌++◌, Bool, Option, if◌then◌else◌, ◌∷◌, ◌==◌, [], any, none, some, ◌≡◌, arith, refl,
}
use neokit.Text.{Text, trim_space, codes}

pub data Network : Type 0 where
  tcp tcp4 : Network

abbrev pub member : ℕ → Text → Bool
member c s = any (λ d. d == c) s

-- net.JoinHostPort brackets a host with a colon in it.
unfoldable pub join_host_port : Text → Text → Text
join_host_port host port =
    if member b':' host then (b'[' ∷ host ++ codes "]:") ++ port else (host ++ codes ":") ++ port

-- The text without its last character, if that is the one given.
unfoldable pub strip_last : ℕ → Text → Option Text
strip_last c [] = none
strip_last c (d ∷ []) = if d == c then some [] else none
strip_last c (d ∷ e ∷ s) = elim (strip_last c (e ∷ s)) [ some t ↦ some (d ∷ t) | none ↦ none ]

-- `[host]` without its brackets; any other text as it is.
unfoldable pub unbracket : Text → Text
unfolding strip_last
unbracket [] = []
unbracket (c ∷ s) =
    if c == b'[' then elim (strip_last b']' s) [ some host ↦ host | none ↦ c ∷ s ] else c ∷ s

unfoldable pub listen_address : Text → Text → Text × Network
unfolding join_host_port unbracket
listen_address bind_addr port =
    let host = unbracket (trim_space bind_addr) in
    (join_host_port host port, elim host [ [] ↦ tcp4 | c ∷ rest ↦ tcp ])

strip_last-append : (c : ℕ) (s : Text) → strip_last c (s ++ c ∷ []) ≡ some s
unfolding strip_last
strip_last-append c [] = ground arith
strip_last-append c (d ∷ []) = ground arith
strip_last-append c (d ∷ e ∷ s) = ground (arith, strip_last-append c (e ∷ s))

-- A host in brackets is listened on as the same host without them, whatever space is around
-- either; only a host that begins with a bracket of its own is excepted.
pub listen_address_brackets :
    (bracketed bare host port : Text)
    → trim_space bracketed ≡ b'[' ∷ host ++ b']' ∷ []
    → trim_space bare ≡ host
    → unbracket host ≡ host
    → listen_address bracketed port ≡ listen_address bare port
unfolding listen_address unbracket
listen_address_brackets bracketed bare host port e f g =
    rw (e, f, strip_last-append b']' host) (rw g refl)
