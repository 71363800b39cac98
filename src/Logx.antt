-- ===== src/Logx.antt =====
-- logx/: what New chooses for a logger, and what ContextHandler adds to a record. The parsing of a
-- level is slog's; whether stderr is a terminal is an argument.
use neokit.Base.{
  ℤ, pos, Bool, List, Option, none, some, not, true, false, [], ◌∷◌, ◌++◌, if◌then◌else◌, ◌||◌, ◌≡◌,
  ◌⊎◌, Bool-cases, inl, inr, refl,
}
use neokit.Text.{Text, text_eq, codes}
use neokit.Oidcauth.{blank}

pub record Options : Type 0 where
  pub app : Text
  pub version : Text
  pub level : Text
  pub format : Text

pub data Handler : Type 0 where
  json_handler : Handler
  console_handler : Bool → Handler  -- NoColor

-- A logger with the attributes of With, and what New logs through it.
pub record Logger : Type 0 where
  pub handler : Handler
  pub level : ℤ
  pub attrs : List (Text × Text)
  pub level_warned : Bool
  pub format : Text

abbrev pub level_info : ℤ
level_info = pos 0

abbrev pub json : Text
json = codes "json"

-- The format of New, with "auto" resolved.
unfoldable pub resolved : Bool → Text → Text
unfolding text_eq
resolved is_tty format =
    if blank format || text_eq format (codes "auto")
    then if is_tty then codes "text" else json
    else format

abbrev parsed : Option ℤ → ℤ
parsed none = level_info
parsed (some l) = l

abbrev failed : Option ℤ → Bool
failed none = true
failed (some l) = false

-- New
unfoldable pub new : (Text → Option ℤ) → Bool → Options → Logger
unfolding resolved
new parse_level is_tty o =
    let format = resolved is_tty o.format in
    let level = if blank o.level then some level_info else parse_level o.level in
    record {
      handler = if text_eq format json then json_handler else console_handler (not is_tty);
      level = parsed level;
      attrs = (codes "app", o.app) ∷ (codes "version", o.version) ∷ [];
      level_warned = failed level;
      format = format;
    }

-- ContextHandler.Handle: the attributes that reach the wrapped handler, of the request's id, which
-- is empty where the context has none, and the trace and span of a valid span context.
unfoldable pub handle : Text → Option (Text × Text) → List (Text × Text) → List (Text × Text)
handle id span attrs =
    let stamped = if blank id then attrs else attrs ++ (codes "requestId", id) ∷ [] in
    elim span [
      | none ↦ stamped
      | some (trace, s) ↦ stamped ++ (codes "trace_id", trace) ∷ (codes "span_id", s) ∷ []
    ]

-- A console writes ANSI codes only where stderr is a terminal, and where it is none, an "auto" or
-- unset format is JSON.
pub new_redirected :
    (parse_level : Text → Option ℤ) (o : Options)
    → ((new parse_level false o).handler ≡ json_handler)
      ⊎ ((new parse_level false o).handler ≡ console_handler true) × (blank o.format ≡ false)
unfolding new resolved
new_redirected parse_level o = elim (Bool-cases (blank o.format)) [
  | inl t ↦ inl (rw (t) refl)
  | inr f ↦
      elim (text_eq (resolved false o.format) json)
        as (λ b.
          ((if b then json_handler else console_handler true) ≡ json_handler)
          ⊎ ((if b then json_handler else console_handler true) ≡ console_handler true)
            × (blank o.format ≡ false)) [ true ↦ inl refl | false ↦ inr (refl, f) ]
]
