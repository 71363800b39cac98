-- ===== src/Sqlitex/Open.antt =====
-- sqlitex/open.go: Open and dsn, as the calls that Open makes and what each answers. `dir` is
-- filepath.Dir, the caller's migrate is there or nil, and errors are values of `E`.
use neokit.Base.{
  Bool, List, Option, ℕ, if◌then◌else◌, none, not, some, true, ◌∷◌, ◌≡◌, ◌++◌, [], any, false, inr,
  is_some, ◌&&◌, inl, pos, ◌⊎◌, ◌*◌, refl, arith,
}
use neokit.Text.{Text, trim, is_space, text_eq, codes, join}
use neokit.Clock.{Duration, second}

pub data Call : Type 0 where
  mkdir_all open_dsn : Text → Call
  ping run_migrate close : Call
  set_max_open_conns set_max_idle_conns : ℕ → Call
  set_conn_max_idle_time : Duration → Call

pub record Answers (E : Type 0) : Type 0 where
  pub made : Option E
  pub opened : Option E
  pub pinged : Option E
  pub migrated : Option (Option E)

pub data OpenError (E : Type 0) : Type 0 where
  path_empty : OpenError E
  mkdir_failed open_failed ping_failed migrate_failed : E → OpenError E

abbrev pub memory_path : Text
memory_path = codes ":memory:"

abbrev pub pragmas : List Text
pragmas =
    codes "_pragma=busy_timeout(5000)"
    ∷ codes "_pragma=foreign_keys(1)"
    ∷ codes "_pragma=synchronous(NORMAL)"
    ∷ codes "_pragma=cache_size(-8000)"
    ∷ codes "_pragma=temp_store(memory)"
    ∷ []

-- dsn
unfoldable pub dsn : Text → Bool → Text
dsn path memory =
    if memory
    then codes "file::memory:?" ++ join (codes "&") pragmas
    else codes "file:"
      ++ path
      ++ codes "?"
      ++ join (codes "&") (pragmas ++ codes "_pragma=journal_mode(WAL)" ∷ [])

abbrev pub pool_calls : Bool → List Call
pool_calls memory =
    if memory
    then set_max_open_conns 1 ∷ []
    else set_max_open_conns 4
      ∷ set_max_idle_conns 2
      ∷ set_conn_max_idle_time (pos (5 * 60 * second))
      ∷ []

module _ {E : Type 0} where
  -- The part of Open behind the directory.
  unfoldable pub open_handle : Text → Bool → Answers E → List Call × Option (OpenError E)
  open_handle path memory a = elim a.opened [
    | some e ↦ (open_dsn (dsn path memory) ∷ [], some (open_failed e))
    | none ↦ elim a.pinged [
      | some e ↦ (open_dsn (dsn path memory) ∷ ping ∷ close ∷ [], some (ping_failed e))
      | none ↦
          let set_up = open_dsn (dsn path memory) ∷ ping ∷ pool_calls memory in
          elim a.migrated [
            | none ↦ (set_up, none)
            | some none ↦ (set_up ++ run_migrate ∷ [], none)
            | some (some e) ↦ (set_up ++ run_migrate ∷ close ∷ [], some (migrate_failed e))
          ]
    ]
  ]

  -- Open; without an error the caller has the handle.
  unfoldable pub open_path : (Text → Text) → Text → Answers E → List Call × Option (OpenError E)
  unfolding open_handle
  open_path dir path a =
      let memory = text_eq path memory_path in
      let (calls, err) = open_handle path memory a in
      if text_eq (trim is_space path) []
      then ([], some path_empty)
      else if memory
      then (calls, err)
      else elim a.made [
        | some e ↦ (mkdir_all (dir path) ∷ [], some (mkdir_failed e))
        | none ↦ (mkdir_all (dir path) ∷ calls, err)
      ]

abbrev pub closes : Call → Bool
closes close = true
closes _ = false

abbrev pub opens : Call → Bool
opens (open_dsn s) = true
opens _ = false

-- The limit on connections that is set before the migration runs.
abbrev pub limit : List Call → Option ℕ
limit [] = none
limit (set_max_open_conns n ∷ cs) = some n
limit (run_migrate ∷ cs) = none
limit (c ∷ cs) = limit cs

module _ {E : Type 0} where
  -- A handle is there where sql.Open was called and answered without an error.
  abbrev pub handle : Answers E → List Call → Bool
  handle a calls = not (is_some a.opened) && any opens calls

  unfoldable pub Kept : Bool → Answers E → List Call × Option (OpenError E) → Type 0
  Kept memory a (calls, err) =
      (err ≡ none)
        × (handle a calls ≡ true)
        × (any closes calls ≡ false)
        × (limit calls ≡ some (if memory then 1 else 4))
      ⊎ ((e : OpenError E) × (err ≡ some e)
          × ((handle a calls ≡ false) ⊎ (any closes calls ≡ true)))

  open_handle-Kept :
      (path : Text) (memory : Bool) (a : Answers E) → Kept memory a (open_handle path memory a)
  unfolding Kept open_handle
  open_handle-Kept path memory a = go memory a.opened a.pinged a.migrated
    where
      answers : Option E → Option E → Option (Option E) → Answers E
      answers o p m = record a { opened = o; pinged = p; migrated = m }

      go :
          (memory : Bool) (o p : Option E) (m : Option (Option E))
          → Kept memory (answers o p m) (open_handle path memory (answers o p m))
      go memory (some e) p m = inr (open_failed e, refl, inl refl)
      go memory none (some e) m = inr (ping_failed e, refl, inr refl)
      go true none none none = inl (refl, refl, refl, refl)
      go true none none (some none) = inl (refl, refl, refl, refl)
      go true none none (some (some e)) = inr (migrate_failed e, refl, inr refl)
      go false none none none = inl (refl, refl, refl, refl)
      go false none none (some none) = inl (refl, refl, refl, refl)
      go false none none (some (some e)) = inr (migrate_failed e, refl, inr refl)

  after_mkdir :
      (memory : Bool) (d : Text) (a : Answers E) (calls : List Call) (err : Option (OpenError E))
      → Kept memory a (calls, err)
      → Kept memory a (mkdir_all d ∷ calls, err)
  unfolding Kept
  after_mkdir memory d a calls err h = h

  refused :
      (memory : Bool) (a : Answers E) (calls : List Call) (e : OpenError E)
      → any opens calls ≡ false
      → Kept memory a (calls, some e)
  unfolding Kept
  refused memory a calls e h = inr (e, refl, inl (ground (arith, h)))

  -- An Open without an error hands out a handle that is not closed, and set its limit of connections
  -- before the migration, one for a database in memory; an Open with an error leaves no handle open.
  pub open_path-Kept :
      (dir : Text → Text) (path : Text) (a : Answers E)
      → Kept (text_eq path memory_path) a (open_path dir path a)
  unfolding open_path
  open_path-Kept dir path a =
      go (text_eq (trim is_space path) []) (text_eq path memory_path) a.made
        (λ memory. open_handle-Kept path memory a)
    where
      go :
          (blank memory : Bool) (made : Option E)
          → ((memory : Bool) → Kept memory a (open_handle path memory a))
          → Kept memory a (
              let (calls, err) = open_handle path memory a in
              if blank then ([], some path_empty) else if memory then (calls, err) else elim made [
                | some e ↦ (mkdir_all (dir path) ∷ [], some (mkdir_failed e))
                | none ↦ (mkdir_all (dir path) ∷ calls, err)
              ])
      go true memory made f = refused memory a _ path_empty refl
      go false true made f = f true
      go false false (some e) f = refused false a _ (mkdir_failed e) refl
      go false false none f = after_mkdir false (dir path) a _ _ (f false)
