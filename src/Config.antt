-- ===== src/Config.antt =====
-- config/config.go: Load. The environment is any state; godotenv.Load, which fills gaps from a file,
-- and env.ParseAs are arguments, and an error is a value of `E`.
use neokit.Base.{List, Option, [], ◌∷◌, none, some, ◌⊎◌, inl, inr}
use neokit.Text.{Text}

-- What godotenv.Load answers of a file.
pub data Filled (E : Type 0) : Type 0 where
  filled absent : Filled E
  unreadable : E → Filled E

pub data LoadError (E : Type 0) : Type 0 where
  load_failed : Text → E → LoadError E
  parse_failed : E → LoadError E

-- One turn of the loop: a file that cannot be read ends it, and an absent one does not.
abbrev pub next :
    {Env E : Type 0}
    → Text
    → Env
    → Env × Option (LoadError E)
    → Filled E
    → Env × Option (LoadError E)
next f env rest filled = rest
next f env rest absent = rest
next f env rest (unreadable e) = (env, some (load_failed f e))

-- Load after the loop.
abbrev pub ending :
    {Env T E : Type 0} → Env → Option (LoadError E) → E ⊎ T → Env × (LoadError E ⊎ T)
ending env (some e) read = (env, inl e)
ending env none (inl e) = (env, inl (parse_failed e))
ending env none (inr cfg) = (env, inr cfg)

module _ {Env T E : Type 0} (fill : Text → Env → Env × Filled E) (parse : Env → E ⊎ T) where
  -- The loop over the files: what is left of the environment, and the error that ends it.
  unfoldable pub fill_gaps : List Text → Env → Env × Option (LoadError E)
  fill_gaps [] env = (env, none)
  fill_gaps (f ∷ fs) env =
      let rest = fill_gaps fs (fill f env).0 in next f (fill f env).0 rest (fill f env).1

  -- Load
  unfoldable pub load : List Text → Env → Env × (LoadError E ⊎ T)
  unfolding fill_gaps
  load files env = let gaps = fill_gaps files env in ending gaps.0 gaps.1 (parse gaps.0)

  -- What filling gaps from any one file keeps of the environment, as a variable that is set already,
  -- Load keeps whatever files are named.
  module _ (P : Env → Type 0) (keeps : (f : Text) (env : Env) → P env → P (fill f env).0) where
    kept_next :
        (f : Text) (env : Env) (rest : Env × Option (LoadError E)) (out : Filled E)
        → P env
        → P rest.0
        → P (next f env rest out).0
    kept_next f env rest filled h k = k
    kept_next f env rest absent h k = k
    kept_next f env rest (unreadable e) h k = h

    fill_gaps_keeps : (fs : List Text) (env : Env) → P env → P (fill_gaps fs env).0
    unfolding fill_gaps
    fill_gaps_keeps [] env h = h
    fill_gaps_keeps (f ∷ fs) env h =
        let k = keeps f env h in
        kept_next f (fill f env).0 (fill_gaps fs (fill f env).0) (fill f env).1 k
          (fill_gaps_keeps fs (fill f env).0 k)

    kept_end :
        (env : Env) (stopped : Option (LoadError E)) (read : E ⊎ T)
        → P env
        → P (ending env stopped read).0
    kept_end env (some e) read h = h
    kept_end env none (inl e) h = h
    kept_end env none (inr cfg) h = h

    pub load_keeps : (fs : List Text) (env : Env) → P env → P (load fs env).0
    unfolding load
    load_keeps fs env h =
        let r = fill_gaps fs env in kept_end r.0 r.1 (parse r.0) (fill_gaps_keeps fs env h)
