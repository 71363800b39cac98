-- ===== src/Safe.antt =====
-- The safe package: panics contained, goroutines supervised and joined (safe/recover.go,
-- safe/supervise.go, safe/pool.go, safe/all.go). Log lines are not modelled.
pub mod Supervise
pub mod Group
pub mod Pool
pub mod All
use neokit.Base.{Bool, false, true}

-- How a run of a function ends, with what it gives if it returns.
pub data Ending (A : Type 0) : Type 0 where
  returned : A → Ending A
  panicked : Ending A

-- Do and runGuarded: whether the run panicked.
unfoldable pub guarded : {A : Type 0} → Ending A → Bool
guarded (returned a) = false
guarded panicked = true
