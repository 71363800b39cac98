-- ===== src/Safe/Pool.antt =====
-- Pool (safe/pool.go): one-shot tasks on a bounded number of goroutines. A task that was accepted
-- waits for a slot, runs, gives its slot back and is done. A step is one critical section or one
-- channel operation of a task; the state counts the tasks in each phase. The wait group counts
-- the tasks that are not done. `starts` counts, beside the code, the runs of each task.
pub mod Bounds
use neokit.Base.{
  ℕ, List, ◌++◌, Bool, Option, none, true, ◌≡◌, false, if◌then◌else◌, some, ◌∷◌, [], ltb, suc, ◌||◌,
  ◌<◌, is_some, ◌-◌,
}

pub data Phase : Type 0 where
  -- The goroutine is at its select, with the semaphore that it was given or none.
  queued : Bool → Phase
  -- It holds a slot and looks at the context once more.
  holding : Phase
  -- It runs the task; whether it holds a slot.
  running : Bool → Phase
  -- The deferred calls: the slot first, then the wait group.
  leaving : Phase
  done : Phase

pub record Task : Type 0 where
  pub phase : Phase
  pub starts : ℕ

pub record Pool : Type 0 where
  pub limit : ℕ
  pub sem : Option ℕ  -- the slots taken, once the semaphore has been made
  pub closed : Bool
  pub tasks : List Task
  pub count : ℕ  -- the wait group

unfoldable pub zero_pool : ℕ → Pool
zero_pool limit = record { limit = limit; sem = none; closed = false; tasks = []; count = 0 }

-- The semaphore after the first Go; a limit of zero makes none.
abbrev pub make_sem : Pool → Option ℕ
make_sem p = elim p.sem [ some taken ↦ some taken | none ↦ if ltb 0 p.limit then some 0 else none ]

-- Go, up to its return: whether the task was accepted. `cancelled` is ctx.Err() != nil.
unfoldable pub go : Bool → Pool → Pool × Bool
go cancelled p = if p.closed || cancelled then (p, false) else (
  record p {
    sem = make_sem p;
    tasks = p.tasks ++ record { phase = queued (is_some (make_sem p)); starts = 0 } ∷ [];
    count = suc p.count;
  },
  true,
)

-- Wait closes the pool; it returns nil when the count is zero.
unfoldable pub close : Pool → Pool
close p = record p { closed = true }

abbrev pub at : Task → Phase → Task
at t phase = record t { phase = phase }

abbrev pub with_task : Pool → List Task → Task → List Task → Pool
with_task p xs t ys = record p { tasks = xs ++ t ∷ ys }

-- A step of one task, which stands between `xs` and `ys`. The runtime takes a slot only when one
-- is free; whether the context is done is the environment's choice, but for a task that took a
-- slot under a live context and one that found it done.
pub data Move (p : Pool) (xs : List Task) (t : Task) (ys : List Task) : Pool → Type 0 where
  -- No semaphore: the task runs.
  run_free :
      t.phase ≡ queued false
      → Move p xs t ys (with_task p xs (record { phase = running false; starts = suc t.starts }) ys)
  take_slot :
      (taken : ℕ)
      → t.phase ≡ queued true
      → p.sem ≡ some taken
      → taken < p.limit
      → Move p xs t ys (record (with_task p xs (at t holding) ys) { sem = some (suc taken) })
  -- Shut down while queued.
  drop : t.phase ≡ queued true → Move p xs t ys (with_task p xs (at t leaving) ys)
  -- The context ended as the slot was taken: the slot goes back.
  refuse :
      (taken : ℕ)
      → t.phase ≡ holding
      → p.sem ≡ some taken
      → Move p xs t ys (record (with_task p xs (at t leaving) ys) { sem = some (taken - 1) })
  run_held :
      t.phase ≡ holding
      → Move p xs t ys (with_task p xs (record { phase = running true; starts = suc t.starts }) ys)
  -- The task returns or panics; the panic is contained.
  end_free : t.phase ≡ running false → Move p xs t ys (with_task p xs (at t leaving) ys)
  end_held :
      (taken : ℕ)
      → t.phase ≡ running true
      → p.sem ≡ some taken
      → Move p xs t ys (record (with_task p xs (at t leaving) ys) { sem = some (taken - 1) })
  finish :
      t.phase ≡ leaving
      → Move p xs t ys (record (with_task p xs (at t done) ys) { count = p.count - 1 })

pub data Step (p : Pool) : Pool → Type 0 where
  goes : (cancelled : Bool) → Step p (go cancelled p).0
  closes : Step p (close p)
  moves :
      {q : Pool} (xs : List Task) (t : Task) (ys : List Task)
      → p.tasks ≡ xs ++ t ∷ ys
      → Move p xs t ys q
      → Step p q

pub data Reach (limit : ℕ) : Pool → Type 0 where
  start : Reach limit (zero_pool limit)
  after : {p q : Pool} → Reach limit p → Step p q → Reach limit q
