-- ===== src/Safe/Group.antt =====
-- Group (safe/supervise.go): the counter of live goroutines, and the channel that wakes those who
-- wait for it to reach zero. The counter is atomic and no lock guards it: enter and leave run while
-- wake or Wait hold mu, between their load of the counter and what they do about it. A step is one
-- operation on the counter, or what a holder of mu does from one of them to the next; any number of
-- goroutines take steps in any order. Channels are numbered.
pub mod Drain
use neokit.Base.{
  ℕ, List, ◌-◌, ◌<◌, Option, if◌then◌else◌, none, suc, ◌==◌, [], some, ◌≡◌, ◌++◌, ◌∷◌,
}

-- Who holds mu: nobody, a wake that has seen the counter at zero and has yet to close the channel,
-- or a Wait that has seen it above zero and has yet to take the channel.
pub data Holder : Type 0 where
  unlocked closing arming : Holder

pub record Group : Type 0 where
  pub n : ℕ  -- live goroutines
  pub mu : Holder
  pub idle : Option ℕ  -- the channel that the next wake closes
  pub closed : List ℕ  -- the channels that have been closed
  pub next : ℕ  -- the first channel not made
  pub wakers : ℕ  -- calls of leave that have seen zero and have not returned from wake
  pub waiting : List ℕ  -- the channels that calls of Wait select on

unfoldable pub zero_group : Group
zero_group = record {
  n = 0;
  mu = unlocked;
  idle = none;
  closed = [];
  next = 0;
  wakers = 0;
  waiting = [];
}

unfoldable pub enter : Group → Group
enter g = record g { n = suc g.n }

-- The decrement of leave, which goes on to wake when it reaches zero.
unfoldable pub leave : Group → Group
leave g = let n = g.n - 1 in record g { n = n; wakers = if n == 0 then suc g.wakers else g.wakers }

-- wake up to its load of the counter: it goes on to close, or returns.
unfoldable pub wake : Group → Group
wake g =
    let g' = record g { wakers = g.wakers - 1 } in
    elim g.idle [ none ↦ g' | some c ↦ if g.n == 0 then record g { mu = closing } else g' ]

-- The rest of wake.
unfoldable pub close_idle : Group → Group
close_idle g = elim g.idle [
  | none ↦ record g { mu = unlocked; wakers = g.wakers - 1 }
  | some c ↦ record g { mu = unlocked; wakers = g.wakers - 1; closed = c ∷ g.closed; idle = none }
]

-- Wait up to its load of the counter; a call that finds the group empty returns nil.
unfoldable pub wait : Group → Group
wait g = if g.n == 0 then g else record g { mu = arming }

-- Wait from there up to its select.
unfoldable pub arm : Group → Group
arm g = elim g.idle [
  | some c ↦ record g { mu = unlocked; waiting = c ∷ g.waiting }
  | none ↦ record g {
    mu = unlocked;
    idle = some g.next;
    next = suc g.next;
    waiting = g.next ∷ g.waiting;
  }
]

-- A call of Wait that gives up or is woken selects no more.
pub data Step (g : Group) : Group → Type 0 where
  enters : Step g (enter g)
  leaves : 0 < g.n → Step g (leave g)
  wakes : 0 < g.wakers → g.mu ≡ unlocked → Step g (wake g)
  closes : g.mu ≡ closing → Step g (close_idle g)
  waits : g.mu ≡ unlocked → Step g (wait g)
  arms : g.mu ≡ arming → Step g (arm g)
  returns :
      (cs ds : List ℕ) (c : ℕ) → g.waiting ≡ cs ++ c ∷ ds → Step g (record g { waiting = cs ++ ds })

pub data Reach : Group → Type 0 where
  start : Reach zero_group
  after : {g h : Group} → Reach g → Step g h → Reach h
