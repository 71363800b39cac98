-- ===== src/Health.antt =====
-- health/health.go and health/handler.go: the readiness checks, their sweep, and the two probes.
-- What a check does when it is called is given: it answers within the sweep's deadline, with a
-- result or a panic, or it does not and goes on running. Durations are not modelled but for the
-- deadline; the bodies of the responses are the values that they encode.
pub mod Readiness
use neokit.Base.{
  ℕ, Bool, List, Option, String, false, if◌then◌else◌, length, pos, true, ◌*◌, ◌++◌, ◌-◌, leb_ℤ,
  none, some, suc, ◌∷◌, [], not,
}
use neokit.Clock.{Duration, second}

abbrev pub default_timeout : Duration
default_timeout = pos (3 * second)

-- What the call of a check function gives.
pub data Answer : Type 0 where
  fine : Answer
  failed : String → Answer
  panics : Answer
  -- Nothing before the deadline.
  silent : Answer

pub data Reason : Type 0 where
  none_given : Reason
  check_error : String → Reason
  check_panicked : Reason
  still_running : Reason
  deadline : Reason

pub record CheckResult : Type 0 where
  pub name : String
  pub ok : Bool
  pub err : Reason

-- type check: `in_flight` counts, beside the code, the calls of the function that have not
-- returned.
pub record Check : Type 0 where
  pub name : String
  pub running : Bool
  pub in_flight : ℕ

-- The last readiness observed.
pub data State : Type 0 where
  unknown ready unready : State

pub record Registry : Type 0 where
  pub timeout : Duration
  pub checks : List Check
  pub state : State

-- A log line of a transition: ready, or the names and errors of the checks that fail.
pub data Line : Type 0 where
  is_ready : Line
  not_ready : List (String × Reason) → Line

pub record Result : Type 0 where
  pub ready : Bool
  pub checks : List CheckResult

-- Register ignores a nil function and keeps a duplicate name.
unfoldable pub register : String → Bool → Registry → Registry
register name is_nil r = if is_nil then r else record r {
  checks = r.checks ++ record { name = name; running = false; in_flight = 0 } ∷ [];
}

unfoldable pub len : Registry → ℕ
len r = length r.checks

-- The deadline of a sweep.
unfoldable pub sweep_timeout : Registry → Duration
sweep_timeout r = if leb_ℤ r.timeout (pos 0) then default_timeout else r.timeout

abbrev pub not_answered : String → Reason → CheckResult
not_answered name reason = record { name = name; ok = false; err = reason }

-- run: an error or a panic is a failure.
unfoldable pub run : String → Answer → CheckResult
run name fine = record { name = name; ok = true; err = none_given }
run name (failed e) = record { name = name; ok = false; err = check_error e }
run name panics = record { name = name; ok = false; err = check_panicked }
run name silent = not_answered name deadline

-- runBounded: a check that is still running is not entered; one that does not answer in time
-- stays running.
unfoldable pub run_bounded : Check → Answer → Check × CheckResult
unfolding run
run_bounded c answer =
    let entered = record c { running = true; in_flight = suc c.in_flight } in
    if c.running then (c, not_answered c.name still_running) else elim answer [
      | silent ↦ (entered, run c.name silent)
      | fine ↦ (c, run c.name fine)
      | failed e ↦ (c, run c.name (failed e))
      | panics ↦ (c, run c.name panics)
    ]

-- A call that outlived its sweep returns: the flag is released.
unfoldable pub return_late : Check → Check
return_late c = record c { running = false; in_flight = c.in_flight - 1 }

-- The answers of a sweep's checks, in order; a check past the end of the list answers nothing.
unfoldable pub run_all : List Check → List Answer → List Check × List CheckResult
unfolding run_bounded
run_all [] answers = ([], [])
run_all (c ∷ cs) [] =
    let (c', res) = run_bounded c silent in
    let (cs', rest) = run_all cs [] in (c' ∷ cs', res ∷ rest)
run_all (c ∷ cs) (a ∷ answers) =
    let (c', res) = run_bounded c a in
    let (cs', rest) = run_all cs answers in (c' ∷ cs', res ∷ rest)

-- The loop over the results.
unfoldable pub verdict : List CheckResult → Bool → Bool
verdict [] so_far = so_far
verdict (res ∷ results) so_far = verdict results (if not res.ok then false else so_far)

-- Check
unfoldable pub check : List Answer → Registry → Registry × Result
unfolding run_all verdict
check answers r =
    let (checks, results) = run_all r.checks answers in
    (record r { checks = checks }, record { ready = verdict results true; checks = results })

abbrev pub same_state : State → State → Bool
same_state unknown unknown = true
same_state ready ready = true
same_state unready unready = true
same_state _ _ = false

abbrev pub failing : List CheckResult → List (String × Reason)
failing [] = []
failing (res ∷ results) =
    let rest = failing results in if not res.ok then (res.name, res.err) ∷ rest else rest

-- logTransition: the line that it writes, if any.
unfoldable pub log_transition : Result → Registry → Registry × Option Line
log_transition res r =
    let state = if res.ready then ready else unready in
    let r' = record r { state = state } in
    if same_state r.state state
    then (r', none)
    else (r', some (if res.ready then is_ready else not_ready (failing res.checks)))

pub record Response : Type 0 where
  pub status : ℕ
  pub ready : Bool
  pub detail : Option (List CheckResult)

-- LiveHandler's status.
abbrev pub live_status : ℕ
live_status = 200

-- handler: ReadyHandler and DetailHandler.
unfoldable pub handler : Bool → List Answer → Registry → Registry × Response × Option Line
unfolding check log_transition
handler detailed answers r =
    let (r', res) = check answers r in
    let (r'', line) = log_transition res r' in
    (
      r'',
      record {
        status = if res.ready then 200 else 503;
        ready = res.ready;
        detail = if detailed then some res.checks else none;
      },
      line,
    )
