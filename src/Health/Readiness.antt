-- ===== src/Health/Readiness.antt =====
-- What the probes answer, and what a sweep costs (health/health.go, health/handler.go).
use neokit.Base.{
  All, Bool, List, arith, ◌≡◌, ◌&&◌, ◌++◌, All-middle, [], all, false, if◌then◌else◌, map, none,
  true, ◌≤◌, ◌∷◌, String, refl, some, subst, ◌↔◌, All-map, All-replace, sym, ◌≢◌, Bool-cases, ◌∙◌,
  inl, inr, All-append,
}
use neokit.Health.{
  Answer, fine, silent, CheckResult, Check, State, ready, unready, Registry, is_ready, not_ready,
  Result, register, run_bounded, return_late, run_all, verdict, check, failing, log_transition,
  handler,
}

-- Every check was idle and answered without an error.
abbrev pub AllPass : List Check → List Answer → Type 0
AllPass [] answers = Unit
AllPass (c ∷ cs) [] = ⊥
AllPass (c ∷ cs) (a ∷ answers) = ((c.running ≡ false) × (a ≡ fine)) × AllPass cs answers

verdict_lem :
    (results : List CheckResult) (b : Bool) → verdict results b ≡ b && all (λ res. res.ok) results
unfolding verdict
verdict_lem [] b = ground arith
verdict_lem (res ∷ results) b = ground (arith, verdict_lem results b, verdict_lem results false)

passes :
    (cs : List Check) (answers : List Answer)
    → (all (λ res. res.ok) (run_all cs answers).1 ≡ true) ↔ AllPass cs answers
unfolding run_all
passes [] answers = (λ h. tt, λ h. refl)
passes (c ∷ cs) [] = (λ h. ground arith, λ h. absurd h)
passes (c ∷ cs) (a ∷ answers) = (
  λ h. (ground arith, (passes cs answers).0 (ground arith)),
  λ h. ground (arith, (passes cs answers).1 h.1),
)

-- A sweep is ready exactly when every registered check was idle and answered in time, without an
-- error or a panic; with no checks it is ready.
pub check_ready_iff :
    (answers : List Answer) (r : Registry)
    → ((check answers r).1.ready ≡ true) ↔ AllPass r.checks answers
unfolding check
check_ready_iff answers r = (
  λ h. (passes r.checks answers).0 (sym (verdict_lem (run_all r.checks answers).1 true) ∙ h),
  λ h. verdict_lem (run_all r.checks answers).1 true ∙ (passes r.checks answers).1 h,
)

names_lem :
    (cs : List Check) (answers : List Answer)
    → (map (λ res. res.name) (run_all cs answers).1 ≡ map (λ c. c.name) cs)
      × (map (λ c. c.name) (run_all cs answers).0 ≡ map (λ c. c.name) cs)
unfolding run_all
names_lem [] answers = (refl, refl)
names_lem (c ∷ cs) [] = ground (arith, names_lem cs [])
names_lem (c ∷ cs) (a ∷ answers) = ground (arith, names_lem cs answers)

-- The result of a sweep has an entry for every registered check, in the order of registration
-- and under its name, whatever the checks do.
pub check-names :
    (answers : List Answer) (r : Registry)
    → map (λ res. res.name) (check answers r).1.checks ≡ map (λ c. c.name) r.checks
unfolding check
check-names answers r = (names_lem r.checks answers).0

-- The flag says whether a call of the check has not returned, and there is at most one.
abbrev OneCall : Check → Type 0
OneCall c = c.in_flight ≡ (if c.running then 1 else 0)

run_bounded-OneCall : (c : Check) (a : Answer) → OneCall c → OneCall (run_bounded c a).0
unfolding run_bounded
run_bounded-OneCall c a h = ground arith

run_all-OneCall :
    (cs : List Check) (answers : List Answer) → All OneCall cs → All OneCall (run_all cs answers).0
unfolding run_all
run_all-OneCall [] answers h = tt
run_all-OneCall (c ∷ cs) [] h = (run_bounded-OneCall c silent h.0, run_all-OneCall cs [] h.1)
run_all-OneCall (c ∷ cs) (a ∷ answers) h =
    (run_bounded-OneCall c a h.0, run_all-OneCall cs answers h.1)

-- What happens to a registry: a sweep, the late return of a check that runs, a registration.
pub data Step (r : Registry) : Registry → Type 0 where
  sweeps : (answers : List Answer) → Step r (check answers r).0
  returns :
      (cs ds : List Check) (c : Check)
      → r.checks ≡ cs ++ c ∷ ds
      → c.running ≡ true
      → Step r (record r { checks = cs ++ return_late c ∷ ds })
  registers : (name : String) (is_nil : Bool) → Step r (register name is_nil r)

pub data Reach : Registry → Type 0 where
  start : (r : Registry) → r.checks ≡ [] → Reach r
  after : {r s : Registry} → Reach r → Step r s → Reach s

Step-OneCall : {r s : Registry} → Step r s → All OneCall r.checks → All OneCall s.checks
unfolding check register return_late
Step-OneCall {r} (sweeps answers) h = run_all-OneCall r.checks answers h
Step-OneCall (returns cs ds c e k) h =
    let was = All-middle OneCall cs ds c (subst (All OneCall) e h) in
    All-replace OneCall cs ds c (return_late c) (ground arith) (subst (All OneCall) e h)
Step-OneCall {r} (registers name is_nil) h = elim (Bool-cases is_nil) [
  | inl t ↦ rw t h
  | inr f ↦ rw f (All-append OneCall r.checks _ h (refl, tt))
]

-- In every history of sweeps, late returns and registrations, a check has at most one call that
-- has not returned: a dependency that never answers costs one goroutine, however often it is
-- polled, and its flag is set exactly while there is one.
pub one_call :
    {r : Registry}
    → Reach r
    → All (λ c. (c.in_flight ≤ 1) × ((c.running ≡ true) ↔ (c.in_flight ≡ 1))) r.checks
one_call r =
    All-map OneCall _ (λ c h. (ground arith, (λ e. ground arith, λ e. ground arith))) _ (calls r)
  where
    calls : {s : Registry} → Reach s → All OneCall s.checks
    calls (start s e) = rw e tt
    calls (after t st) = Step-OneCall st (calls t)

abbrev pub state_of : Bool → State
state_of true = ready
state_of false = unready

-- A sweep is logged exactly when its readiness is not the one last observed, so that the first
-- one always is; the line of one that is not ready names the checks that failed, with their
-- errors.
pub log_transition_lem :
    (res : Result) (r : Registry)
    → ((log_transition res r).0.state ≡ state_of res.ready)
      × (((log_transition res r).1 ≡ none) ↔ (r.state ≡ state_of res.ready))
      × (r.state ≢ state_of res.ready
          → (log_transition res r).1
            ≡ some (if res.ready then is_ready else not_ready (failing res.checks)))
unfolding log_transition
log_transition_lem res r = (ground arith, (λ h. ground arith, λ h. ground arith), λ h. ground arith)

-- The public probe and the detailed one run the same sweep: they leave the same registry, write
-- the same line, and answer the same verdict with the same status, 200 exactly when it is ready
-- and 503 otherwise; the public one carries no check's result.
pub handler_lem :
    (answers : List Answer) (r : Registry)
    → let (r', public, line) = handler false answers r in
      (handler true answers r
        ≡ (r', record public { detail = some (check answers r).1.checks }, line))
      × (public.detail ≡ none)
      × (public.status ≡ (if (check answers r).1.ready then 200 else 503))
unfolding handler
handler_lem answers r = (refl, refl, refl)
