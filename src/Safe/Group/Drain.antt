-- ===== src/Safe/Group/Drain.antt =====
-- What waiting for a group promises (safe/supervise.go).
use neokit.Base.{
  ℕ, List, All, arith, suc, ◌-◌, if◌then◌else◌, contains, ◌≡◌, some, true, ◌<◌, ◌⊎◌, false,
  string_eq, Distinct, nat_eq, All-remove, Bool-cases, Option-cases, inl, none, ◌∷◌, ◌≢◌, ◌==◌,
  Option, [], inr, refl, subst, All-map, sym, ◌∙◌, ap, length,
}
use neokit.Safe.Group.{
  Holder, unlocked, closing, arming, Group, zero_group, enter, leave, wake, close_idle, wait, arm,
  Step, Reach, enters, leaves, wakes, closes, waits, arms, returns, start, after,
}

-- A waiter's channel is closed, or is the one that the next wake closes.
abbrev Served : Group → ℕ → Type 0
Served g c = (contains g.closed c ≡ true) ⊎ (g.idle ≡ some c)

record Inv (g : Group) : Type 0 where
  served : All (Served g) g.waiting
  -- While a channel is open or about to be made, somebody will look at the counter again.
  pending : (c : ℕ) → g.idle ≡ some c → (0 < g.n) ⊎ (0 < g.wakers)
  armed : g.mu ≡ arming → (0 < g.n) ⊎ (0 < g.wakers)
  held : g.mu ≡ closing → (0 < g.wakers) × ((c : ℕ) × (g.idle ≡ some c))
  fresh : (c : ℕ) → g.idle ≡ some c → (c < g.next) × (contains g.closed c ≡ false)
  made : All (λ c. c < g.next) g.closed
  once : Distinct g.closed

closes_lem :
    (g : Group) (c x : ℕ)
    → g.idle ≡ some c
    → Served g x
    → (contains (c ∷ g.closed) x ≡ true) ⊎ (◌≡◌ {A = Option ℕ} none (some x))
closes_lem g c x e (inl h) = inl (ground arith)
closes_lem g c x e (inr h) = inl (ground arith)

opens_lem :
    (g : Group) (x : ℕ)
    → g.idle ≡ none
    → Served g x
    → (contains g.closed x ≡ true) ⊎ (some g.next ≡ some x)
opens_lem g x e (inl h) = inl h
opens_lem g x e (inr h) = cc

-- A channel that is not made yet has not been closed.
absent : (n : ℕ) (cs : List ℕ) → All (λ c. c < n) cs → contains cs n ≡ false
absent n [] h = refl
absent n (c ∷ cs) h = ground (arith, absent n cs h.1)

zero_group-Inv : Inv zero_group
unfolding zero_group
zero_group-Inv = record {
  served = tt;
  pending = λ c h. ground arith;
  armed = λ h. ground arith;
  held = λ h. ground arith;
  fresh = λ c h. ground arith;
  made = tt;
  once = tt;
}

-- What leaves the channels alone.
same_channels :
    (g : Group) (n wakers : ℕ) (mu : Holder)
    → Inv g
    → ((c : ℕ) → g.idle ≡ some c → (0 < n) ⊎ (0 < wakers))
    → (mu ≡ arming → (0 < n) ⊎ (0 < wakers))
    → (mu ≡ closing → (0 < wakers) × ((c : ℕ) × (g.idle ≡ some c)))
    → Inv (record g { n = n; wakers = wakers; mu = mu })
same_channels g n wakers mu v p a h = record {
  served = v.served;
  pending = p;
  armed = a;
  held = h;
  fresh = v.fresh;
  made = v.made;
  once = v.once;
}

wake-Inv : (g : Group) → 0 < g.wakers → g.mu ≡ unlocked → Inv g → Inv (wake g)
unfolding wake
wake-Inv g p u v = elim (Option-cases g.idle) [
  | inl e ↦
      rw (wake, e)
        (same_channels g g.n (g.wakers - 1) g.mu v (λ c h. ground (arith, e))
          (λ h. ground (arith, u)) (λ h. ground (arith, u)))
  | inr (c, e) ↦ elim (Bool-cases (g.n == 0)) [
    | inl z ↦
        rw (wake, e, z)
          (same_channels g g.n g.wakers closing v v.pending (λ h. ground arith) (λ h. (p, (c, e))))
    | inr z ↦
        rw (wake, e, z)
          (same_channels g g.n (g.wakers - 1) g.mu v (λ d h. ground (arith, z))
            (λ h. ground (arith, u)) (λ h. ground (arith, u)))
  ]
]

close_idle-Inv : (g : Group) → g.mu ≡ closing → Inv g → Inv (close_idle g)
unfolding close_idle
close_idle-Inv g h v =
    let c = (v.held h).1.0 in
    let e : g.idle ≡ some c = (v.held h).1.1 in
    rw (close_idle, e)
      (record {
        served = All-map (Served g) _ (λ x. closes_lem g c x e) g.waiting v.served;
        pending = λ d k. ground arith;
        armed = λ k. ground arith;
        held = λ k. ground arith;
        fresh = λ d k. ground arith;
        made = ((v.fresh c e).0, v.made);
        once = ((v.fresh c e).1, v.once);
      })

wait-Inv : (g : Group) → Inv g → Inv (wait g)
unfolding wait
wait-Inv g v = elim (Bool-cases (g.n == 0)) [
  | inl z ↦ rw (wait, z) v
  | inr z ↦
      rw (wait, z)
        (same_channels g g.n g.wakers arming v v.pending (λ h. ground (arith, z))
          (λ h. ground arith))
]

arm-Inv : (g : Group) → g.mu ≡ arming → Inv g → Inv (arm g)
unfolding arm
arm-Inv g h v = elim (Option-cases g.idle) [
  | inr (c, e) ↦
      rw (arm, e)
        (record {
          served = (inr e, v.served);
          pending = v.pending;
          armed = λ k. ground arith;
          held = λ k. ground arith;
          fresh = v.fresh;
          made = v.made;
          once = v.once;
        })
  | inl e ↦
      rw (arm, e)
        (record {
          served = (inr refl, All-map (Served g) _ (λ x. opens_lem g x e) g.waiting v.served);
          pending = λ d k. v.armed h;
          armed = λ k. ground arith;
          held = λ k. ground arith;
          fresh = λ d k. ground (arith, absent g.next g.closed v.made);
          made = All-map (λ c. c < g.next) _ (λ c k. omega arith) g.closed v.made;
          once = v.once;
        })
]

Step-Inv : {g h : Group} → Step g h → Inv g → Inv h
unfolding enter leave
Step-Inv {g} enters v =
    same_channels g (suc g.n) g.wakers g.mu v (λ c h. ground arith) (λ h. ground arith) v.held
Step-Inv {g} (leaves p) v =
    same_channels g (g.n - 1) (if g.n - 1 == 0 then suc g.wakers else g.wakers) g.mu v
      (λ c h. ground (arith, v.pending c h)) (λ h. ground (arith, v.armed h))
      (λ h. (ground (arith, (v.held h).0), (v.held h).1))
Step-Inv {g} (wakes p u) v = wake-Inv g p u v
Step-Inv {g} (closes e) v = close_idle-Inv g e v
Step-Inv {g} (waits u) v = wait-Inv g v
Step-Inv {g} (arms e) v = arm-Inv g e v
Step-Inv {g} (returns cs ds c e) v = record {
  served = All-remove (Served g) cs ds c (subst (All (Served g)) e v.served);
  pending = v.pending;
  armed = v.armed;
  held = v.held;
  fresh = v.fresh;
  made = v.made;
  once = v.once;
}

Reach-Inv : {g : Group} → Reach g → Inv g
Reach-Inv start = zero_group-Inv
Reach-Inv (after r st) = Step-Inv st (Reach-Inv r)

-- No wake-up is lost: in any interleaving, once no goroutine is live and no call of leave is
-- still to wake, the channel of every call of Wait is closed.
pub drained_wakes :
    {g : Group} → Reach g → g.n ≡ 0 → g.wakers ≡ 0 → All (λ c. contains g.closed c ≡ true) g.waiting
drained_wakes {g} r n w = All-map (Served g) _ (λ c s. settled c s) g.waiting (Reach-Inv r).served
  where
    settled : (c : ℕ) → Served g c → contains g.closed c ≡ true
    settled c (inl h) = h
    settled c (inr e) = ground (arith, (Reach-Inv r).pending c e)

wait_closed : (g : Group) → (wait g).closed ≡ g.closed
unfolding wait
wait_closed g = ground arith

wake_closed : (g : Group) → (wake g).closed ≡ g.closed
unfolding wake
wake_closed g = elim (Option-cases g.idle) [ inl e ↦ rw e refl | inr (c, e) ↦ rw e (ground arith) ]

arm_closed : (g : Group) → (arm g).closed ≡ g.closed
unfolding arm
arm_closed g = ground arith

close_idle_closed : (g : Group) (c : ℕ) → g.idle ≡ some c → (close_idle g).closed ≡ c ∷ g.closed
unfolding close_idle
close_idle_closed g c e = rw e refl

wake_closing : (g : Group) → g.mu ≡ unlocked → (wake g).mu ≡ closing → (g.n ≡ 0) × ((wake g).n ≡ 0)
unfolding wake
wake_closing g u = elim (Option-cases g.idle) [
  | inl e ↦ rw e (λ h. ground (arith, u, h))
  | inr (c, e) ↦ rw e (λ h. ground (arith, u, h))
]

arm_free : (g : Group) → (arm g).mu ≢ closing
unfolding arm
arm_free g h = ground (arith, h)

close_idle_live : (g : Group) → 0 < (close_idle (enter g)).n
unfolding close_idle enter
close_idle_live g = ground arith

not_closing : (g : Group) → (wait g).mu ≡ closing → g.mu ≡ closing
unfolding wait
not_closing g h = ground (arith, h)

longer : (c : ℕ) (cs : List ℕ) → Path (List ℕ) (c ∷ cs) cs → ⊥
longer c cs e = ground (arith, ap length e)

-- A channel is closed once, and only by a wake that holds mu and, when it loaded the counter there,
-- saw it at zero. The counter is not guarded by mu: in every state between that load and the close a
-- goroutine may enter, and the channel is then closed, and the drain reported finished, while it is
-- live.
pub closes_seen_idle :
    {g h : Group}
    → Reach g
    → Step g h
    → Distinct h.closed
      × (h.closed ≢ g.closed
          → (g.mu ≡ closing) × ((c : ℕ) × (g.idle ≡ some c) × (h.closed ≡ c ∷ g.closed)))
      × (g.mu ≢ closing → h.mu ≡ closing → (g.n ≡ 0) × (h.n ≡ 0))
      × (g.mu ≡ closing
          → Step g (enter g)
            × Step (enter g) (close_idle (enter g))
            × (0 < (close_idle (enter g)).n)
            × ((close_idle (enter g)).closed ≢ (enter g).closed))
unfolding enter leave
closes_seen_idle {g} {h} r st = ((Step-Inv st (Reach-Inv r)).once, only st, seen st, late)
  where
    only :
        {h : Group}
        → Step g h
        → h.closed ≢ g.closed
        → (g.mu ≡ closing) × ((c : ℕ) × (g.idle ≡ some c) × (h.closed ≡ c ∷ g.closed))
    only enters ne = absurd (ne refl)
    only (leaves p) ne = absurd (ne refl)
    only (wakes p u) ne = absurd (ne (wake_closed g))
    only (closes e) ne =
        let (c, k) = ((Reach-Inv r).held e).1 in (e, (c, k, close_idle_closed g c k))
    only (waits u) ne = absurd (ne (wait_closed g))
    only (arms e) ne = absurd (ne (arm_closed g))
    only (returns cs ds c e) ne = absurd (ne refl)

    seen : {h : Group} → Step g h → g.mu ≢ closing → h.mu ≡ closing → (g.n ≡ 0) × (h.n ≡ 0)
    seen enters ne k = absurd (ne k)
    seen (leaves p) ne k = absurd (ne k)
    seen (wakes p u) ne k = wake_closing g u k
    seen (closes e) ne k = absurd (ne e)
    seen (waits u) ne k = absurd (ne (not_closing g k))
    seen (arms e) ne k = absurd (arm_free g k)
    seen (returns cs ds c e) ne k = absurd (ne k)

    late :
        g.mu ≡ closing
        → Step g (enter g)
          × Step (enter g) (close_idle (enter g))
          × (0 < (close_idle (enter g)).n)
          × ((close_idle (enter g)).closed ≢ (enter g).closed)
    late e =
        let (c, k) = ((Reach-Inv r).held e).1 in
        (
          enters,
          closes e,
          close_idle_live g,
          λ q. longer c g.closed (sym (close_idle_closed (enter g) c k) ∙ q),
        )
