-- ===== src/Fiberx/Middleware/Gauge.antt =====
-- The gauge of the requests in flight over interleaved requests, and what one request leaves.
use neokit.Base.{
  Bool, List, Option, [], ◌++◌, String, ℕ, ◌≡◌, ◌+◌, Bool-cases, map, some, ◌∷◌, ◌<◌, if◌then◌else◌,
  inl, none, arith, inr, ◌⊎◌, refl, ◌≤◌, ap, sym, true,
}
use neokit.Fiberx.Errors.{Chain, Mapper, render, applied}
use neokit.Fiberx.Errors.Sending.{render-status_for_error}
use neokit.Fiberx.Middleware.{
  Request, Attrs, attrs_of, Level, info, warn, error, Meter, Chained, returned, panicked, skip_log,
  level_of, status_of, begin_request, record_request, end_request, Duration,
}

pub record World : Type 0 where
  pub meter : Meter
  pub in_flight : List Request

pub data Step (mapper : Mapper) (quiet : Option (String → Bool)) : World → World → Type 0 where
  begins :
      (w : World) (r : Request)
      → Step mapper quiet w
          (record { meter = begin_request r w.meter; in_flight = r ∷ w.in_flight })
  ends :
      (m : Meter) (rs ss : List Request) (r : Request) (out : Chained)
      → Step mapper quiet
          (record { meter = m; in_flight = rs ++ r ∷ ss })
          (record { meter = end_request mapper quiet r out m; in_flight = rs ++ ss })

abbrev pub idle : World
idle = record { meter = record { ups = []; downs = []; samples = []; lines = [] }; in_flight = [] }

pub data Reach (mapper : Mapper) (quiet : Option (String → Bool)) : World → Type 0 where
  at_start : Reach mapper quiet idle
  after : (v w : World) → Reach mapper quiet v → Step mapper quiet v w → Reach mapper quiet w

-- How many of the measurements, and of the requests, have attributes of some kind.
unfoldable pub count : (Attrs → Bool) → List Attrs → ℕ
count p [] = 0
count p (a ∷ l) = (if p a then 1 else 0) + count p l

abbrev pub flying : (Attrs → Bool) → List Request → ℕ
flying p rs = count p (map attrs_of rs)

module _ (p : Attrs → Bool) where
  flying-middle :
      (rs ss : List Request) (r : Request)
      → flying p (rs ++ r ∷ ss) ≡ (if p (attrs_of r) then 1 else 0) + flying p (rs ++ ss)
  unfolding count
  flying-middle [] ss r = refl
  flying-middle (s ∷ rs) ss r = omega (arith, flying-middle rs ss r)

  Balanced : World → Type 0
  Balanced w = count p w.meter.ups ≡ count p w.meter.downs + flying p w.in_flight

  record_request-gauge :
      (mapper : Mapper) (quiet : Option (String → Bool)) (r : Request) (out : Chained) (m : Meter)
      → let m' = record_request mapper quiet r out m in (m'.ups ≡ m.ups) × (m'.downs ≡ m.downs)
  unfolding record_request
  record_request-gauge mapper quiet r panicked m = (refl, refl)
  record_request-gauge mapper quiet r (returned err response path lasted) m =
      elim (Bool-cases (skip_log quiet path (status_of mapper err response))) [
        | inl h ↦ rw h (refl, refl)
        | inr h ↦ rw h (refl, refl)
      ]

  Step-Balanced :
      (mapper : Mapper) (quiet : Option (String → Bool)) (v w : World)
      → Step mapper quiet v w
      → Balanced v
      → Balanced w
  unfolding Balanced begin_request end_request count
  Step-Balanced mapper quiet v w (begins _ r) h = omega (arith, h)
  Step-Balanced mapper quiet v w (ends m rs ss r out) h = omega (
    arith,
    h,
    flying-middle rs ss r,
    ap (count p) (record_request-gauge mapper quiet r out m).0,
    ap (count p) (record_request-gauge mapper quiet r out m).1,
  )

  -- Whatever the order in which requests begin and end, with panics among them: of each kind of
  -- attributes, what the gauge of active requests was raised by is what it was lowered by and the
  -- requests of that kind that are still in flight.
  pub active_balanced :
      (mapper : Mapper) (quiet : Option (String → Bool)) (w : World)
      → Reach mapper quiet w
      → count p w.meter.ups ≡ count p w.meter.downs + flying p w.in_flight
  unfolding Balanced count
  active_balanced mapper quiet w at_start = refl
  active_balanced mapper quiet w (after v _ h s) =
      Step-Balanced mapper quiet v w s (active_balanced mapper quiet v h)

-- What the client is sent: the response, or what Render makes of the error.
unfoldable pub sent : Mapper → Option Chain → ℕ → ℕ
sent mapper none response = applied response
sent mapper (some e) response = (render mapper e).sent_status

pub sent-status_of :
    (mapper : Mapper) (err : Option Chain) (response : ℕ)
    → applied (status_of mapper err response) ≡ sent mapper err response
unfolding status_of sent
sent-status_of mapper none response = refl
sent-status_of mapper (some e) response = sym (render-status_for_error mapper e).0

skip_log-below :
    (quiet : Option (String → Bool)) (path : String) (status : ℕ)
    → skip_log quiet path status ≡ true
    → status < 400
unfolding skip_log
skip_log-below quiet path status h = ground arith

level_of-cases :
    (status : ℕ)
    → (status < 400) × (level_of status ≡ info)
      ⊎ (400 ≤ status) × (status < 500) × (level_of status ≡ warn)
      ⊎ (500 ≤ status) × (level_of status ≡ error)
unfolding level_of
level_of-cases status = ground arith

-- A request that returns is measured once, with the status that the client is sent, a status of 0
-- standing for the server's 200; and at most one line is logged, an error's at 500 and more, a
-- warning's at 400 and more, which no QuietPath silences.
pub end_request-sent :
    (mapper : Mapper) (quiet : Option (String → Bool)) (r : Request) (err : Option Chain)
    (response : ℕ) (path : String) (lasted : Duration) (m : Meter)
    → let m' = end_request mapper quiet r (returned err response path lasted) m in
      (status : ℕ) × (applied status ≡ sent mapper err response)
      × (m'.samples
          ≡ record { attrs = attrs_of r; route = path; status = status; lasted = lasted }
            ∷ m.samples)
      × ((status < 400) × (m'.lines ≡ m.lines)
          ⊎ ((l : Level) × (m'.lines
                ≡ record { level = l; line_method = r.method; path = path; line_status = status }
                  ∷ m.lines)
              × ((status < 400) × (l ≡ info)
                  ⊎ (400 ≤ status) × (status < 500) × (l ≡ warn)
                  ⊎ (500 ≤ status) × (l ≡ error))))
unfolding end_request record_request status_of sent
end_request-sent mapper quiet r err response path lasted m =
    elim (Bool-cases (skip_log quiet path status)) [
      | inl h ↦ (
        status,
        sent-status_of mapper err response,
        rw h refl,
        inl (skip_log-below quiet path status h, rw h refl),
      )
      | inr h ↦ (
        status,
        sent-status_of mapper err response,
        rw h refl,
        inr (level_of status, rw h refl, level_of-cases status),
      )
    ]
  where
    status : ℕ
    status = status_of mapper err response
