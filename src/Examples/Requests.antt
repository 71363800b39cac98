-- ===== src/Examples/Requests.antt =====
-- Requests of a service: one in flight while another fails, and calls of its clients.
use neokit.Base.{none, some, true, [], pos, ◌∷◌, ◌≡◌, ◌+◌, false, ℕ, ◌<◌, ◌⊎◌, ◌≤◌}
use neokit.Fiberx.Errors.{Chain, applied}
use neokit.Fiberx.Middleware.{
  Request, attrs_of, returned, panicked, begin_request, end_request, Level, info, warn, error,
}
use neokit.Fiberx.Middleware.Gauge.{
  World, idle, begins, ends, Reach, at_start, after, count, flying, active_balanced, sent,
  end_request-sent,
}

abbrev outage : Chain
outage = record {
  api = some (record { status = 503; message = "down"; code = ""; fields = [] });
  fiber = none;
  not_found = false;
  invalid_input = false;
  conflict = false;
}

abbrev probe : Request
probe = record { method = "GET"; scheme = "https" }

abbrev upload : Request
upload = record { method = "POST"; scheme = "https" }

abbrev one_left : World
one_left = record {
  meter =
      end_request none none probe panicked (begin_request upload (begin_request probe idle.meter));
  in_flight = upload ∷ [];
}

one_left-reached : Reach none none one_left
one_left-reached =
    after _ _ (after _ _ (after _ _ at_start (begins idle probe)) (begins _ upload))
      (ends _ (upload ∷ []) [] probe panicked)

active_balanced_example :
    count (λ a. true) one_left.meter.ups
    ≡ count (λ a. true) one_left.meter.downs + flying (λ a. true) one_left.in_flight
active_balanced_example = active_balanced (λ a. true) none none one_left one_left-reached

end_request-sent_example :
    let m' =
      end_request none none upload (returned (some outage) 200 "/files" (pos 5)) idle.meter in
    (status : ℕ) × (applied status ≡ sent none (some outage) 200)
    × (m'.samples
        ≡ record { attrs = attrs_of upload; route = "/files"; status = status; lasted = pos 5 }
          ∷ [])
    × ((status < 400) × (m'.lines ≡ [])
        ⊎ ((l : Level) × (m'.lines
              ≡ record { level = l; line_method = "POST"; path = "/files"; line_status = status }
                ∷ [])
            × ((status < 400) × (l ≡ info)
                ⊎ (400 ≤ status) × (status < 500) × (l ≡ warn)
                ⊎ (500 ≤ status) × (l ≡ error))))
end_request-sent_example =
    end_request-sent none none upload (some outage) 200 "/files" (pos 5) idle.meter
