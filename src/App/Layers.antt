-- ===== src/App/Layers.antt =====
-- app/app.go: newFiber, as the order in which it registers middleware and routes. A request passes
-- the middleware registered before the first route that matches, as Fiber's router takes them.
use neokit.Base.{
  false, Bool, List, Option, ℕ, ◌*◌, if◌then◌else◌, ◌∷◌, ◌≡◌, [], pos, true, ◌++◌, none, ◌⊎◌, inl,
  some, inr, refl,
}
use neokit.Clock.{Duration, second}
use neokit.Text.{Text, codes, text_eq}
use neokit.App.{Options, bearer_guard}

pub data Layer : Type 0 where
  recover request_id trace metrics_and_logger compress cors : Layer

pub data Mount : Type 0 where
  uses : Layer → Mount
  live_route : Text → Mount
  scrape_route : Text → Text → Mount

pub data Answer : Type 0 where
  live scrape unauthorized own_routes : Answer

-- fiber.Config, as far as newFiber sets it.
pub record Config : Type 0 where
  pub app_name : Text
  pub body_limit : ℕ
  pub read_timeout : Duration
  pub idle_timeout : Duration

abbrev pub live_path : Text
live_path = codes "/healthz"

abbrev pub metrics_path : Text
metrics_path = codes "/metrics"

-- The configuration, with the caller's hook, or none.
unfoldable pub configure : Text → Option (Config → Config) → Config
configure name hook =
    let cfg : Config = record {
      app_name = name;
      body_limit = 1024 * 1024;
      read_timeout = pos (15 * second);
      idle_timeout = pos (120 * second);
    } in
    elim hook [ none ↦ cfg | some f ↦ f cfg ]

-- newFiber: the scrape handler is there or not.
unfoldable pub new_fiber : Options → Bool → List Mount
new_fiber o scrapes =
    uses recover
      ∷ live_route live_path
      ∷ (if scrapes then scrape_route metrics_path o.metrics_token ∷ [] else [])
    ++ (uses request_id ∷ uses trace ∷ uses metrics_and_logger ∷ uses compress ∷ uses cors ∷ [])

-- A GET request to a path, with its Authorization header.
unfoldable pub serve : Text → Text → List Mount → List Layer × Answer
unfolding bearer_guard
serve path header [] = ([], own_routes)
serve path header (uses l ∷ ms) = let (ls, a) = serve path header ms in (l ∷ ls, a)
serve path header (live_route p ∷ ms) =
    let rest = serve path header ms in if text_eq path p then ([], live) else rest
serve path header (scrape_route p token ∷ ms) =
    let rest = serve path header ms in
    if text_eq path p
    then ([], if bearer_guard token header then scrape else unauthorized)
    else rest

-- A probe passes the recovery alone, and so does a scrape, which the token guards: neither is traced,
-- measured or logged. Every other request passes the recovery, its request id, the trace, the
-- metrics and the log, the compression and CORS, in this order.
pub serve-new_fiber :
    (o : Options) (scrapes : Bool) (path header : Text)
    → let out = serve path header (new_fiber o scrapes) in
      ((text_eq path live_path ≡ true) × (out ≡ (recover ∷ [], live)))
      ⊎ ((scrapes ≡ true)
          × (text_eq path metrics_path ≡ true)
          × (out ≡ (
            recover ∷ [],
            if bearer_guard o.metrics_token header then scrape else unauthorized,
          )))
      ⊎ (out
          ≡ (recover ∷ request_id ∷ trace ∷ metrics_and_logger ∷ compress ∷ cors ∷ [], own_routes))
unfolding serve new_fiber
serve-new_fiber o scrapes path header =
    go scrapes (text_eq path live_path) (text_eq path metrics_path) refl refl
  where
    go :
        (b l m : Bool)
        → text_eq path live_path ≡ l
        → text_eq path metrics_path ≡ m
        → ((text_eq path live_path ≡ true)
            × (serve path header (new_fiber o b) ≡ (recover ∷ [], live)))
          ⊎ ((b ≡ true)
              × (text_eq path metrics_path ≡ true)
              × (serve path header (new_fiber o b) ≡ (
                recover ∷ [],
                if bearer_guard o.metrics_token header then scrape else unauthorized,
              )))
          ⊎ (serve path header (new_fiber o b) ≡ (
            recover ∷ request_id ∷ trace ∷ metrics_and_logger ∷ compress ∷ cors ∷ [],
            own_routes,
          ))
    go b true m h k = inl (h, rw h refl)
    go true false true h k = inr (inl (refl, k, rw (h, k) refl))
    go true false false h k = inr (inr (rw (h, k) refl))
    go false false matched h k = inr (inr (rw h refl))
