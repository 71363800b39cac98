-- ===== src/App/Streams.antt =====
-- app/app.go: StreamContext, Context and signalShutdown. A stream's context hangs on its request's
-- and, by a registration that its cancel function takes back, on the application's shutdown. An
-- AfterFunc on a context that is done runs at once.
use neokit.Base.{Bool, false, if◌then◌else◌, true, List, [], map, not, ◌≡◌, ◌++◌, ◌||◌, ◌∷◌, ◌&&◌}

pub record Stream : Type 0 where
  pub parent_done : Bool  -- the request's context is done
  pub finished : Bool  -- the stream's cancel function was called
  pub registered : Bool  -- the AfterFunc waits for the shutdown
  pub cancelled : Bool

pub record Streams : Type 0 where
  pub shutting_down : Bool
  pub streams : List Stream

-- StreamContext, of a request whose context may be done.
unfoldable pub stream_context : Bool → Streams → Streams
stream_context parent_done w =
    let s : Stream = record {
      parent_done = parent_done;
      finished = false;
      registered = not w.shutting_down;
      cancelled = parent_done || w.shutting_down;
    } in
    record w { streams = s ∷ w.streams }

-- The function that StreamContext returns: stop, and cancel.
unfoldable pub cancel_stream : Stream → Stream
cancel_stream s = record s { finished = true; registered = false; cancelled = true }

-- The request's context is done: what is derived from it is.
unfoldable pub end_request : Stream → Stream
end_request s = record s { parent_done = true; cancelled = true }

-- The shutdown runs what is registered for it.
unfoldable pub fire : Stream → Stream
fire s = if s.registered then record s { registered = false; cancelled = true } else s

-- signalShutdown
unfoldable pub signal_shutdown : Streams → Streams
unfolding fire
signal_shutdown w = record { shutting_down = true; streams = map fire w.streams }

pub data Step : Streams → Streams → Type 0 where
  opens : (w : Streams) (parent_done : Bool) → Step w (stream_context parent_done w)
  cancels :
      (b : Bool) (before behind : List Stream) (s : Stream)
      → Step
          (record { shutting_down = b; streams = before ++ s ∷ behind })
          (record { shutting_down = b; streams = before ++ cancel_stream s ∷ behind })
  ends :
      (b : Bool) (before behind : List Stream) (s : Stream)
      → Step
          (record { shutting_down = b; streams = before ++ s ∷ behind })
          (record { shutting_down = b; streams = before ++ end_request s ∷ behind })
  shuts_down : (w : Streams) → Step w (signal_shutdown w)

pub data Reach : Streams → Type 0 where
  at_start : Reach (record { shutting_down = false; streams = [] })
  after : (v w : Streams) → Reach v → Step v w → Reach w

-- What a stream is at: it is cancelled exactly where its request is done, it was cancelled, or the
-- application shuts down, and waits for the shutdown exactly where neither of the last two is so.
abbrev pub Settled : Bool → Stream → Type 0
Settled down s =
    (s.cancelled ≡ (s.parent_done || s.finished || down))
    × (s.registered ≡ (not s.finished && not down))
