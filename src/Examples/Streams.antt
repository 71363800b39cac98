-- ===== src/Examples/Streams.antt =====
-- Long-lived responses around a shutdown, and a conditional request.
use neokit.Base.{false, [], ◌∷◌, ◌≡◌, none, refl}
use neokit.App.Streams.{Streams, stream_context, signal_shutdown}
use neokit.Fiberx.Etag.{etag, send_with_etag}
use neokit.Fiberx.Etag.Tags.{send_with_etag_listed}
use neokit.Text.{Text, codes, join}

-- One stream that the shutdown ends, and one that a request of the drain opens.
abbrev drained : Streams
drained =
    stream_context false
      (signal_shutdown (stream_context false (record { shutting_down = false; streams = [] })))

abbrev stored : Text
stored = codes "\"a\""

send_with_etag_listed_example :
    send_with_etag
      (join (b',' ∷ []) (stored ∷ etag (1 ∷ 2 ∷ []) ∷ []))
      (etag (1 ∷ 2 ∷ []))
      (codes "private")
      (codes "image/png")
      (7 ∷ [])
    ≡ record {
      status = 304;
      tag = etag (1 ∷ 2 ∷ []);
      cache_control = codes "private";
      content_type = none;
      body = [];
    }
send_with_etag_listed_example =
    send_with_etag_listed (1 ∷ 2 ∷ []) (stored ∷ []) [] (codes "private") (codes "image/png")
      (7 ∷ []) (refl, tt) tt
