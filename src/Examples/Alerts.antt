-- ===== src/Examples/Alerts.antt =====
-- A notification whose title and tags try to start another header.
use neokit.Base.{any, ◌∷◌, ◌++◌, ◌≡◌, [], false, length, ◌≤◌}
use neokit.Notify.{Notification, is_control, ntfy_request}
use neokit.Notify.Headers.{ntfy_request-header_safe}
use neokit.Text.{codes}

abbrev forged : Notification
forged = record {
  title = 68 ∷ 13 ∷ 10 ∷ codes "Priority: 5";
  body = codes "disk full";
  severity = codes "warning";
  url = codes "https://app";
  tags = (codes "a,b" ++ 10 ∷ []) ∷ [];
}

ntfy_request-header_safe_example :
    let (headers, body) = ntfy_request (codes "tk") forged in
    (any is_control headers.ntfy_title ≡ false)
    × (length headers.ntfy_title ≤ 256)
    × (any is_control headers.click ≡ false)
    × (length headers.click ≤ 256)
    × (any is_control headers.ntfy_tag ≡ false)
    × (any is_control headers.priority ≡ false)
    × (body ≡ forged.body)
ntfy_request-header_safe_example = ntfy_request-header_safe (codes "tk") forged
