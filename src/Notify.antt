-- ===== src/Notify.antt =====
-- notify/notify.go: what each backend is sent for a notification. A request is its headers and its
-- payload; sending it is a parameter, and so is the time. Data of a webhook, which is passed on as it
-- is, is left out. Text that is cut to a number of bytes is given as bytes.
pub mod Headers
pub mod Posting
use neokit.Base.{
  Bool, List, Option, [], if◌then◌else◌, pos, ℕ, ◌∷◌, ◌*◌, ◌==◌, ltb, map, none, some, ◌||◌, ◌++◌,
  length, take,
}
use neokit.Clock.{Instant, Duration, second}
use neokit.Fiberauth.Sanitize.{bytes}
use neokit.Text.{Text, codes, text_eq, trim_space, join}

abbrev pub level_info : Text
level_info = codes "info"

abbrev pub level_success : Text
level_success = codes "success"

abbrev pub level_warning : Text
level_warning = codes "warning"

abbrev pub level_failure : Text
level_failure = codes "failure"

-- Level.Valid
unfoldable pub valid_level : Text → Bool
valid_level l =
    text_eq l level_info
    || text_eq l level_success
    || text_eq l level_warning
    || text_eq l level_failure

pub record Notification : Type 0 where
  pub title : Text
  pub body : Text
  pub severity : Text
  pub url : Text
  pub tags : List Text

-- Notification.level
unfoldable pub level : Notification → Text
unfolding valid_level
level n = if valid_level n.severity then n.severity else level_info

abbrev pub default_timeout : Duration
default_timeout = pos (10 * second)

pub record WebhookPayload : Type 0 where
  pub hook_title : Text
  pub hook_body : Text
  pub hook_level : Text
  pub hook_url : Text
  pub hook_tags : List Text
  pub timestamp : Instant

-- Webhook.Send: the payload, and the secret if one is sent.
unfoldable pub webhook_request : Text → Instant → Notification → WebhookPayload × Option Text
webhook_request secret now n = (
  record {
    hook_title = n.title;
    hook_body = n.body;
    hook_level = level n;
    hook_url = n.url;
    hook_tags = n.tags;
    timestamp = now;
  },
  elim secret [ [] ↦ none | c ∷ s ↦ some (c ∷ s) ],
)

abbrev pub is_control : ℕ → Bool
is_control c = ltb c 32 || c == 127

abbrev pub blanked : ℕ → ℕ
blanked c = if is_control c then 32 else c

-- headerSafe
unfoldable pub header_safe : Text → List ℕ
header_safe s =
    let out = bytes (trim_space (map blanked s)) in
    if ltb 256 (length out) then take 256 out else out

-- ntfyPriority
unfoldable pub ntfy_priority : Text → Text
ntfy_priority l =
    if text_eq l level_failure
    then codes "5"
    else if text_eq l level_warning
    then codes "4"
    else codes "3"

abbrev pub comma_blank : ℕ → ℕ
comma_blank c = if c == b',' then 32 else c

abbrev pub keep_tag : List ℕ → List (List ℕ) → List (List ℕ)
keep_tag [] rest = rest
keep_tag (c ∷ t) rest = (c ∷ t) ∷ rest

unfoldable pub safe_tags : List Text → List (List ℕ)
safe_tags [] = []
safe_tags (t ∷ tags) = keep_tag (header_safe (map comma_blank t)) (safe_tags tags)

abbrev pub level_tag : Text → Text
level_tag l =
    if text_eq l level_success
    then codes "white_check_mark"
    else if text_eq l level_warning
    then codes "warning"
    else if text_eq l level_failure
    then codes "rotating_light"
    else codes "bell"

-- ntfyTags
unfoldable pub ntfy_tags : Notification → List ℕ
unfolding safe_tags
ntfy_tags n = elim n.tags [
  | [] ↦ level_tag (level n)
  | t ∷ tags ↦ join (b',' ∷ []) (safe_tags (t ∷ tags))
]

-- The headers of an ntfy message; a blank one is not set.
pub record NtfyHeaders : Type 0 where
  pub ntfy_title : List ℕ
  pub priority : Text
  pub ntfy_tag : List ℕ
  pub click : List ℕ
  pub authorization : Option Text

-- Ntfy.Send
unfoldable pub ntfy_request : Text → Notification → NtfyHeaders × Text
ntfy_request token n = (
  record {
    ntfy_title = header_safe n.title;
    priority = ntfy_priority (level n);
    ntfy_tag = ntfy_tags n;
    click = header_safe n.url;
    authorization = elim token [ [] ↦ none | c ∷ s ↦ some (codes "Bearer " ++ c ∷ s) ];
  },
  n.body,
)

-- apprisePayload
pub record ApprisePayload : Type 0 where
  pub apprise_title : Text
  pub apprise_body : Text
  pub type : Text
  pub tag : Text

-- Apprise.Send
unfoldable pub apprise_request : Notification → ApprisePayload
apprise_request n = record {
  apprise_title = n.title;
  apprise_body = n.body;
  type = level n;
  tag = join (b',' ∷ []) n.tags;
}

module _ {W E : Type 0} where
  -- Multi.Send over named senders, of which some may be nil; no errors is its success.
  unfoldable pub multi_send :
      List (Option (Text × (Notification → W → W × Option E)))
      → Notification
      → W
      → W × List (Text × E)
  multi_send [] n w = (w, [])
  multi_send (none ∷ senders) n w = multi_send senders n w
  multi_send (some (name, send) ∷ senders) n w =
      let (w', err) = send n w in
      let (w'', errs) = multi_send senders n w' in
      (w'', elim err [ none ↦ errs | some e ↦ (name, e) ∷ errs ])
