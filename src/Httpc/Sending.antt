-- ===== src/Httpc/Sending.antt =====
-- httpc/http.go and the sending half of client.go: the set-up of a client, the errors of a status,
-- redaction, and send with its debug ring. A URL is what net/url makes of its text: `parse` and
-- `print` are arguments, and `R` is all of it but the user, the query and the fragment.
pub mod Redaction
pub mod Bodies
use neokit.Base.{
  ◌++◌, Bool, Option, if◌then◌else◌, negsuc, pos, ℕ, ◌*◌, ◌/◌, List, [], leb, leb_ℤ, none, ◌⊎◌,
  ◌&&◌, some, ◌∷◌, inl, ltb, ltb_ℤ, inr, not, take, length,
}
use neokit.Clock.{Instant, Duration, second}
use neokit.Text.{Text, trim, codes}
use neokit.Strconv.{itoa}
use neokit.Httpc.Transport.{RetryConfig, default_retry_config, millisecond}
use neokit.Httpc.Client.{read_all_limited}
use neokit.Httpc.Debug.{DebugEntry, DebugRing, push}

abbrev pub default_http_timeout : Duration
default_http_timeout = pos (15 * second)

abbrev pub no_timeout : Duration
no_timeout = negsuc 0

-- HTTPOptions, without the transport.
pub record HttpOptions : Type 0 where
  pub timeout : Duration
  pub retry : Option RetryConfig
  pub tracing : Bool

-- A client: a timeout of 0 is none.
pub record HttpClient : Type 0 where
  pub client_timeout : Duration
  pub retry_config : RetryConfig
  pub traced : Bool

-- NewHTTPClient
unfoldable pub new_http_client : HttpOptions → HttpClient
new_http_client opts = record {
  client_timeout =
      if leb_ℤ (pos 0) opts.timeout && leb_ℤ opts.timeout (pos 0)
      then default_http_timeout
      else if ltb_ℤ opts.timeout (pos 0)
      then pos 0
      else opts.timeout;
  retry_config = (elim opts.retry [ none ↦ default_retry_config | some cfg ↦ cfg ]);
  traced = opts.tracing;
}

pub record ApiError : Type 0 where
  pub service : Text
  pub status : ℕ
  pub body : Text

abbrev pub error_body_limit : ℕ
error_body_limit = 8 * 1024

-- APIError.Error
unfoldable pub error_text : ApiError → Text
error_text e =
    let head = e.service ++ codes " API " ++ itoa (pos e.status) in
    elim e.body [ [] ↦ head | c ∷ body ↦ head ++ codes ": " ++ (c ∷ body) ]

abbrev pub successful : ℕ → Bool
successful status = leb 200 status && ltb status 300

-- The body of a response: the bytes that arrive before it ends, or before its read breaks.
pub record Body : Type 0 where
  pub received : List ℕ
  pub breaks : Bool

-- ReadAllLimited of a body. A break behind the byte after the bound is not met, and the body is too
-- long then.
unfoldable pub read_body : Body → ℕ → Option (List ℕ)
read_body body bound =
    if body.breaks && leb (length body.received) bound
    then none
    else read_all_limited body.received (pos bound)

-- CheckStatus of a response with that body, none where there is no response; the error is the text
-- that says so, or an APIError, whose body is empty where the read fails.
unfoldable pub check_status : Text → Option (ℕ × Body) → Option (Text ⊎ ApiError)
unfolding read_body
check_status service none = some (inl (service ++ codes ": no response"))
check_status service (some (status, body)) =
    if successful status
    then none
    else some (
        inr (record {
          service = service;
          status = status;
          body = (elim (read_body body error_body_limit) [ none ↦ [] | some raw ↦ raw ]);
        }))

-- StatusError
unfoldable pub status_error : Text → ℕ → ApiError
status_error service status = record { service = service; status = status; body = [] }

pub record Url (R : Type 0) : Type 0 where
  pub rest : R
  pub user : Option Text
  pub raw_query : Text
  pub fragment : Text

-- An error of http.Client.Do: a url.Error around another, or none of those.
pub data DoError : Type 0 where
  url_error : Text → Text → Text → DoError
  other_error : Text → DoError

pub data Reply : Type 0 where
  no_reply : Text → Text → Reply
  replied : ℕ → Body → Reply

module _ {R : Type 0} (parse : Text → Option (Url R)) (print : Url R → Text) where
  -- RedactURL
  unfoldable pub redact_url : Text → Text
  redact_url raw = elim (parse raw) [
    | none ↦ []
    | some u ↦ print (record u { raw_query = []; fragment = []; user = none })
  ]

  -- Redact
  unfoldable pub redact : DoError → DoError
  unfolding redact_url
  redact (url_error op url inner) = url_error op (redact_url url) inner
  redact (other_error text) = other_error text

  module _ (error_of : DoError → Text) where
    -- The entry that send pushes: the request to `url` began at `start` and lasted so long.
    unfoldable pub entry_of : Instant → ℕ → Text → Text → Reply → DebugEntry
    unfolding redact redact_url
    entry_of start lasted method url (no_reply op inner) = record {
      time = start;
      method = method;
      url = redact_url url;
      status_code = pos 0;
      duration_ms = pos (lasted / millisecond);
      error = error_of (redact (url_error op url inner));
    }
    entry_of start lasted method url (replied status body) = record {
      time = start;
      method = method;
      url = redact_url url;
      status_code = pos status;
      duration_ms = pos (lasted / millisecond);
      error = [];
    }

    -- BaseClient.send: the debug ring, and the error or the response. An APIError keeps what arrived
    -- of the body before its read broke.
    unfoldable pub send :
        Text
        → Instant
        → ℕ
        → Text
        → Text
        → Reply
        → Option DebugRing
        → Option DebugRing × ((DoError ⊎ ApiError) ⊎ (ℕ × Body))
    unfolding entry_of
    send service start lasted method url reply ring =
        let ring' : Option DebugRing = (elim ring [
          | none ↦ none
          | some r ↦ some (push (entry_of start lasted method url reply) r)
        ]) in
        (
          ring',
          elim reply [
            | no_reply op inner ↦ inl (inl (url_error op url inner))
            | replied status body ↦
                if not (successful status)
                then inl (
                    inr (record {
                      service = service;
                      status = status;
                      body = take error_body_limit body.received;
                    }))
                else inr (status, body)
          ],
        )
