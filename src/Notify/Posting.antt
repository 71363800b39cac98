-- ===== src/Notify/Posting.antt =====
-- notify/notify.go: the client of a channel, and the post that its three senders end in. A caller's
-- client is a parameter; a URL is what net/url makes of it.
use neokit.Base.{
  Option, ℕ, ◌⊎◌, Bool, List, some, [], if◌then◌else◌, inl, ◌≡◌, leb_ℤ, not, true, ◌∷◌, inr, none,
  pos, false, Bool-cases, refl,
}
use neokit.Clock.{Duration}
use neokit.Text.{Text}
use neokit.Httpc.Fault.{Link, Error, api_error, fault_for_status, classify}
use neokit.Httpc.Sending.Bodies.{read_body-whole}
use neokit.Httpc.Sending.{
  Body, HttpClient, new_http_client, Url, DoError, url_error, redact, redact_url, ApiError,
  successful, check_status,
}
use neokit.Notify.{default_timeout}

-- Options; the client is the caller's, or none.
pub record Options (C : Type 0) : Type 0 where
  pub http_client : Option C
  pub timeout : Duration

-- Options.client
unfoldable pub client : {C : Type 0} → Options C → C ⊎ HttpClient
client o = elim o.http_client [
  | some c ↦ inl c
  | none ↦
      let timeout = if leb_ℤ o.timeout (pos 0) then default_timeout else o.timeout in
      inr (new_http_client (record { timeout = timeout; retry = none; tracing = false }))
]

-- What client.Do gives: an error with its operation and the error inside, or a response.
pub data Done : Type 0 where
  not_sent : Text → Text → Done
  answered : ℕ → List ℕ → Done

pub data PostError : Type 0 where
  build_failed : PostError
  send_failed : DoError → PostError
  bad_status : Text ⊎ ApiError → PostError

-- What is left of a body that was read to its end.
abbrev pub drained : Body
drained = record { received = []; breaks = false }

module _ {R : Type 0} (parse : Text → Option (Url R)) (print : Url R → Text) where
  -- post: the response's body is read to its end before CheckStatus looks at it.
  unfoldable pub post : Text → Text → Bool → Done → Option PostError
  unfolding redact check_status
  post service url builds done = if not builds then some build_failed else elim done [
    | not_sent op inner ↦ some (send_failed (redact parse print (url_error op url inner)))
    | answered status body ↦ elim (check_status service (some (status, drained))) [
      | none ↦ none
      | some e ↦ some (bad_status e)
    ]
  ]

  -- The chain that errors.Is walks of a post's error: the transport's own, or the status.
  abbrev pub chain : List Link → Option PostError → Option Error
  chain inner none = none
  chain inner (some build_failed) = some (Link.other ∷ [])
  chain inner (some (send_failed e)) = some (Link.other ∷ inner)
  chain inner (some (bad_status (inl text))) = some (Link.other ∷ [])
  chain inner (some (bad_status (inr e))) = some (api_error e.status ∷ [])

  -- A post that is answered has an error exactly for a status outside 200 to 299; it is an APIError
  -- with that status, an empty body, and the fault of the status. A post that is not answered has an
  -- error that shows the redacted URL.
  pub post-cases :
      (service url : Text) (done : Done)
      → ((status : ℕ) × (body : List ℕ) × (done ≡ answered status body)
          × ((successful status ≡ true) × (post service url true done ≡ none)
              ⊎ (successful status ≡ false)
                × (post service url true done
                    ≡ some (
                        bad_status
                          (inr (record { service = service; status = status; body = [] }))))
                × (classify (chain [] (post service url true done)) ≡ fault_for_status status)))
        ⊎ ((op : Text) × (inner : Text) × (done ≡ not_sent op inner)
            × (post service url true done
                ≡ some (send_failed (url_error op (redact_url parse print url) inner))))
  unfolding post redact check_status classify
  post-cases service url (not_sent op inner) = inr (op, inner, refl, refl)
  post-cases service url (answered status body) = inl (
    status,
    body,
    refl,
    elim (Bool-cases (successful status)) [
      | inl h ↦ inl (h, rw h refl)
      | inr h ↦ let e = read_body-whole drained in inr (h, rw (h, e) refl, rw h refl)
    ],
  )
