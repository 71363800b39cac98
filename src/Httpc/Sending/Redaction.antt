-- ===== src/Httpc/Sending/Redaction.antt =====
-- What the debug ring can show of a request.
use neokit.Base.{Option, ℕ, ◌≡◌, some, Option-cases, ap, refl, inl, none, [], inr}
use neokit.Clock.{Instant}
use neokit.Text.{Text}
use neokit.Httpc.Debug.{DebugRing, push}
use neokit.Httpc.Sending.{
  Url, DoError, Reply, no_reply, replied, redact, redact_url, entry_of, send,
}

module _ {R : Type 0} (parse : Text → Option (Url R)) (print : Url R → Text)
    (error_of : DoError → Text) where
  redact_url-rest :
      (a b : Text) (u v : Url R)
      → parse a ≡ some u
      → parse b ≡ some v
      → u.rest ≡ v.rest
      → redact_url parse print a ≡ redact_url parse print b
  unfolding redact_url
  redact_url-rest a b u v h k e =
      rw (redact_url, h, k)
        (ap (λ r. print (record { rest = r; user = none; raw_query = []; fragment = [] })) e)

  entry_of-redacted :
      (method : Text) (start : Instant) (lasted : ℕ) (reply : Reply) (a b : Text) (u v : Url R)
      → parse a ≡ some u
      → parse b ≡ some v
      → u.rest ≡ v.rest
      → entry_of parse print error_of start lasted method a reply
        ≡ entry_of parse print error_of start lasted method b reply
  unfolding entry_of redact
  entry_of-redacted method start lasted (no_reply op inner) a b u v h k e =
      rw (redact_url-rest a b u v h k e) refl
  entry_of-redacted method start lasted (replied status body) a b u v h k e =
      rw (redact_url-rest a b u v h k e) refl

  -- Two requests whose URLs differ in nothing but the user, the query and the fragment leave the same
  -- debug ring, whether they are answered or fail.
  pub send-redacted :
      (service method : Text) (start : Instant) (lasted : ℕ) (reply : Reply)
      (ring : Option DebugRing) (a b : Text) (u v : Url R)
      → parse a ≡ some u
      → parse b ≡ some v
      → u.rest ≡ v.rest
      → (send parse print error_of service start lasted method a reply ring).0
        ≡ (send parse print error_of service start lasted method b reply ring).0
  unfolding send
  send-redacted service method start lasted reply ring a b u v h k e = elim (Option-cases ring) [
    | inl g ↦ rw g refl
    | inr (r, g) ↦
        rw g (ap (λ d. some (push d r)) (entry_of-redacted method start lasted reply a b u v h k e))
  ]
