-- ===== src/Delivery.antt =====
-- webpush/delivery/sender.go: a message to many subscribers. What a push service does with each
-- delivery is the parameter `reply`; how keys and the subject are checked is a parameter too. The
-- goroutines of SendTo are a run whose steps are the launch of a delivery, once a slot is free, and
-- the end of one. The store's answer to a deletion changes only the log.
pub mod Fanout
use neokit.Base.{
  Bool, List, pos, ℕ, ℤ, ◌*◌, ◌++◌, Option, [], false, if◌then◌else◌, suc, true, ◌∷◌, ◌≡◌, ◌+◌,
  ◌==◌, leb, leb_ℤ, length, negsuc, none, ◌&&◌, ◌<◌, some, zero, ◌||◌, ltb, not,
}
use neokit.Clock.{Duration, second}
use neokit.Text.{Text}

pub record Subscription : Type 0 where
  pub endpoint : Text
  pub auth : Text
  pub p256dh : Text

-- What a delivery meets: no push service, a panic of the library, or a status.
pub data Reply : Type 0 where
  unreachable panicked : Reply
  answered : ℕ → Reply

pub record Options : Type 0 where
  pub subject : Text
  pub ttl_option : ℤ
  pub concurrency : ℤ
  pub timeout : Duration

pub record Sender : Type 0 where
  pub contact : Text
  pub ttl : ℤ
  pub limit : ℕ
  pub client_timeout : Duration

abbrev pub default_ttl : ℤ
default_ttl = pos 86400

abbrev pub default_concurrency : ℕ
default_concurrency = 8

abbrev pub default_timeout : Duration
default_timeout = pos (10 * second)

abbrev pub positive_or : ℤ → ℤ → ℤ
positive_or v default = if leb_ℤ v (pos 0) then default else v

abbrev pub slots : ℤ → ℕ
slots (pos zero) = default_concurrency
slots (pos (suc n)) = suc n
slots (negsuc n) = default_concurrency

-- New, of keys that validate or not, with NormalizeSubject.
unfoldable pub new_sender : Bool → (Text → Option Text) → Options → Option Sender
new_sender keys_valid normalize_subject o = elim (normalize_subject o.subject) [
  | none ↦ none
  | some contact ↦
      if not keys_valid
      then none
      else some (record {
        contact = contact;
        ttl = positive_or o.ttl_option default_ttl;
        limit = slots o.concurrency;
        client_timeout = positive_or o.timeout default_timeout;
      })
]

-- deliver: whether the push service accepted the message, and whether the subscription is retired.
unfoldable pub accepted : Reply → Bool
accepted unreachable = false
accepted panicked = false
accepted (answered status) = leb 200 status && ltb status 300

unfoldable pub gone : Reply → Bool
gone unreachable = false
gone panicked = false
gone (answered status) = status == 410 || status == 404

abbrev pub one_if : Bool → ℕ
one_if true = 1
one_if false = 0

-- A run of SendTo: those still to launch, those in flight, the tally, and what the store was told to
-- delete, newest first.
pub record Fan : Type 0 where
  pub waiting : List Subscription
  pub flying : List Subscription
  pub delivered : ℕ
  pub retired : List Text

abbrev pub start : List Subscription → Fan
start subs = record { waiting = subs; flying = []; delivered = 0; retired = [] }

abbrev pub launched : Subscription → List Subscription → Fan → Fan
launched s rest f = record f { waiting = rest; flying = s ∷ f.flying }

module _ (reply : Subscription → Reply) where
  unfoldable pub landed : List Subscription → Subscription → List Subscription → Fan → Fan
  unfolding accepted gone
  landed before s after f =
      let left = before ++ after in
      record f {
        flying = left;
        delivered = f.delivered + one_if (accepted (reply s));
        retired = if gone (reply s) then s.endpoint ∷ f.retired else f.retired;
      }

  -- The loop of SendTo launches in the order of the list, and waits while all slots are taken.
  pub data Step (limit : ℕ) : Fan → Fan → Type 0 where
    launches :
        (f : Fan) (s : Subscription) (rest : List Subscription)
        → f.waiting ≡ s ∷ rest
        → length f.flying < limit
        → Step limit f (launched s rest f)
    lands :
        (f : Fan) (before after : List Subscription) (s : Subscription)
        → f.flying ≡ before ++ s ∷ after
        → Step limit f (landed before s after f)

  pub data Reach (limit : ℕ) (subs : List Subscription) : Fan → Type 0 where
    begins : Reach limit subs (start subs)
    steps : {f f' : Fan} → Reach limit subs f → Step limit f f' → Reach limit subs f'
