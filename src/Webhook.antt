-- ===== src/Webhook.antt =====
-- internal/webhook/webhook.go: the signed delivery of a settled invoice, with retries. The goroutines of
-- the deliveries are in Webhook/InFlight.
pub mod Retries
pub mod InFlight
mod Tests
use tonpayment.Base.{
  ℕ, zero, suc, ◌*◌, Bool, true, false, not, ◌&&◌, Option, none, some, List, [], ◌∷◌, ◌++◌, ltb,
  leb, if◌then◌else◌,
}
use tonpayment.Base.Text.{Text, codes, is_empty}
use tonpayment.Golib.Hex
use tonpayment.Store.Invoices.{Invoice}

pub record Sender : Type 0 where
  pub url : Text
  pub secret : Text
  pub retries : ℕ

-- `crypto/hmac` over SHA-256, `json.Marshal` of an invoice, and the answers of the receiver: the status
-- of the n-th POST, counted from 1, of a body with its signature; none if the request cannot be made
-- or fails.
pub record Receiver : Type 0 where
  pub hmac_sha256 : Text → Text → List ℕ
  pub marshal : Invoice → Option Text
  pub post : Text → Text → Text → ℕ → Option ℕ

-- What a delivery did: its requests and its waits, in nanoseconds, in order, and whether one request
-- was accepted.
pub record Delivery : Type 0 where
  pub posts : List (Text × Text)
  pub waits : List ℕ
  pub is_delivered : Bool

abbrev pub first_backoff : ℕ
first_backoff = 500_000_000

abbrev pub max_backoff : ℕ
max_backoff = 30_000_000_000

unfoldable pub new_sender : Text → Text → Option Sender
new_sender url secret =
    if is_empty url then none else some (record { url = url; secret = secret; retries = 5 })

-- `attempt` fails on an error and on a status outside 200 to 299.
unfoldable pub is_accepted : Option ℕ → Bool
is_accepted none = false
is_accepted (some status) = leb 200 status && ltb status 300

unfoldable pub next_backoff : ℕ → ℕ
next_backoff backoff = if ltb max_backoff (backoff * 2) then max_backoff else backoff * 2

abbrev pub nothing_sent : Delivery
nothing_sent = record { posts = []; waits = []; is_delivered = false }

module _ (net : Receiver) where
  unfoldable pub signature : Sender → Text → Text
  signature s body =
      if is_empty s.secret
      then []
      else codes "sha256=" ++ Hex.encode (net.hmac_sha256 s.secret body)

  -- The loop from `attempt` on, with so many rounds left.
  unfoldable pub tries : Sender → Text → Text → ℕ → ℕ → ℕ → Delivery
  tries s body sig zero attempt backoff = nothing_sent
  tries s body sig (suc left) attempt backoff =
      let is_last = not (ltb attempt s.retries) in
      let rest =
        tries s body sig left (suc attempt) (if is_last then backoff else next_backoff backoff) in
      if is_accepted (net.post s.url body sig attempt)
      then record { posts = (body, sig) ∷ []; waits = []; is_delivered = true }
      else record rest {
        posts = (body, sig) ∷ rest.posts;
        waits = if is_last then rest.waits else backoff ∷ rest.waits;
      }

  unfoldable pub send : Sender → Option Text → Delivery
  unfolding tries signature
  send s none = nothing_sent
  send s (some body) = tries s body (signature s body) s.retries 1 first_backoff

  unfoldable pub deliver : Sender → Invoice → Delivery
  unfolding send
  deliver s inv = send s (net.marshal inv)

  -- A nil sender does nothing.
  unfoldable pub fire : Option Sender → Invoice → Delivery
  unfolding deliver
  fire none inv = nothing_sent
  fire (some s) inv = deliver s inv
