-- ===== src/Http/Message.antt =====
-- Requests and responses as the handlers of internal/httpx see them, with internal/httpx/respond.go.
-- JSON texts and error texts stand for themselves as data: the encoder is a library.
use tonpayment.Base.{
  ℕ, ◌^◌, Bool, false, not, ◌&&◌, ◌||◌, Option, none, some, List, [], ◌∷◌, ◌==◌, if◌then◌else◌,
  take,
}
use tonpayment.Base.Int.{ℤ}
use tonpayment.Base.Text.{Text, codes}
use tonpayment.Base.Dict.{Dict, insert}
use tonpayment.Store.Invoices.{Time, Status}
use tonpayment.Service.Program.{Prog, ServiceError}
use tonpayment.Http.Limiter.{RateLimiter}

pub record Request : Type 0 where
  pub method : Text
  -- the segments of a clean path, unescaped
  pub segments : List Text
  -- `r.Header.Get`: the first value under a name, and the empty text for none
  pub header : Text → Text
  -- `r.URL.Query().Get`
  pub query : Text → Text
  pub remote_addr : Text
  pub body : Text

-- The JSON shape of `invoiceView`.
pub record View : Type 0 where
  pub id : Text
  pub status : Status
  pub pay_to : Text
  pub memo : Text
  pub amount_nano : ℤ
  pub amount : Text
  pub currency : Text
  pub tx_hash : Text
  pub metadata : Dict Text
  pub deeplink : Text
  pub qr : Text
  pub created_at : Time
  pub paid_at : Time
  pub expires_at : Time

-- The messages of `writeError`.
pub data Cause : Type 0 where
  bad_api_key bad_json bad_amount not_found qr_failed rate_limited : Cause
  refused : ServiceError → Cause

pub data Body : Type 0 where
  nothing no_page wrong_method : Body
  error_body : Cause → Body
  invoice_body : View → Body
  health_body : Text → Body
  image : List ℕ → Body

abbrev pub Headers : Type 0
Headers = Dict Text

pub record Response : Type 0 where
  pub status : ℕ
  pub headers : Headers
  pub body : Body

-- A handler reads the clock of the limiter, and may change the limiter; it goes on from the headers
-- that are set, as a program of the service.
abbrev pub Handler : Type 0
Handler = Request → ℕ → RateLimiter → (Headers → Prog Response) × RateLimiter

unfoldable pub write_json : ℕ → Body → Headers → Response
write_json status body h = record {
  status = status;
  headers = insert (codes "Content-Type") (codes "application/json; charset=utf-8") h;
  body = body;
}

unfoldable pub write_error : ℕ → Cause → Headers → Response
unfolding write_json
write_error status cause h = write_json status (error_body cause) h

-- The body of a request to create an invoice.
pub record CreateRequest : Type 0 where
  pub pay_to : Text
  pub amount_nano : ℤ
  pub ttl_seconds : ℤ
  pub metadata : Dict Text

-- `dec.More()` at the rest of the input: something stands there that ends no array and no object.
more : Text → Bool
more [] = false
more (c ∷ s) =
    let rest = more s in
    if c == 32 || c == 9 || c == 10 || c == 13 then rest else not (c == b']') && not (c == b'}')

checked_rest : {A : Type 0} → Option (A × Text) → Option A
unfolding more
checked_rest none = none
checked_rest (some (v, rest)) = if more rest then none else some v

-- The decoder of `encoding/json` that refuses unknown fields is a parameter: it reads one value off
-- the first MiB of the body.
unfoldable pub decode_json : {A : Type 0} → (Text → Option (A × Text)) → Text → Option A
unfolding checked_rest
decode_json decode body = checked_rest (decode (take (2 ^ 20) body))
