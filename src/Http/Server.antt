-- ===== src/Http/Server.antt =====
-- `NewServer` and `routes` of internal/httpx/server.go, with the matching of `http.ServeMux`. Its
-- redirects of paths that are not clean, the timeouts and the limit on the size of the headers are left
-- out.
pub mod Guards
pub mod Kept
pub mod Hardened
pub mod Access
pub mod Calls
pub mod StatusCall
pub mod Tests
use tonpayment.Base.{
  ℕ, Bool, true, false, ◌&&◌, ◌||◌, not, Option, none, some, List, [], ◌∷◌, if◌then◌else◌,
}
use tonpayment.Base.Text.{Text, codes, text_eq, is_empty}
use tonpayment.Base.Dict.{insert}
use tonpayment.Config.{is_prod}
use tonpayment.Service.Program.{Prog, ret}
use tonpayment.Http.Message.{Request, Headers, Response, Handler, no_page, wrong_method, Body}
use tonpayment.Http.Limiter.{RateLimiter, new_rate_limiter}
use tonpayment.Http.Middleware.{request_id, security_headers, cors, wrap, chain}
use tonpayment.Http.Handlers.{
  Api, create_invoice, get_by_id, invoice_status, invoice_qr, auth, healthz,
}

-- The paths of the five patterns.
pub data Endpoint : Type 0 where
  health invoices : Endpoint
  invoice status qr : Text → Endpoint

is_invoices : Text → Text → Bool
is_invoices a b = text_eq a (codes "v1") && text_eq b (codes "invoices")

-- A wildcard matches one segment that is not empty.
unfoldable pub locate : List Text → Option Endpoint
unfolding is_invoices
locate [] = none
locate (a ∷ []) = if text_eq a (codes "healthz") then some health else none
locate (a ∷ b ∷ []) = if is_invoices a b then some invoices else none
locate (a ∷ b ∷ id ∷ []) = if is_invoices a b && not (is_empty id) then some (invoice id) else none
locate (a ∷ b ∷ id ∷ c ∷ []) =
    if is_invoices a b && not (is_empty id)
    then if text_eq c (codes "status")
      then some (status id)
      else if text_eq c (codes "qr")
      then some (qr id)
      else none
    else none
locate (a ∷ b ∷ id ∷ c ∷ d ∷ rest) = none

-- A pattern for GET serves HEAD too.
is_get : Text → Bool
is_get m = text_eq m (codes "GET") || text_eq m (codes "HEAD")

takes : Endpoint → Text → Bool
unfolding is_get
takes invoices m = text_eq m (codes "POST")
takes health m = is_get m
takes (invoice id) m = is_get m
takes (status id) m = is_get m
takes (qr id) m = is_get m

allowed_methods : Endpoint → Text
allowed_methods invoices = codes "POST"
allowed_methods health = codes "GET, HEAD"
allowed_methods (invoice id) = codes "GET, HEAD"
allowed_methods (status id) = codes "GET, HEAD"
allowed_methods (qr id) = codes "GET, HEAD"

plain : (Request → Headers → Prog Response) → Handler
plain p r now rl = (p r, rl)

unfoldable pub endpoint : Api → Endpoint → Handler
unfolding plain
endpoint a health = plain (λ r. healthz a)
endpoint a invoices = wrap (plain (create_invoice a))
endpoint a (invoice id) = plain (auth a (get_by_id id))
endpoint a (status id) = wrap (plain (auth a (invoice_status a id)))
endpoint a (qr id) = plain (λ r. auth a (invoice_qr a id r) r)

-- `http.Error`
error_page : ℕ → Body → Headers → Response
error_page code body h = record {
  status = code;
  headers =
      insert (codes "X-Content-Type-Options") (codes "nosniff")
        (insert (codes "Content-Type") (codes "text/plain; charset=utf-8") h);
  body = body;
}

not_allowed : Endpoint → Headers → Response
unfolding error_page allowed_methods
not_allowed e h = error_page 405 wrong_method (insert (codes "Allow") (allowed_methods e) h)

unfoldable pub located : Api → Option Endpoint → Handler
unfolding endpoint takes not_allowed error_page
located a none r now rl = (λ h. ret (error_page 404 no_page h), rl)
located a (some e) r now rl =
    if takes e r.method then endpoint a e r now rl else (λ h. ret (not_allowed e h), rl)

unfoldable pub routes : Api → Handler
unfolding located locate
routes a r now rl = located a (locate r.segments) r now rl

-- The limiter of a new server.
unfoldable pub new_limiter : Api → RateLimiter
new_limiter a = new_rate_limiter a.float (a.float.of_nat 5) (a.float.of_nat 40) a.cfg.trust_proxy

unfoldable pub serve : Api → Handler
unfolding routes chain request_id security_headers cors
serve a =
    chain (routes a)
      (request_id ∷ security_headers (is_prod a.cfg) ∷ cors a.cfg.allowed_origins ∷ [])
