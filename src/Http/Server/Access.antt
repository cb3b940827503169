-- ===== src/Http/Server/Access.antt =====
-- What a request without the API key gets.
use tonpayment.Base.{
  ℕ, suc, Bool, true, false, Option, none, some, [], ◌≡◌, ◌≢◌, refl, ap, if◌then◌else◌,
}
use tonpayment.Base.Text.{Text, codes, text_eq}
use tonpayment.Store.Contract.{Store}
use tonpayment.Service.Program.{Prog, ret, random}
use tonpayment.Service.Run.{World, run}
use tonpayment.Http.Limiter.{RateLimiter, allow}
use tonpayment.Http.Message.{
  Request, Headers, Response, Handler, Body, nothing, no_page, wrong_method, error_body,
  bad_api_key, rate_limited, write_json, write_error,
}
use tonpayment.Http.Handlers.{Api, authorized, create_invoice, auth}
use tonpayment.Http.Middleware.{wrap, client_ip, no_content}
use tonpayment.Http.Server.{
  Endpoint, health, invoices, invoice, status, qr, endpoint, takes, error_page, not_allowed,
  located, routes, serve, locate,
}

-- The key is missing or wrong; or there were too many requests, or no such page or method; or it is a
-- preflight request. No response of these shows anything of an invoice.
pub data IsRefusal : ℕ → Body → Type 0 where
  unauthorized : IsRefusal 401 (error_body bad_api_key)
  limited : IsRefusal 429 (error_body rate_limited)
  unknown_page : IsRefusal 404 no_page
  unknown_method : IsRefusal 405 wrong_method
  preflight : IsRefusal 204 nothing

-- The program refuses at once.
abbrev Refuses : Prog Response → Type 0
Refuses p = (x : Response) × (p ≡ ret x) × IsRefusal x.status x.body

abbrev AllRefused : (Headers → Prog Response) → Type 0
AllRefused p = (h : Headers) → Refuses (p h)

abbrev refuse : Headers → Response
refuse h = write_error 401 bad_api_key h

auth-Refuses :
    (a : Api) (p : Headers → Prog Response) (r : Request)
    → authorized a r ≡ false
    → AllRefused (auth a p r)
unfolding auth write_error write_json
auth-Refuses a p r n h = (refuse h, rw n refl, IsRefusal.unauthorized)

create_invoice-Refuses :
    (a : Api) (r : Request) → authorized a r ≡ false → AllRefused (create_invoice a r)
unfolding create_invoice write_error write_json
create_invoice-Refuses a r n h = (refuse h, rw n refl, IsRefusal.unauthorized)

wrap-Refuses :
    (next : Handler) (r : Request) (now : ℕ) (rl : RateLimiter)
    → ((rl' : RateLimiter) → AllRefused (next r now rl').0)
    → AllRefused (wrap next r now rl).0
unfolding wrap write_error write_json
wrap-Refuses next r now rl k = split (allow (client_ip r rl.trust_proxy) now rl).0
  where
    rl' : RateLimiter
    rl' = (allow (client_ip r rl.trust_proxy) now rl).1

    split :
        (ok : Bool)
        → AllRefused
            (if ok then next r now rl' else (λ h. ret (write_error 429 rate_limited h), rl')).0
    split true = k rl'
    split false = λ h. (write_error 429 rate_limited h, refl, IsRefusal.limited)

endpoint-Refuses :
    (a : Api) (e : Endpoint) (r : Request) (now : ℕ) (rl : RateLimiter)
    → authorized a r ≡ false
    → e ≢ health
    → AllRefused (endpoint a e r now rl).0
unfolding endpoint
endpoint-Refuses a health r now rl n other = absurd (other refl)
endpoint-Refuses a invoices r now rl n other =
    wrap-Refuses _ r now rl (λ rl'. create_invoice-Refuses a r n)
endpoint-Refuses a (invoice id) r now rl n other = auth-Refuses a _ r n
endpoint-Refuses a (status id) r now rl n other =
    wrap-Refuses _ r now rl (λ rl'. auth-Refuses a _ r n)
endpoint-Refuses a (qr id) r now rl n other = auth-Refuses a _ r n

some_health : {e : Endpoint} → some e ≢ some health → e ≢ health
some_health n e = n (ap some e)

located-Refuses :
    (a : Api) (o : Option Endpoint) (r : Request) (now : ℕ) (rl : RateLimiter)
    → authorized a r ≡ false
    → o ≢ some health
    → AllRefused (located a o r now rl).0
unfolding located not_allowed error_page
located-Refuses a none r now rl n other =
    λ h. (error_page 404 no_page h, refl, IsRefusal.unknown_page)
located-Refuses a (some e) r now rl n other = split (takes e r.method)
  where
    split :
        (b : Bool)
        → AllRefused (if b then endpoint a e r now rl else (λ h. ret (not_allowed e h), rl)).0
    split true = endpoint-Refuses a e r now rl n (some_health other)
    split false = λ h. (not_allowed e h, refl, IsRefusal.unknown_method)

-- Refused, without a call of the store, of the verifier or of the webhook: one draw of the random
-- source, for the id of the request, is all that happens.
abbrev pub IsRefused : {S : Type 0} → World S → Response × World S → Type 0
IsRefused w (x, w') = IsRefusal x.status x.body × (w' ≡ record w { drawn = suc w.drawn })

run-Refuses :
    {S : Type 0} (store : Store S) (w : World S) (k : Text → Prog Response)
    → ((bytes : Text) → Refuses (k bytes))
    → IsRefused w (run store (random 8 k) w)
unfolding run
run-Refuses store w k all =
    let (x, e, refusal) = all (w.entropy w.drawn 8) in rw (e, run) (refusal, refl)

preflight-Refuses :
    (b : Bool) (set : Headers → Headers) (next : (Headers → Prog Response) × RateLimiter)
    (rl : RateLimiter)
    → AllRefused next.0
    → AllRefused (
        let x : (Headers → Prog Response) × RateLimiter =
          if b then (λ h. no_content (set h), rl) else (λ h. next.0 (set h), next.1) in
        x.0)
unfolding no_content
preflight-Refuses true set next rl k =
    λ h. (record { status = 204; headers = set h; body = nothing }, refl, IsRefusal.preflight)
preflight-Refuses false set next rl k = λ h. k (set h)

-- A request that does not present the configured API key is refused on every path but that of the
-- health check, whatever the store, the chain and the limiter hold: the response shows nothing of an
-- invoice, and neither the store nor the verifier nor the webhook is called.
pub serve-IsRefused :
    {S : Type 0} (store : Store S) (w : World S) (a : Api) (r : Request) (now : ℕ)
    (rl : RateLimiter)
    → authorized a r ≡ false
    → locate r.segments ≢ some health
    → IsRefused w (run store ((serve a r now rl).0 []) w)
unfolding serve
serve-IsRefused store w a r now rl n other = run-Refuses store w _ (λ bytes.
    preflight-Refuses (text_eq r.method (codes "OPTIONS")) _ (routes a r now rl) rl
      (unfold routes in located-Refuses a (locate r.segments) r now rl n other) _)
