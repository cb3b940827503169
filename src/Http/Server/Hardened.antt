-- ===== src/Http/Server/Hardened.antt =====
-- The headers of every response, from whatever handler.
use tonpayment.Base.{
  ℕ, Bool, true, false, ◌&&◌, not, Option, none, some, List, [], refl, if◌then◌else◌, Bool-cases,
  inl, inr,
}
use tonpayment.Base.Text.{Text, codes, text_eq, is_empty}
use tonpayment.Base.Dict.{lookup, insert}
use tonpayment.Golib.Hex.{encode}
use tonpayment.Config.{is_prod}
use tonpayment.Store.Contract.{Store}
use tonpayment.Service.Program.{Prog, ret}
use tonpayment.Service.Run.{World, run}
use tonpayment.Service.Returns.{Returns, run-Returns}
use tonpayment.Http.Limiter.{RateLimiter, allow}
use tonpayment.Http.Message.{
  Request, Headers, Response, Handler, Body, write_error, no_page, wrong_method, rate_limited,
}
use tonpayment.Http.Handlers.{Api, healthz}
use tonpayment.Http.Middleware.{secured, is_listed, shared_with, no_content, wrap, client_ip}
use tonpayment.Http.Server.{
  Endpoint, health, invoices, invoice, status, qr, endpoint, takes, error_page, not_allowed,
  located, routes, serve, locate, allowed_methods,
}
use tonpayment.Http.Server.Guards.{IsHardened, sharing, insert_nosniff, insert_type, insert_allow}
use tonpayment.Http.Server.Kept.{
  Good, Fine, Keeps, write_json-Fine, write_error-Fine, create_invoice-Keeps, get_by_id-Keeps,
  invoice_status-Keeps, invoice_qr-Keeps, auth-Keeps,
}

module _ (prod : Bool) (shared : Option Text) where
  wrap-Keeps :
      (next : Handler) (r : Request) (now : ℕ) (rl : RateLimiter)
      → ((rl' : RateLimiter) → Keeps prod shared (next r now rl').0)
      → Keeps prod shared (wrap next r now rl).0
  unfolding wrap
  wrap-Keeps next r now rl k h g = split (allow _ now rl).0
    where
      split :
          (ok : Bool)
          → Returns (Fine prod shared) (
              (if ok then next r now (allow (client_ip r rl.trust_proxy) now rl).1 else (
                λ h. ret (write_error 429 rate_limited h),
                (allow (client_ip r rl.trust_proxy) now rl).1,
              )).0
                h)
      split true = k _ h g
      split false = write_error-Fine prod shared _ _ h g

  endpoint-Keeps :
      (a : Api) (e : Endpoint) (r : Request) (now : ℕ) (rl : RateLimiter)
      → Keeps prod shared (endpoint a e r now rl).0
  unfolding endpoint
  endpoint-Keeps a health r now rl = unfold healthz in λ h g. write_json-Fine prod shared _ _ h g
  endpoint-Keeps a invoices r now rl =
      wrap-Keeps _ r now rl (λ rl'. create_invoice-Keeps prod shared a r)
  endpoint-Keeps a (invoice id) r now rl =
      auth-Keeps prod shared a _ r (get_by_id-Keeps prod shared id)
  endpoint-Keeps a (status id) r now rl =
      wrap-Keeps _ r now rl
        (λ rl'. auth-Keeps prod shared a _ r (invoice_status-Keeps prod shared a id))
  endpoint-Keeps a (qr id) r now rl =
      auth-Keeps prod shared a _ r (invoice_qr-Keeps prod shared a id r)

  error_page-Fine :
      (n : ℕ) (b : Body) (h : Headers) → Good prod shared h → Fine prod shared (error_page n b h)
  unfolding error_page
  error_page-Fine n b h g = insert_nosniff prod shared _ (insert_type prod shared _ h g)

  located-Keeps :
      (a : Api) (o : Option Endpoint) (r : Request) (now : ℕ) (rl : RateLimiter)
      → Keeps prod shared (located a o r now rl).0
  unfolding located not_allowed
  located-Keeps a none r now rl h g = error_page-Fine 404 no_page h g
  located-Keeps a (some e) r now rl h g = split (takes e r.method) h g
    where
      split :
          (b : Bool)
          → Keeps prod shared
              (if b then endpoint a e r now rl else (λ h. ret (not_allowed e h), rl)).0
      split true = endpoint-Keeps a e r now rl
      split false = λ h g.
          error_page-Fine 405 wrong_method (insert (codes "Allow") (allowed_methods e) h)
            (insert_allow prod shared (allowed_methods e) h g)

-- What is set in front of the routes.
before_routes :
    (prod : Bool) (allowed : List Text) (origin bytes : Text)
    → IsHardened prod
        (sharing allowed origin)
        (shared_with allowed origin (secured prod (insert (codes "X-Request-Id") bytes [])))
unfolding shared_with secured lookup insert text_eq
before_routes true allowed origin bytes =
    elim (Bool-cases (not (is_empty origin) && is_listed origin allowed)) [
      | inl e ↦ rw e (record {
        identified = (bytes, refl);
        nosniff = refl;
        framed = refl;
        referrer = refl;
        transport = λ _. refl;
        origin = refl;
      })
      | inr e ↦ rw e (record {
        identified = (bytes, refl);
        nosniff = refl;
        framed = refl;
        referrer = refl;
        transport = λ _. refl;
        origin = refl;
      })
    ]
before_routes false allowed origin bytes =
    elim (Bool-cases (not (is_empty origin) && is_listed origin allowed)) [
      | inl e ↦ rw e (record {
        identified = (bytes, refl);
        nosniff = refl;
        framed = refl;
        referrer = refl;
        transport = λ p. cc;
        origin = refl;
      })
      | inr e ↦ rw e (record {
        identified = (bytes, refl);
        nosniff = refl;
        framed = refl;
        referrer = refl;
        transport = λ p. cc;
        origin = refl;
      })
    ]

abbrev branch :
    Bool
    → (Headers → Prog Response) × RateLimiter
    → (Headers → Prog Response) × RateLimiter
    → (Headers → Prog Response) × RateLimiter
branch b p q = if b then p else q

-- The two ways behind the CORS middleware: the answer to a preflight request, and the routes.
preflight_Keeps :
    (prod : Bool) (shared : Option Text) (b : Bool) (set : Headers → Headers)
    (p : Headers → Prog Response) (rl rl' : RateLimiter)
    → Keeps prod shared p
    → (h : Headers) → IsHardened prod shared (set h)
    → Returns
        (Fine prod shared)
        ((branch b (λ h. no_content (set h), rl) (λ h. p (set h), rl')).0 h)
unfolding no_content
preflight_Keeps prod shared true set p rl rl' k h g = g
preflight_Keeps prod shared false set p rl rl' k h g = k (set h) g

-- Every response, of whatever request, store and state of the limiter, errors and preflight answers
-- included, names its request, forbids sniffing, framing and referrers, asks for transport security
-- in production, and is shared with exactly the origin of the request if the configuration lists it
-- and with no origin otherwise.
pub serve-IsHardened :
    {S : Type 0} (store : Store S) (w : World S) (a : Api) (r : Request) (now : ℕ)
    (rl : RateLimiter)
    → IsHardened
        (is_prod a.cfg)
        (sharing a.cfg.allowed_origins (r.header (codes "Origin")))
        (run store ((serve a r now rl).0 []) w).0.headers
unfolding serve
serve-IsHardened store w a r now rl =
    run-Returns (Fine prod shared) store ((serve a r now rl).0 []) w (λ bytes.
      preflight_Keeps prod shared (text_eq r.method (codes "OPTIONS"))
        (shared_with a.cfg.allowed_origins (r.header (codes "Origin"))) (routes a r now rl).0 rl _
        (unfold routes in located-Keeps prod shared a (locate r.segments) r now rl)
        (secured prod (insert (codes "X-Request-Id") (encode bytes) []))
        (before_routes prod a.cfg.allowed_origins (r.header (codes "Origin")) (encode bytes)))
  where
    prod : Bool
    prod = is_prod a.cfg

    shared : Option Text
    shared = sharing a.cfg.allowed_origins (r.header (codes "Origin"))
