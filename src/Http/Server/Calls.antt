-- ===== src/Http/Server/Calls.antt =====
-- What a request that is let through does: the service behind its handler.
use tonpayment.Base.{
  ℕ, suc, true, false, Option, none, some, [], ◌∷◌, ◌≡◌, ◌⊎◌, inl, inr, refl, sym, ap, ◌∙◌, subst,
  Bool-cases,
}
use tonpayment.Base.Int.{pos, leb_ℤ}
use tonpayment.Base.Text.{codes, text_eq}
use tonpayment.Base.Dict.{insert}
use tonpayment.Golib.Hex.{encode}
use tonpayment.Config.{is_prod, seconds}
use tonpayment.Store.Invoices.{Invoice}
use tonpayment.Store.Contract.{Store, IsStore, Keeping, SameLedger}
use tonpayment.Service.Program.{Prog, ret, Reply, done, failed}
use tonpayment.Service.Run.{World, run}
use tonpayment.Service.Status.{ledger, run-bind}
use tonpayment.Service.Create.{create}
use tonpayment.Service.Create.Asked.{Created}
use tonpayment.Service.Create.Outcomes.{create_sound}
use tonpayment.Service.Create.Allocate.{IsFresh}
use tonpayment.Http.Limiter.{RateLimiter, allow}
use tonpayment.Http.Message.{
  Request, Headers, Response, CreateRequest, invoice_body, decode_json, write_json, write_error,
}
use tonpayment.Http.Handlers.{
  Api, authorized, invoice_view, created_response, create_decoded, create_invoice,
}
use tonpayment.Http.Middleware.{shared_with, secured, wrap, client_ip}
use tonpayment.Http.Server.{invoices, endpoint, takes, plain, located, routes, serve, locate}

-- The headers that the routes go on from.
abbrev pub front : {S : Type 0} → Api → Request → World S → Headers
front a r w =
    shared_with a.cfg.allowed_origins (r.header (codes "Origin"))
      (secured (is_prod a.cfg) (insert (codes "X-Request-Id") (encode (w.entropy w.drawn 8)) []))

-- The world behind the draw of the request's id.
abbrev pub named : {S : Type 0} → World S → World S
named w = record w { drawn = suc w.drawn }

module _ {S : Type 0} (store : Store S) (w : World S) (a : Api) (r : Request) (now : ℕ)
    (rl : RateLimiter) where
  abbrev pub served : Response × World S
  served = run store ((serve a r now rl).0 []) w

  pub served-routes :
      text_eq r.method (codes "OPTIONS") ≡ false
      → served ≡ run store ((routes a r now rl).0 (front a r w)) (named w)
  unfolding serve run
  served-routes e = rw e refl

  -- A request to create an invoice, let through by the limiter.
  pub record IsAdmitted : Type 0 where
    pub posts : r.method ≡ codes "POST"
    pub path : r.segments ≡ codes "v1" ∷ codes "invoices" ∷ []
    pub within : (allow (client_ip r rl.trust_proxy) now rl).0 ≡ true

  routes-create : IsAdmitted → (routes a r now rl).0 ≡ create_invoice a r
  unfolding routes locate text_eq
  routes-create p =
      ap (λ o. (located a o r now rl).0) (ap locate p.path)
      ∙ unfold located in rw (takes_post) (unfold endpoint wrap plain in rw p.within refl)
    where
      takes_post : takes invoices r.method ≡ true
      takes_post = unfold takes text_eq in ap (λ m. text_eq m (codes "POST")) p.posts

  served-create : IsAdmitted → served ≡ run store (create_invoice a r (front a r w)) (named w)
  unfolding text_eq
  served-create p =
      served-routes (ap (λ m. text_eq m (codes "OPTIONS")) p.posts)
      ∙ ap (λ q. run store (q (front a r w)) (named w)) (routes-create p)

module _ {S : Type 0} (store : Store S) where
  -- A request to create an invoice is answered 201 with an invoice that was created as the body asks,
  -- or 400, and nothing has changed.
  abbrev pub Answers : Keeping → Api → Request → World S → Response × World S → Type 0
  Answers how a r w (x, w') =
      ((req : CreateRequest) × (new : Invoice) × (decode_json a.decode r.body ≡ some req)
        × (x.status ≡ 201)
        × (x.body ≡ invoice_body (invoice_view new))
        × Created store how a.service req.pay_to req.amount_nano (seconds req.ttl_seconds)
            req.metadata w (done new, w'))
      ⊎ ((x.status ≡ 400) × SameLedger (ledger store w) (ledger store w') × (w'.fired ≡ w.fired))

  from_reply :
      (how : Keeping) (a : Api) (r : Request) (h : Headers) (req : CreateRequest) (w : World S)
      (res : Reply × World S)
      → decode_json a.decode r.body ≡ some req
      → Created store how a.service req.pay_to req.amount_nano
          (seconds req.ttl_seconds)
          req.metadata
          w
          res
      → Answers how a r w (created_response h res.0, res.1)
  unfolding created_response write_json write_error
  from_reply how a r h req w (done new, w') e c = inl (req, new, e, refl, refl, c)
  from_reply how a r h req w (failed x, w') e c = inr (refl, c.0, c.1)

module _ {S : Type 0} (store : Store S) (Inv : S → Type 0) (how : Keeping)
    (laws : IsStore store Inv how) (a : Api) (r : Request) (h : Headers) (w : World S)
    (sound : Inv w.state) (fresh : IsFresh store w) where
  run-order :
      (req : CreateRequest)
      → decode_json a.decode r.body ≡ some req
      → Answers store how a r w (run store (create_decoded a h (some req)) w)
  unfolding create_decoded run write_error write_json
  run-order req e = elim (Bool-cases (leb_ℤ req.amount_nano (pos 0))) [
    | inl bad ↦ rw bad (inr (refl, λ j. refl, refl))
    | inr good ↦ rw good (
        subst (Answers store how a r w)
          (sym (run-bind store (order req) (λ reply. ret (created_response h reply)) w))
          (from_reply store how a r h req w (run store (order req) w) e (
            create_sound store Inv how laws a.service req.pay_to req.amount_nano
              (seconds req.ttl_seconds) req.metadata w sound fresh)))
  ]
    where
      order : CreateRequest → Prog Reply
      order req = create a.service req.pay_to req.amount_nano (seconds req.ttl_seconds) req.metadata

  run-decoded :
      (o : Option CreateRequest)
      → decode_json a.decode r.body ≡ o
      → Answers store how a r w (run store (create_decoded a h o) w)
  unfolding create_decoded run write_error write_json
  run-decoded none e = inr (refl, λ j. refl, refl)
  run-decoded (some req) e = run-order req e

  run-create : authorized a r ≡ true → Answers store how a r w (run store (create_invoice a r h) w)
  unfolding create_invoice
  run-create ok = rw ok (run-decoded (decode_json a.decode r.body) refl)

-- Over a store that meets its contract, with drawn ids that are not in use, a POST of an invoice that
-- the limiter lets through and that presents the key is answered in one of two ways: 201 with an
-- invoice that was created as the decoded body asks, the TTL taken in wrapped nanoseconds; or 400, and
-- then nothing is stored and nothing sent.
pub served-Answers :
    {S : Type 0} (store : Store S) (Inv : S → Type 0) (how : Keeping)
    → IsStore store Inv how
    → (w : World S) (a : Api) (r : Request) (now : ℕ) (rl : RateLimiter) → Inv w.state
    → IsFresh store (named w)
    → IsAdmitted store w a r now rl
    → authorized a r ≡ true
    → Answers store how a r (named w) (served store w a r now rl)
served-Answers store Inv how laws w a r now rl sound fresh p ok =
    subst (Answers store how a r (named w)) (sym (served-create store w a r now rl p))
      (run-create store Inv how laws a r (front a r w) (named w) sound fresh ok)
