-- ===== src/Http/Server/StatusCall.antt =====
-- The status endpoint: a check of the service behind the routes.
use tonpayment.Base.{
  ℕ, true, false, some, [], ◌∷◌, ◌≡◌, ◌≢◌, ◌⊎◌, inl, inr, refl, sym, ap, ◌∙◌, subst,
}
use tonpayment.Base.Text.{Text, codes, text_eq, is_empty}
use tonpayment.Store.Invoices.{Invoice}
use tonpayment.Store.Contract.{Store, IsStore, Keeping, SameLedger}
use tonpayment.Service.Program.{ret, Reply, done, failed}
use tonpayment.Service.Run.{World, run}
use tonpayment.Service.Settle.{check_status}
use tonpayment.Service.Status.{ledger, run-bind}
use tonpayment.Service.Status.Reported.{AsKept, Reported, checked-Reported}
use tonpayment.Http.Limiter.{RateLimiter, allow}
use tonpayment.Http.Message.{
  Request, Headers, Response, invoice_body, error_body, not_found, write_json, write_error,
}
use tonpayment.Http.Handlers.{Api, authorized, invoice_view, status_response, invoice_status, auth}
use tonpayment.Http.Middleware.{wrap, client_ip}
use tonpayment.Http.Server.{status, endpoint, takes, plain, located, routes, locate}
use tonpayment.Http.Server.Calls.{front, named, served, served-routes}

-- A request for the status of an invoice that presents the key and is let through by the limiter.
pub record AsksStatus (id : Text) (a : Api) (r : Request) (now : ℕ) (rl : RateLimiter)
    : Type 0 where
  pub gets : r.method ≡ codes "GET"
  pub path : r.segments ≡ codes "v1" ∷ codes "invoices" ∷ id ∷ codes "status" ∷ []
  pub named_id : is_empty id ≡ false
  pub key : authorized a r ≡ true
  pub within : (allow (client_ip r rl.trust_proxy) now rl).0 ≡ true

module _ {S : Type 0} (store : Store S) where
  -- The invoice is shown as the store then holds it, up to the time of its settlement, and no other has changed; or the answer is 404,
  -- and nothing has changed.
  abbrev pub Shows : Keeping → Text → World S → Response × World S → Type 0
  Shows how id w (x, w') =
      ((inv : Invoice) × (cur : Invoice) × (x.status ≡ 200)
        × (x.body ≡ invoice_body (invoice_view inv))
        × (ledger store w' id ≡ some cur)
        × AsKept how inv cur
        × ((j : Text) → j ≢ id → ledger store w' j ≡ ledger store w j))
      ⊎ ((x.status ≡ 404)
          × (x.body ≡ error_body not_found)
          × SameLedger (ledger store w) (ledger store w')
          × (w'.fired ≡ w.fired))

  shown :
      (how : Keeping) (id : Text) (h : Headers) (w : World S) (res : Reply × World S)
      → Reported store how id w res
      → Shows how id w (status_response h res.0, res.1)
  unfolding status_response write_json write_error
  shown how id h w (done inv, w') (cur, at, k, others) = inl (inv, cur, refl, refl, at, k, others)
  shown how id h w (failed x, w') c = inr (refl, refl, c.0, c.1)

  run-status :
      (Inv : S → Type 0) (how : Keeping)
      → IsStore store Inv how
      → (a : Api) (id : Text) (h : Headers) (w : World S) → Inv w.state
      → Shows how id w (run store (invoice_status a id h) w)
  unfolding invoice_status run
  run-status Inv how laws a id h w sound =
      subst (Shows how id w)
        (sym
          (run-bind store (check_status a.service id) (λ reply. ret (status_response h reply)) w))
        (shown how id h w _ (checked-Reported store Inv how laws a.service id w sound))

module _ {S : Type 0} (store : Store S) (w : World S) (id : Text) (a : Api) (r : Request) (now : ℕ)
    (rl : RateLimiter) (p : AsksStatus id a r now rl) where
  located_status :
      locate (codes "v1" ∷ codes "invoices" ∷ id ∷ codes "status" ∷ []) ≡ some (status id)
  unfolding locate text_eq
  located_status = rw p.named_id refl

  takes_get : takes (status id) r.method ≡ true
  takes_get = rw p.gets (unfold takes text_eq in refl)

  routes-status : (h : Headers) → (routes a r now rl).0 h ≡ invoice_status a id h
  unfolding routes
  routes-status h =
      ap (λ o. (located a o r now rl).0 h) (ap locate p.path ∙ located_status)
      ∙ unfold located in
        rw takes_get (unfold endpoint wrap plain in rw p.within (unfold auth in rw p.key refl))

  served-status :
      served store w a r now rl ≡ run store (invoice_status a id (front a r w)) (named w)
  unfolding text_eq
  served-status =
      served-routes store w a r now rl (ap (λ m. text_eq m (codes "OPTIONS")) p.gets)
      ∙ ap (λ q. run store q (named w)) (routes-status (front a r w))

-- Over a store that meets its contract, a GET of the status of an invoice that presents the key and is
-- let through by the limiter is answered 200 with the invoice as the store holds it after the check,
-- its time of settlement up to the store's resolution, no other invoice being changed; or 404, and then nothing is changed and nothing sent.
pub served-Shows :
    {S : Type 0} (store : Store S) (Inv : S → Type 0) (how : Keeping)
    → IsStore store Inv how
    → (w : World S) (id : Text) (a : Api) (r : Request) (now : ℕ) (rl : RateLimiter) → Inv w.state
    → AsksStatus id a r now rl
    → Shows store how id (named w) (served store w a r now rl)
served-Shows store Inv how laws w id a r now rl sound p =
    subst (Shows store how id (named w)) (sym (served-status store w id a r now rl p))
      (run-status store Inv how laws a id (front a r w) (named w) sound)
