-- ===== src/Http/Server/Kept.antt =====
-- The handlers go on from the headers that are set, and keep them.
use tonpayment.Base.{ℕ, Bool, true, false, Option, none, some, List, if◌then◌else◌}
use tonpayment.Base.Text.{Text}
use tonpayment.Base.Int.{pos, leb_ℤ}
use tonpayment.Config.{seconds}
use tonpayment.Service.Create.{create}
use tonpayment.Service.Settle.{check_status}
use tonpayment.Service.Program.{Prog, ret, Reply, done, failed, ◌>>=◌}
use tonpayment.Service.Returns.{Returns, Returns-bind}
use tonpayment.Http.Message.{
  Request, Headers, Response, Body, Cause, CreateRequest, write_json, write_error, bad_amount,
  bad_api_key, decode_json,
}
use tonpayment.Http.Handlers.{
  Api, authorized, created_response, create_decoded, create_invoice, found_response, get_by_id,
  status_response, invoice_status, rendered, qr_response, invoice_qr, auth,
}
use tonpayment.Http.Server.Guards.{IsHardened, insert_type, insert_cache}

-- What a decoded request asks of the service.
abbrev order : Api → CreateRequest → Prog Reply
order a req = create a.service req.pay_to req.amount_nano (seconds req.ttl_seconds) req.metadata

module _ (prod : Bool) (shared : Option Text) where
  abbrev pub Good : Headers → Type 0
  Good = IsHardened prod shared

  abbrev pub Fine : Response → Type 0
  Fine x = Good x.headers

  -- A program that goes on from good headers returns good ones.
  abbrev pub Keeps : (Headers → Prog Response) → Type 0
  Keeps p = (h : Headers) → Good h → Returns Fine (p h)

  pub write_json-Fine : (n : ℕ) (b : Body) (h : Headers) → Good h → Fine (write_json n b h)
  unfolding write_json
  write_json-Fine n b h g = insert_type prod shared _ h g

  pub write_error-Fine : (n : ℕ) (c : Cause) (h : Headers) → Good h → Fine (write_error n c h)
  unfolding write_error write_json
  write_error-Fine n c h g = insert_type prod shared _ h g

  if_Keeps :
      (b : Bool) (p q : Headers → Prog Response)
      → Keeps p
      → Keeps q
      → (h : Headers) → Good h
      → Returns Fine (if b then p h else q h)
  if_Keeps true p q hp hq = hp
  if_Keeps false p q hp hq = hq

  reply_Fine : (h : Headers) → Good h → (r : Reply) → Fine (created_response h r)
  unfolding created_response
  reply_Fine h g (done inv) = write_json-Fine _ _ h g
  reply_Fine h g (failed e) = write_error-Fine _ _ h g

  create_decoded-Keeps : (a : Api) (o : Option CreateRequest) → Keeps (λ h. create_decoded a h o)
  unfolding create_decoded
  create_decoded-Keeps a none h g = write_error-Fine _ _ h g
  create_decoded-Keeps a (some req) h g =
      if_Keeps (leb_ℤ req.amount_nano (pos 0)) (λ h. ret (write_error 400 bad_amount h))
        (λ h. order a req >>= λ reply. ret (created_response h reply))
        (λ h g. write_error-Fine _ _ h g)
        (λ h g. Returns-bind Fine (order a req) (created_response h) (reply_Fine h g)) h g

  pub create_invoice-Keeps : (a : Api) (r : Request) → Keeps (create_invoice a r)
  unfolding create_invoice
  create_invoice-Keeps a r h g =
      if_Keeps (authorized a r) (λ h. create_decoded a h (decode_json a.decode r.body))
        (λ h. ret (write_error 401 bad_api_key h))
        (create_decoded-Keeps a (decode_json a.decode r.body)) (λ h g. write_error-Fine _ _ h g) h g

  pub get_by_id-Keeps : (id : Text) → Keeps (get_by_id id)
  unfolding get_by_id found_response
  get_by_id-Keeps id h g none = write_error-Fine _ _ h g
  get_by_id-Keeps id h g (some inv) = write_json-Fine _ _ h g

  status_Fine : (h : Headers) → Good h → (r : Reply) → Fine (status_response h r)
  unfolding status_response
  status_Fine h g (done inv) = write_json-Fine _ _ h g
  status_Fine h g (failed e) = write_error-Fine _ _ h g

  pub invoice_status-Keeps : (a : Api) (id : Text) → Keeps (invoice_status a id)
  unfolding invoice_status
  invoice_status-Keeps a id h g =
      Returns-bind Fine (check_status a.service id) (status_response h) (status_Fine h g)

  rendered-Fine : (h : Headers) → Good h → (o : Option (List ℕ)) → Fine (rendered h o)
  unfolding rendered
  rendered-Fine h g none = write_error-Fine _ _ h g
  rendered-Fine h g (some png) = insert_cache prod shared _ _ (insert_type prod shared _ h g)

  pub invoice_qr-Keeps : (a : Api) (id : Text) (r : Request) → Keeps (invoice_qr a id r)
  unfolding invoice_qr qr_response
  invoice_qr-Keeps a id r h g none = write_error-Fine _ _ h g
  invoice_qr-Keeps a id r h g (some inv) = rendered-Fine h g _

  pub auth-Keeps :
      (a : Api) (p : Headers → Prog Response) (r : Request) → Keeps p → Keeps (auth a p r)
  unfolding auth
  auth-Keeps a p r k =
      if_Keeps (authorized a r) p (λ h. ret (write_error 401 bad_api_key h)) k
        (λ h g. write_error-Fine _ _ h g)
