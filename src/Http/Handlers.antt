-- ===== src/Http/Handlers.antt =====
-- internal/httpx/handlers.go, and `auth` and `healthz` of internal/httpx/server.go.
use tonpayment.Base.{ℕ, Bool, true, Option, none, some, List, ◌++◌, if◌then◌else◌}
use tonpayment.Base.Int.{ℤ, pos, leb_ℤ}
use tonpayment.Base.Text.{Text, codes, text_eq, is_empty}
use tonpayment.Base.Dict.{insert}
use tonpayment.Golib.Strings.{trim_prefix}
use tonpayment.Golib.Net.{atoi_value}
use tonpayment.Money.{nano_to_ton_string}
use tonpayment.Deeplink
use tonpayment.Config
use tonpayment.Config.{seconds}
use tonpayment.Store.Invoices.{Invoice}
use tonpayment.Service.Program.{Prog, ret, get_invoice, ◌>>=◌, Service, Reply, done, failed}
use tonpayment.Service.Create.{create}
use tonpayment.Service.Settle.{check_status}
use tonpayment.Http.Limiter.{Float64}
use tonpayment.Http.Message.{
  Request, Headers, View, Response, CreateRequest, invoice_body, health_body, image, bad_api_key,
  bad_json, bad_amount, not_found, qr_failed, refused, write_json, write_error, decode_json,
}

-- The struct `api` with its services; the JSON decoder, the QR encoder and the arithmetic of float64 are
-- parameters.
pub record Api : Type 0 where
  pub cfg : Config.Config
  pub service : Service
  pub decode : Text → Option (CreateRequest × Text)
  pub qr_encode : Text → ℤ → Option (List ℕ)
  pub float : Float64

unfoldable pub invoice_view : Invoice → View
invoice_view inv = record {
  id = inv.id;
  status = inv.status;
  pay_to = inv.pay_to;
  memo = inv.memo;
  amount_nano = inv.amount_nano;
  amount = nano_to_ton_string inv.amount_nano;
  currency = inv.currency;
  tx_hash = inv.tx_hash;
  metadata = inv.metadata;
  deeplink = Deeplink.build inv.pay_to inv.amount_nano inv.memo;
  qr = codes "/v1/invoices/" ++ (inv.id ++ codes "/qr");
  created_at = inv.created_at;
  paid_at = inv.paid_at;
  expires_at = inv.expires_at;
}

-- The key that the request presents.
presented_key : Request → Text
presented_key r =
    let got = r.header (codes "X-API-Key") in
    if is_empty got then trim_prefix (codes "Bearer ") (r.header (codes "Authorization")) else got

unfoldable pub authorized : Api → Request → Bool
unfolding presented_key
authorized a r =
    let want = a.cfg.create_api_key in
    if is_empty want then true else text_eq (presented_key r) want

unfoldable pub created_response : Headers → Reply → Response
created_response h (done inv) = write_json 201 (invoice_body (invoice_view inv)) h
created_response h (failed e) = write_error 400 (refused e) h

unfoldable pub create_decoded : Api → Headers → Option CreateRequest → Prog Response
unfolding created_response ◌>>=◌
create_decoded a h none = ret (write_error 400 bad_json h)
create_decoded a h (some req) =
    if leb_ℤ req.amount_nano (pos 0)
    then ret (write_error 400 bad_amount h)
    else create a.service req.pay_to req.amount_nano (seconds req.ttl_seconds) req.metadata
      >>= λ reply. ret (created_response h reply)

unfoldable pub create_invoice : Api → Request → Headers → Prog Response
unfolding create_decoded authorized decode_json
create_invoice a r h =
    if authorized a r
    then create_decoded a h (decode_json a.decode r.body)
    else ret (write_error 401 bad_api_key h)

unfoldable pub found_response : Headers → Option Invoice → Response
found_response h none = write_error 404 not_found h
found_response h (some inv) = write_json 200 (invoice_body (invoice_view inv)) h

unfoldable pub get_by_id : Text → Headers → Prog Response
unfolding found_response
get_by_id id h = get_invoice id λ o. ret (found_response h o)

unfoldable pub status_response : Headers → Reply → Response
status_response h (done inv) = write_json 200 (invoice_body (invoice_view inv)) h
status_response h (failed e) = write_error 404 not_found h

unfoldable pub invoice_status : Api → Text → Headers → Prog Response
unfolding status_response ◌>>=◌
invoice_status a id h = check_status a.service id >>= λ reply. ret (status_response h reply)

unfoldable pub rendered : Headers → Option (List ℕ) → Response
rendered h none = write_error 500 qr_failed h
rendered h (some png) = record {
  status = 200;
  headers =
      insert (codes "Cache-Control") (codes "no-store")
        (insert (codes "Content-Type") (codes "image/png") h);
  body = image png;
}

unfoldable pub qr_response : Api → Request → Headers → Option Invoice → Response
unfolding rendered
qr_response a r h none = write_error 404 not_found h
qr_response a r h (some inv) = rendered h (
    Deeplink.png a.qr_encode (Deeplink.build inv.pay_to inv.amount_nano inv.memo)
      (atoi_value (r.query (codes "size"))))

unfoldable pub invoice_qr : Api → Text → Request → Headers → Prog Response
unfolding qr_response
invoice_qr a id r h = get_invoice id λ o. ret (qr_response a r h o)

unfoldable pub auth : Api → (Headers → Prog Response) → Request → Headers → Prog Response
unfolding authorized
auth a next r h = if authorized a r then next h else ret (write_error 401 bad_api_key h)

unfoldable pub healthz : Api → Headers → Prog Response
healthz a h = ret (write_json 200 (health_body a.cfg.env) h)
