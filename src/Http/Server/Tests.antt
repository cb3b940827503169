-- ===== src/Http/Server/Tests.antt =====
-- Requests to a server with a key, over the in-memory store.
use tonpayment.Base.{true, false, some, List, [], ◌∷◌, ◌≡◌, ◌≢◌, refl}
use tonpayment.Base.Int.{pos}
use tonpayment.Base.Text.{Text, codes, text_eq}
use tonpayment.Base.Dict.{lookup}
use tonpayment.Golib.Strings.{trim_prefix}
use tonpayment.Store.Contract.{exactly}
use tonpayment.Config
use tonpayment.Config.{is_prod}
use tonpayment.Store.Memory.{memory_store, get_invoice}
use tonpayment.Store.Memory.Tests.{files, empty_memory-IsIndexed, one_invoice-IsIndexed}
use tonpayment.Store.Memory.Invariant.{IsIndexed}
use tonpayment.Store.Memory.Refines.{memory-IsStore}
use tonpayment.Service.Run.{run}
use tonpayment.Service.Create.Allocate.{IsFresh}
use tonpayment.Service.Tests.{store, service, fresh_world, world, yes, id}
use tonpayment.Http.Limiter.{allow}
use tonpayment.Http.Limiter.Tests.{billionths, limiter}
use tonpayment.Http.Message.{Request, CreateRequest}
use tonpayment.Http.Handlers.{Api, authorized}
use tonpayment.Http.Middleware.{client_ip}
use tonpayment.Http.Server.{serve, locate, health}
use tonpayment.Http.Server.Guards.{IsHardened, sharing}
use tonpayment.Http.Server.Hardened.{serve-IsHardened}
use tonpayment.Http.Server.Access.{IsRefused, serve-IsRefused}
use tonpayment.Http.Server.Calls.{named, served, Answers, served-Answers}
use tonpayment.Http.Server.StatusCall.{AsksStatus, Shows, served-Shows}

abbrev cfg : Config.Config
cfg = record {
  addr = codes ":8080";
  env = codes "prod";
  allowed_origins = codes "https://shop.example" ∷ [];
  database_url = [];
  data_dir = codes "data";
  trust_proxy = false;
  ton_receiving = codes "UQ";
  ton_api_base = codes "https://toncenter.com/api/v2";
  ton_api_key = [];
  network = codes "mainnet";
  default_ttl = pos 900_000_000_000;
  create_api_key = codes "k1";
  max_ttl = pos 86_400_000_000_000;
  max_pending = pos 0;
  max_pending_per_addr = pos 0;
  poll_enabled = true;
  poll_interval = pos 10_000_000_000;
  poll_concurrency = pos 4;
  webhook_url = [];
  webhook_secret = [];
}

abbrev asked : CreateRequest
asked = record { pay_to = []; amount_nano = pos 5; ttl_seconds = pos 60; metadata = [] }

abbrev api : Api
api = record {
  cfg = cfg;
  service = service;
  decode = λ body. some (asked, []);
  qr_encode = λ content size. some [];
  float = billionths;
}

abbrev pub with_key : Text → Text → Text
with_key key name = elim (text_eq name (codes "Authorization")) [ true ↦ key | false ↦ [] ]

abbrev pub request : Text → Text → List Text → Request
request key method path = record {
  method = method;
  segments = path;
  header = with_key key;
  query = λ k. [];
  remote_addr = codes "10.0.0.7:5555";
  body = codes "{}";
}

abbrev post : Text → Request
post key = request key (codes "POST") (codes "v1" ∷ codes "invoices" ∷ [])

abbrev pub ask : Request
ask =
    request (codes "Bearer k1") (codes "GET")
      (codes "v1" ∷ codes "invoices" ∷ id ∷ codes "status" ∷ [])

serve-IsHardened_example :
    IsHardened
      (is_prod cfg)
      (sharing cfg.allowed_origins [])
      (run store ((serve api (post (codes "k")) 9 limiter).0 []) fresh_world).0.headers
unfolding text_eq
serve-IsHardened_example = serve-IsHardened store fresh_world api (post (codes "k")) 9 limiter

wrong_key : authorized api (post (codes "Bearer k2")) ≡ false
unfolding authorized trim_prefix text_eq
wrong_key = refl

not_health : locate (post (codes "Bearer k2")).segments ≢ some health
unfolding locate text_eq
not_health e = cc

serve-IsRefused_example :
    IsRefused fresh_world
      (run store ((serve api (post (codes "Bearer k2")) 9 limiter).0 []) fresh_world)
serve-IsRefused_example =
    serve-IsRefused store fresh_world api (post (codes "Bearer k2")) 9 limiter wrong_key not_health

right_key : authorized api (post (codes "Bearer k1")) ≡ true
unfolding authorized trim_prefix text_eq
right_key = refl

let_through : (allow (client_ip (post (codes "Bearer k1")) false) 9 limiter).0 ≡ true
unfolding allow lookup
let_through = refl

named-IsFresh : IsFresh store (named fresh_world)
unfolding memory_store get_invoice lookup
named-IsFresh n = refl

served-Answers_example :
    Answers store exactly api
      (post (codes "Bearer k1"))
      (named fresh_world)
      (served store fresh_world api (post (codes "Bearer k1")) 9 limiter)
served-Answers_example =
    served-Answers store (λ s. IsIndexed s.0) exactly (memory-IsStore files) fresh_world api
      (post (codes "Bearer k1")) 9 limiter empty_memory-IsIndexed named-IsFresh
      (record { posts = refl; path = refl; within = let_through }) right_key

asks : AsksStatus id api ask 9 limiter
unfolding authorized trim_prefix text_eq
asks = record {
  gets = refl;
  path = refl;
  named_id = refl;
  key = refl;
  within = unfold allow lookup in refl;
}

served-Shows_example :
    Shows store exactly id (named (world yes 150)) (served store (world yes 150) api ask 9 limiter)
served-Shows_example =
    served-Shows store (λ s. IsIndexed s.0) exactly (memory-IsStore files) (world yes 150) id api
      ask 9 limiter one_invoice-IsIndexed asks
