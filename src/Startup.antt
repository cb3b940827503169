-- ===== src/Startup.antt =====
-- cmd/server: the gates of validate.go and the wiring of main.go, up to the server's start.
pub mod Gates
pub mod Shutdown
mod Tests
use tonpayment.Base.{
  ℕ, Bool, true, false, not, ◌&&◌, ◌||◌, Option, none, some, List, [], ◌∷◌, map, if◌then◌else◌,
}
use tonpayment.Base.Text.{Text, codes, is_empty, text_eq}
use tonpayment.Golib.Strings.{cut_prefix}
use tonpayment.Tonaddr
use tonpayment.Tonaddr.{normalize_on_network}
use tonpayment.Config.{Config, is_prod, is_testnet, lower}
use tonpayment.Wallet.Ton.{TonVerifier}
use tonpayment.Wallet.Mock.{MockVerifier, new_mock_verifier}
use tonpayment.Base.Int.{ℤ, pos}
use tonpayment.Webhook.{Sender, new_sender}
use tonpayment.Service.Program.{Service}
use tonpayment.Service.Setup

pub data Refusal : Type 0 where
  open_minter file_store unsigned_webhook cleartext_webhook : Refusal

is_some : {A : Type 0} → Option A → Bool
is_some none = false
is_some (some a) = true

-- `strings.HasPrefix(strings.ToLower(url), "https://")`: each of these eight characters is the lower
-- case of ASCII characters only.
unfoldable pub is_https : Text → Bool
unfolding is_some
is_https url = is_some (cut_prefix (codes "https://") (map lower url))

check_webhook : Config → Option Refusal
unfolding is_https
check_webhook cfg =
    if is_empty cfg.webhook_url
    then none
    else if is_empty cfg.webhook_secret
    then some unsigned_webhook
    else if is_https cfg.webhook_url
    then none
    else some cleartext_webhook

-- `allow_file_store` is the value of TON_ALLOW_FILE_STORE.
pub validate : Config → Text → Option Refusal
unfolding check_webhook
validate cfg allow_file_store =
    if not (is_prod cfg)
    then none
    else if is_empty cfg.ton_receiving && is_empty cfg.create_api_key
    then some open_minter
    else if is_empty cfg.database_url && not (text_eq allow_file_store (codes "1"))
    then some file_store
    else check_webhook cfg

-- The receiving address in canonical form; a malformed one stops the program in production, and is
-- kept elsewhere.
receiving : Config → Tonaddr.Checked Text → Option Text
receiving cfg (Tonaddr.valid norm) = some norm
receiving cfg (Tonaddr.invalid e) = if is_prod cfg then none else some cfg.ton_receiving

pub receiving_address : Config → Option Text
unfolding receiving
receiving_address cfg =
    if is_empty cfg.ton_receiving
    then some []
    else receiving cfg (normalize_on_network cfg.ton_receiving (is_testnet cfg))

pub data Verifier : Type 0 where
  toncenter : TonVerifier → Verifier
  mock : MockVerifier → Verifier

pub data Backend : Type 0 where
  postgres : Text → Backend
  memory : Text → Backend

-- What runs once the program has started.
pub record Started : Type 0 where
  pub backend : Backend
  pub verifier : Verifier
  pub sender : Option Sender
  pub service : Service

choose_verifier : Config → Verifier
choose_verifier cfg =
    if is_prod cfg
    then toncenter (record { api_base = cfg.ton_api_base; api_key = cfg.ton_api_key })
    else mock (new_mock_verifier (pos 2))

choose_backend : Config → Backend
choose_backend cfg =
    if is_empty cfg.database_url then memory cfg.data_dir else postgres cfg.database_url

wire : Config → Text → Started
unfolding choose_verifier choose_backend is_some
wire cfg address =
    let sender = new_sender cfg.webhook_url cfg.webhook_secret in
    record {
      backend = choose_backend cfg;
      verifier = choose_verifier cfg;
      sender = sender;
      service = Setup.set_network (is_testnet cfg) (
          Setup.set_limits cfg.max_ttl cfg.max_pending cfg.max_pending_per_addr
            (Setup.new address cfg.default_ttl (is_some sender)));
    }

-- None where the program logs a fatal error. Opening the store may fail too, which is not modelled.
pub start : Config → Text → Option Started
unfolding validate receiving_address wire
start cfg allow_file_store = elim (validate cfg allow_file_store) [
  | some refusal ↦ none
  | none ↦ elim (receiving_address cfg) [ none ↦ none | some address ↦ some (wire cfg address) ]
]
