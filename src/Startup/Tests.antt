-- ===== src/Startup/Tests.antt =====
-- A production environment, and the program that starts in it.
use tonpayment.Base.{true, false, none, some, [], ◌∷◌, ◌≡◌, refl}
use tonpayment.Base.Int.{pos}
use tonpayment.Base.Text.{Text, codes, text_eq}
use tonpayment.Base.Dict.{Dict, lookup}
use tonpayment.Golib.Strings.{cut_prefix}
use tonpayment.Golib.Strconv.{parse_int}
use tonpayment.Tonaddr.Tests.{masterchain_text, on_mainnet}
use tonpayment.Config.{Config, load, is_prod, is_testnet, lower}
use tonpayment.Webhook.{new_sender}
use tonpayment.Service.Setup
use tonpayment.Startup.{Started, start, toncenter, memory, is_https, receiving_address}
use tonpayment.Startup.Gates.{IsSafe, start-IsSafe}

abbrev variables : Dict Text
variables =
    (codes "TON_ENV", codes "prod")
    ∷ (codes "TON_RECEIVING_ADDRESS", masterchain_text)
    ∷ (codes "TON_WEBHOOK_URL", codes "HTTPS://shop.example")
    ∷ (codes "TON_WEBHOOK_SECRET", codes "k")
    ∷ (codes "TON_MAX_TTL_SECONDS", codes "3600")
    ∷ (codes "TON_MAX_PENDING", codes "many")
    ∷ []

abbrev os_getenv : Text → Text
os_getenv k = elim (lookup k variables) [ none ↦ [] | some v ↦ v ]

abbrev cfg : Config
cfg = load os_getenv

abbrev running : Started
running = record {
  backend = memory (codes "data");
  verifier = toncenter (record { api_base = codes "https://toncenter.com/api/v2"; api_key = [] });
  sender = some (record { url = codes "HTTPS://shop.example"; secret = codes "k"; retries = 5 });
  service = record {
    default_pay_to = masterchain_text;
    currency = codes "TON";
    default_ttl = pos 900_000_000_000;
    max_ttl = pos 3_600_000_000_000;
    max_pending = pos 10000;
    max_pending_per_addr = pos 200;
    has_webhook = true;
    testnet = false;
  };
}

on_network : receiving_address cfg ≡ some masterchain_text
unfolding receiving_address load lookup text_eq is_testnet
on_network = rw (receiving_address, on_mainnet) refl

starts : start cfg (codes "1") ≡ some running
unfolding start load lookup text_eq is_prod is_https lower cut_prefix is_testnet parse_int
    new_sender Setup.new Setup.set_limits Setup.set_network
starts = rw (start, on_network) refl

in_prod : is_prod cfg ≡ true
unfolding is_prod load lookup text_eq
in_prod = refl

start-IsSafe_example : IsSafe cfg (codes "1") running
start-IsSafe_example = start-IsSafe cfg (codes "1") in_prod running starts

-- Without the variable, the file store is refused.
refused_store : start cfg [] ≡ none
unfolding start load lookup text_eq is_prod
refused_store = refl
