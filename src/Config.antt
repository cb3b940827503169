-- ===== src/Config.antt =====
-- internal/config/config.go: the configuration read from the environment.
use tonpayment.Base.{
  ℕ, ◌+◌, ◌-◌, ◌*◌, ◌%◌, ◌^◌, Bool, true, false, ◌||◌, ◌&&◌, Option, none, some, List, [], ◌∷◌,
  ◌==◌, ltb, leb, if◌then◌else◌,
}
use tonpayment.Base.Int.{ℤ, pos, negsuc}
use tonpayment.Base.Text.{Text, codes, is_empty, text_eq}
use tonpayment.Golib.Strings.{trim_space}
use tonpayment.Golib.Strconv.{parse_int}

pub record Config : Type 0 where
  pub addr : Text
  pub env : Text
  pub allowed_origins : List Text
  pub database_url : Text
  pub data_dir : Text
  pub trust_proxy : Bool
  pub ton_receiving : Text
  pub ton_api_base : Text
  pub ton_api_key : Text
  pub network : Text
  pub default_ttl : ℤ
  pub create_api_key : Text
  pub max_ttl : ℤ
  pub max_pending : ℤ
  pub max_pending_per_addr : ℤ
  pub poll_enabled : Bool
  pub poll_interval : ℤ
  pub poll_concurrency : ℤ
  pub webhook_url : Text
  pub webhook_secret : Text

unfoldable pub is_prod : Config → Bool
is_prod c = text_eq c.env (codes "prod") || text_eq c.env (codes "production")

-- ASCII lower case. The long s is the one other character that folds to a letter of "testnet".
unfoldable pub lower : ℕ → ℕ
lower c = if leb b'A' c && leb c b'Z' then c + 32 else c

fold_case : Text → Text
unfolding lower
fold_case [] = []
fold_case (c ∷ []) = lower c ∷ []
fold_case (c ∷ d ∷ s) =
    let rest = fold_case s in
    let next = fold_case (d ∷ s) in if c == 0xc5 && d == 0xbf then b's' ∷ rest else lower c ∷ next

-- `strings.EqualFold(c.Network, "testnet")`
unfoldable pub is_testnet : Config → Bool
unfolding fold_case
is_testnet c = text_eq (fold_case c.network) (codes "testnet")

-- `if v := os.Getenv(k); v != ""`
unfoldable pub getenv : Text → Text → Text
getenv v def = if is_empty v then def else v

unfoldable pub first_non_empty : List Text → Text
first_non_empty [] = []
first_non_empty (x ∷ xs) = if is_empty x then first_non_empty xs else x

unfoldable pub port_addr : Text → Text
port_addr [] = []
port_addr (c ∷ p) = if c == b':' then c ∷ p else b':' ∷ c ∷ p

or_default : {A : Type 0} → A → Option A → A
or_default def none = def
or_default def (some a) = a

-- `strconv.Atoi` is `ParseInt` of 64 bits here.
unfoldable pub atoi_def : Text → ℤ → ℤ
unfolding or_default
atoi_def s def = if is_empty s then def else or_default def (parse_int 64 s)

one_of : Text → List Text → Bool
one_of s [] = false
one_of s (t ∷ ts) = text_eq s t || one_of s ts

-- `strconv.ParseBool`
parse_bool : Text → Option Bool
unfolding one_of
parse_bool s =
    if one_of s
      (codes "1" ∷ codes "t" ∷ codes "T" ∷ codes "TRUE" ∷ codes "true" ∷ codes "True" ∷ [])
    then some true
    else if one_of s
        (codes "0" ∷ codes "f" ∷ codes "F" ∷ codes "FALSE" ∷ codes "false" ∷ codes "False" ∷ [])
    then some false
    else none

unfoldable pub bool_def : Text → Bool → Bool
unfolding or_default parse_bool
bool_def s def = if is_empty s then def else or_default def (parse_bool s)

-- `strings.Split(s, ",")`: what stands before the first comma, and the parts behind it.
split_comma : Text → Text × List Text
split_comma [] = ([], [])
split_comma (c ∷ s) =
    let (part, parts) = split_comma s in if c == b',' then ([], part ∷ parts) else (c ∷ part, parts)

keep_trimmed : List Text → List Text
keep_trimmed [] = []
keep_trimmed (p ∷ ps) =
    let rest = keep_trimmed ps in if is_empty (trim_space p) then rest else trim_space p ∷ rest

unfoldable pub split_trim : Text → List Text
unfolding split_comma keep_trimmed
split_trim s = let (part, parts) = split_comma s in keep_trimmed (part ∷ parts)

-- The residue of a number modulo 2^64, and the int64 of a residue.
residue : ℤ → ℕ
residue (pos n) = n % 2 ^ 64
residue (negsuc n) = 2 ^ 64 - 1 - n % 2 ^ 64

int64_of : ℕ → ℤ
int64_of r = if ltb r (2 ^ 63) then pos r else negsuc (2 ^ 64 - 1 - r)

times_second : ℤ → ℤ
times_second (pos n) = pos (n * 1_000_000_000)
times_second (negsuc n) = negsuc (n * 1_000_000_000 + 999_999_999)

-- `time.Duration(n) * time.Second`, in nanoseconds, wrapping as int64 does.
unfoldable pub seconds : ℤ → ℤ
unfolding residue int64_of times_second
seconds n = int64_of (residue (times_second n))

-- `os.Getenv` is the argument: the empty text for a variable that is not set.
unfoldable pub load : (Text → Text) → Config
unfolding getenv first_non_empty port_addr atoi_def bool_def split_trim seconds
load os_getenv = record {
  addr = first_non_empty (
      os_getenv (codes "TON_HTTP_ADDR")
      ∷ port_addr (os_getenv (codes "PORT"))
      ∷ codes ":8080"
      ∷ []);
  env = getenv (os_getenv (codes "TON_ENV")) (codes "dev");
  allowed_origins = split_trim (
      getenv (os_getenv (codes "TON_ALLOWED_ORIGINS"))
        (codes "http://localhost:5173,http://localhost:4173"));
  database_url = os_getenv (codes "TON_DATABASE_URL");
  data_dir = getenv (os_getenv (codes "TON_DATA_DIR")) (codes "data");
  trust_proxy = bool_def (os_getenv (codes "TON_TRUST_PROXY")) false;
  ton_receiving = os_getenv (codes "TON_RECEIVING_ADDRESS");
  ton_api_base = getenv (os_getenv (codes "TON_API_BASE")) (codes "https://toncenter.com/api/v2");
  ton_api_key = os_getenv (codes "TON_API_KEY");
  network = getenv (os_getenv (codes "TON_NETWORK")) (codes "mainnet");
  default_ttl = seconds (atoi_def (os_getenv (codes "TON_DEFAULT_TTL_SECONDS")) (pos 900));
  create_api_key = os_getenv (codes "TON_CREATE_API_KEY");
  max_ttl = seconds (atoi_def (os_getenv (codes "TON_MAX_TTL_SECONDS")) (pos 86400));
  max_pending = atoi_def (os_getenv (codes "TON_MAX_PENDING")) (pos 10000);
  max_pending_per_addr = atoi_def (os_getenv (codes "TON_MAX_PENDING_PER_ADDRESS")) (pos 200);
  poll_enabled = bool_def (os_getenv (codes "TON_POLL_ENABLED")) true;
  poll_interval = seconds (atoi_def (os_getenv (codes "TON_POLL_INTERVAL_SECONDS")) (pos 10));
  poll_concurrency = atoi_def (os_getenv (codes "TON_POLL_CONCURRENCY")) (pos 4);
  webhook_url = os_getenv (codes "TON_WEBHOOK_URL");
  webhook_secret = os_getenv (codes "TON_WEBHOOK_SECRET");
}
