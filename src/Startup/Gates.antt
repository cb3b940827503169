-- ===== src/Startup/Gates.antt =====
-- What has been made sure of when the program runs in production.
use tonpayment.Base.{
  Bool, true, false, not, ◌&&◌, Option, none, some, [], ◌∷◌, ◌≡◌, ◌≢◌, ◌⊎◌, inl, inr, refl, arith,
  subst, if◌then◌else◌, Bool-cases,
}
use tonpayment.Base.Text.{Text, codes, is_empty, text_eq, text_eq_iff}
use tonpayment.Golib.Strings.{contains_byte}
use tonpayment.Tonaddr.{Address, parse, normalize_on_network, Checked, valid, invalid}
use tonpayment.Tonaddr.Network.{network_enforced}
use tonpayment.Webhook.{new_sender}
use tonpayment.Config.{Config, is_prod, is_testnet}
use tonpayment.Service.Setup
use tonpayment.Startup.{
  Refusal, validate, check_webhook, receiving, receiving_address, is_https, start, wire, Started,
  toncenter, postgres, choose_verifier, choose_backend,
}

-- The guarantees of a production start.
pub record IsSafe (cfg : Config) (allow_file_store : Text) (st : Started) : Type 0 where
  pub real_verifier :
      st.verifier ≡ toncenter (record { api_base = cfg.ton_api_base; api_key = cfg.ton_api_key })
  pub no_open_minter : (cfg.ton_receiving ≢ []) ⊎ (cfg.create_api_key ≢ [])
  pub durable : (st.backend ≡ postgres cfg.database_url) ⊎ (allow_file_store ≡ codes "1")
  pub canonical_address :
      ((cfg.ton_receiving ≡ []) × (st.service.default_pay_to ≡ []))
      ⊎ (normalize_on_network cfg.ton_receiving (is_testnet cfg) ≡ valid st.service.default_pay_to)
  pub right_network :
      cfg.ton_receiving ≢ []
      → contains_byte b':' cfg.ton_receiving ≡ false
      → (a : Address) × (parse st.service.default_pay_to ≡ valid a) × (a.testnet ≡ is_testnet cfg)
  pub signed_webhook :
      cfg.webhook_url ≢ []
      → (cfg.webhook_secret ≢ [])
        × (is_https cfg.webhook_url ≡ true)
        × (st.sender
            ≡ some (record { url = cfg.webhook_url; secret = cfg.webhook_secret; retries = 5 }))

nonempty : (t : Text) → is_empty t ≡ false → t ≢ []
nonempty [] h k = cc
nonempty (c ∷ t) h k = cc

empty_eq : (t : Text) → is_empty t ≡ true → t ≡ []
empty_eq [] h = refl
empty_eq (c ∷ t) h = cc

-- Chains of gates that let something pass.
webhook_gates :
    {R : Type 0} (a b c : Bool) (r r' : R)
    → (if a then none else if b then some r else if c then none else some r') ≡ none
    → a ≡ false
    → (b ≡ false) × (c ≡ true)
webhook_gates true b c r r' h k = cc
webhook_gates false true c r r' h k = cc
webhook_gates false false true r r' h k = (refl, refl)
webhook_gates false false false r r' h k = cc

all_gates :
    {R : Type 0} (a b : Bool) (r r' : R) (rest : Option R)
    → (if a then some r else if b then some r' else rest) ≡ none
    → (a ≡ false) × (b ≡ false) × (rest ≡ none)
all_gates true b r r' rest h = cc
all_gates false true r r' rest h = cc
all_gates false false r r' rest h = (refl, refl, h)

ne_false : (t : Text) → t ≢ [] → is_empty t ≡ false
ne_false [] n = absurd (n refl)
ne_false (c ∷ t) n = refl

one_given : (s t : Text) → (is_empty s && is_empty t) ≡ false → (s ≢ []) ⊎ (t ≢ [])
one_given [] t h = inr (nonempty t h)
one_given (c ∷ s) t h = inl (λ k. cc)

started :
    (cfg : Config) (v : Option Refusal) (a : Option Text) (st : Started)
    → elim v [
      | some refusal ↦ none
      | none ↦ elim a [ none ↦ none | some address ↦ some (wire cfg address) ]
    ]
      ≡ some st
    → (v ≡ none) × (address : Text) × (a ≡ some address) × (wire cfg address ≡ st)
started cfg (some r) a st h = cc
started cfg none none st h = cc
started cfg none (some address) st h = (refl, address, refl, cc)

module _ (cfg : Config) (allow : Text) (prod : is_prod cfg ≡ true) where
  check_webhook_sound :
      check_webhook cfg ≡ none
      → cfg.webhook_url ≢ []
      → (cfg.webhook_secret ≢ []) × (is_https cfg.webhook_url ≡ true)
  unfolding check_webhook
  check_webhook_sound h n =
      let (b, c) = webhook_gates _ _ _ _ _ h (ne_false cfg.webhook_url n) in
      (nonempty cfg.webhook_secret b, c)

  validate_sound :
      validate cfg allow ≡ none
      → ((is_empty cfg.ton_receiving && is_empty cfg.create_api_key) ≡ false)
        × ((is_empty cfg.database_url && not (text_eq allow (codes "1"))) ≡ false)
        × (check_webhook cfg ≡ none)
  unfolding validate
  validate_sound h = all_gates _ _ _ _ _ (rw prod at h)

  durable_backend :
      (is_empty cfg.database_url && not (text_eq allow (codes "1"))) ≡ false
      → (choose_backend cfg ≡ postgres cfg.database_url) ⊎ (allow ≡ codes "1")
  unfolding choose_backend
  durable_backend h = elim (Bool-cases (is_empty cfg.database_url)) [
    | inl e ↦ inr ((text_eq_iff allow (codes "1")).0 (ground (arith)))
    | inr e ↦ inl (rw e refl)
  ]

  receiving_sound : (r : Checked Text) (a : Text) → receiving cfg r ≡ some a → r ≡ valid a
  unfolding receiving
  receiving_sound (valid norm) a k = cc
  receiving_sound (invalid e) a k = cc (rw prod at k)

  address_sound :
      (address : Text)
      → receiving_address cfg ≡ some address
      → ((cfg.ton_receiving ≡ []) × (address ≡ []))
        ⊎ (normalize_on_network cfg.ton_receiving (is_testnet cfg) ≡ valid address)
  unfolding receiving_address
  address_sound address h = elim (Bool-cases (is_empty cfg.ton_receiving)) [
    | inl e ↦ inl (empty_eq cfg.ton_receiving e, cc (rw e at h))
    | inr e ↦ inr (receiving_sound _ address (rw e at h))
  ]

  on_network :
      (address : Text)
      → ((cfg.ton_receiving ≡ []) × (address ≡ []))
        ⊎ (normalize_on_network cfg.ton_receiving (is_testnet cfg) ≡ valid address)
      → cfg.ton_receiving ≢ []
      → contains_byte b':' cfg.ton_receiving ≡ false
      → (a : Address) × (parse address ≡ valid a) × (a.testnet ≡ is_testnet cfg)
  on_network address (inl (e, z)) given plain = absurd (given e)
  on_network address (inr e) given plain =
      let (a, p, same, q) = network_enforced cfg.ton_receiving address (is_testnet cfg) plain e in
      (a, q, same)

  wire-IsSafe :
      (address : Text)
      → validate cfg allow ≡ none
      → receiving_address cfg ≡ some address
      → IsSafe cfg allow (wire cfg address)
  unfolding wire choose_verifier new_sender Setup.new Setup.set_limits Setup.set_network
  wire-IsSafe address h k =
      let (minter, file, hook) = validate_sound h in
      record {
        real_verifier = rw prod refl;
        no_open_minter = one_given cfg.ton_receiving cfg.create_api_key minter;
        durable = durable_backend file;
        canonical_address = address_sound address k;
        right_network = λ given plain. on_network address (address_sound address k) given plain;
        signed_webhook = λ n.
            let (secret, https) = check_webhook_sound hook n in
            (secret, https, rw (ne_false cfg.webhook_url n) refl);
      }

  -- A program that starts in production uses the toncenter verifier and never the mock; it has a
  -- default address or an API key for creation, a database or the explicit leave for the file store,
  -- a default address that is empty or the canonical form of the configured one, which the network check
  -- accepted, and which is of the service's network where the configured one has no colon; and where a
  -- webhook is configured, its sender has that URL, which is one of TLS, and the secret, which is not
  -- empty.
  pub start-IsSafe : (st : Started) → start cfg allow ≡ some st → IsSafe cfg allow st
  unfolding start
  start-IsSafe st h =
      let (v, address, a, e) = started cfg (validate cfg allow) (receiving_address cfg) st h in
      subst (IsSafe cfg allow) e (wire-IsSafe address v a)
