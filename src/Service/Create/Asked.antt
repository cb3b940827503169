-- ===== src/Service/Create/Asked.antt =====
-- What a creation returns and stores, or refuses.
use tonpayment.Base.{
  ℕ, suc, List, ◌≤◌, Bool, true, false, none, [], ◌∷◌, ◌≡◌, ◌≢◌, refl, arith, if◌then◌else◌, length,
}
use tonpayment.Base.Int.{ℤ, pos, ltb_ℤ, leb_ℤ, ◌+ℤ◌, ◌≤ℤ◌, ◌<ℤ◌}
use tonpayment.Base.Text.{Text, codes, is_empty}
use tonpayment.Idgen.{id_of}
use tonpayment.Wallet.Memo.{memo_of}
use tonpayment.Base.Dict.{Dict}
use tonpayment.Tonaddr
use tonpayment.Store.Invoices.{Invoice, Time, pending}
use tonpayment.Store.Contract.{Store, Keeping, ok, SameLedger, Updated}
use tonpayment.Service.Program.{Prog, Service, Reply, done, failed}
use tonpayment.Service.Run.{World, run}
use tonpayment.Service.Status.{ledger}
use tonpayment.Service.Create.{
  clamp_ttl, resolve, validate_metadata, metadata_bytes, max_metadata_keys, max_metadata_bytes,
  is_capped,
}

-- The invoice that a request asks for, with an id and a memo of drawn bytes: pending and unpaid, for the amount, to the address in canonical
-- form or the default one, with the metadata, and open for the time asked for, or no longer than the
-- cap.
pub record IsAsked (s : Service) (pay_to : Text) (amount_nano ttl : ℤ) (metadata : Dict Text)
    (at : Time) (draw : ℕ → ℕ → List ℕ) (new : Invoice) : Type 0 where
  pub positive : pos 0 <ℤ amount_nano
  pub amount : new.amount_nano ≡ amount_nano
  pub address : resolve s pay_to ≡ Tonaddr.valid new.pay_to
  pub named : new.pay_to ≢ []
  pub drawn :
      (n : ℕ) × (new.id ≡ id_of (codes "inv") (draw n 9)) × (new.memo ≡ memo_of (draw (suc n) 16))
  pub reference : new.metadata ≡ metadata
  pub few_keys : length metadata ≤ max_metadata_keys
  pub few_bytes : metadata_bytes metadata ≤ max_metadata_bytes
  pub awaited : new.status ≡ pending
  pub unpaid : new.tx_hash ≡ []
  pub created : new.created_at ≡ at
  pub as_wished : pos 0 <ℤ ttl → ttl ≤ℤ s.max_ttl → new.expires_at ≡ at +ℤ ttl
  pub lifetime : (t : ℤ) × (new.expires_at ≡ at +ℤ t) × (t ≤ℤ s.max_ttl)

pub clamp_ttl-le : (s : Service) (ttl : ℤ) → clamp_ttl s ttl ≤ℤ s.max_ttl
unfolding clamp_ttl
clamp_ttl-le s ttl = capped (if leb_ℤ ttl (pos 0) then s.default_ttl else ttl)
  where
    capped : (t : ℤ) → (if ltb_ℤ s.max_ttl t then s.max_ttl else t) ≤ℤ s.max_ttl
    capped t = ground arith

pub clamp_ttl-eq : (s : Service) (ttl : ℤ) → pos 0 <ℤ ttl → ttl ≤ℤ s.max_ttl → clamp_ttl s ttl ≡ ttl
unfolding clamp_ttl
clamp_ttl-eq s ttl h k = rw (positive, allowed) refl
  where
    positive : leb_ℤ ttl (pos 0) ≡ false
    positive = ground arith

    allowed : ltb_ℤ s.max_ttl ttl ≡ false
    allowed = ground arith

pub ok-injective : {p q : ℕ × ℕ} → ok p ≡ ok q → p ≡ q
ok-injective h = cc

pub empty_text : (t : Text) → t ≡ [] → is_empty t ≢ false
empty_text [] z k = cc
empty_text (c ∷ t) z k = cc

pub valid_metadata :
    (md : Dict Text)
    → validate_metadata md ≡ none
    → (length md ≤ max_metadata_keys) × (metadata_bytes md ≤ max_metadata_bytes)
unfolding validate_metadata
valid_metadata md h = ground arith

module _ {S : Type 0} (store : Store S) where
  -- The caps leave room for one more invoice to the address.
  abbrev pub HasRoom : Service → Text → S → Type 0
  HasRoom s addr state =
      (total for_addr : ℕ)
      → store.pending_counts addr state ≡ ok (total, for_addr)
      → (pos 0 <ℤ s.max_pending → pos total <ℤ s.max_pending)
        × (pos 0 <ℤ s.max_pending_per_addr → pos for_addr <ℤ s.max_pending_per_addr)

  -- The invoice that was asked for is returned, and stored as the store keeps it, beside all that was there, and there was
  -- room for it; or nothing is stored. The webhook gets nothing.
  abbrev pub Created :
      Keeping → Service → Text → ℤ → ℤ → Dict Text → World S → Reply × World S → Type 0
  Created how s pay_to amount ttl metadata w (done new, w') =
      IsAsked s pay_to amount ttl metadata w.clock w.entropy new
      × HasRoom s new.pay_to w.state
      × (ledger store w new.id ≡ none)
      × Updated new.id (how.keep new) (ledger store w) (ledger store w')
      × (w'.fired ≡ w.fired)
  Created how s pay_to amount ttl metadata w (failed e, w') =
      SameLedger (ledger store w) (ledger store w') × (w'.fired ≡ w.fired)

  pub run-if :
      (P : Reply × World S → Type 0) (b : Bool) (p q : Prog Reply) (w : World S)
      → (b ≡ true → P (run store p w))
      → (b ≡ false → P (run store q w))
      → P (run store (if b then p else q) w)
  run-if P true p q w h k = h refl
  run-if P false p q w h k = k refl

  -- One cap, as tested and as meant.
  pub capped_room : (cap : ℤ) (n : ℕ) → is_capped cap n ≡ false → pos 0 <ℤ cap → pos n <ℤ cap
  capped_room cap n h k = ground arith
