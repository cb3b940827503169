-- ===== src/Service/Create/Succeeds.antt =====
-- When `CreateInvoice` is sure to return an invoice.
use tonpayment.Base.{
  ℕ, suc, ◌≤◌, ◌≢◌, some, [], ◌∷◌, length, arith, false, ◌||◌, none, ◌≡◌, refl, sym, subst,
  Bool-cases, inl, inr,
}
use tonpayment.Base.Int.{ℤ, ◌<ℤ◌, pos, ltb_ℤ, leb_ℤ}
use tonpayment.Base.Text.{Text, is_empty}
use tonpayment.Base.Dict.{Dict}
use tonpayment.Tonaddr
use tonpayment.Store.Invoices.{Invoice}
use tonpayment.Store.Contract.{Store, IsStore, Keeping, Answer, ok, err, memo_exists, store_failure}
use tonpayment.Service.Program.{ret, Service, done, failed, store_error}
use tonpayment.Service.Run.{World, run}
use tonpayment.Service.Status.{ledger}
use tonpayment.Service.Create.Asked.{IsAsked}
use tonpayment.Service.Create.Outcomes.{done-IsAsked}
use tonpayment.Service.Create.{
  max_metadata_keys, max_metadata_bytes, metadata_bytes, allocate, new_invoice, store_new, resolve,
  validate_metadata, check_counts, bounded, is_capped, create_at, create_resolved, create,
}
use tonpayment.Service.Create.Allocate.{IsFresh, drawn_from}

module _ {S : Type 0} (store : Store S) (s : Service) (pay_to addr : Text) (amount ttl : ℤ)
    (metadata : Dict Text) (w : World S) where
  -- The invoice of the first attempt.
  abbrev pub first_drawn : Invoice
  first_drawn =
      drawn_from store (new_invoice s addr amount ttl metadata w.clock) (w.entropy w.drawn 9)
        (w.entropy (suc w.drawn) 16)

  module _ (stores : (store.create_invoice first_drawn w.state).0 ≡ ok tt) where
    stored : (run store (store_new s addr amount ttl metadata) w).0 ≡ done first_drawn
    unfolding run store_new allocate
    stored =
        subst
          (λ (r : Answer (Unit {0})).
            (run store
              (elim r [
                | ok _ ↦ ret (done first_drawn)
                | err memo_exists ↦ allocate 4 (new_invoice s addr amount ttl metadata w.clock)
                | err store_failure ↦ ret (failed (store_error store_failure))
              ])
              (record w {
                state = (store.create_invoice first_drawn w.state).1;
                drawn = suc (suc w.drawn);
              })).0
            ≡ done first_drawn)
          (sym stores) refl

    bounded_done :
        (total for_addr : ℕ)
        → store.pending_counts addr w.state ≡ ok (total, for_addr)
        → is_capped s.max_pending total ≡ false
        → is_capped s.max_pending_per_addr for_addr ≡ false
        → (run store (bounded s addr (store_new s addr amount ttl metadata)) w).0 ≡ done first_drawn
    unfolding bounded run check_counts
    bounded_done total for_addr q a b =
        elim (Bool-cases (ltb_ℤ (pos 0) s.max_pending || ltb_ℤ (pos 0) s.max_pending_per_addr)) [
          | inl e ↦ rw e (
              subst
                (λ (r : Answer (ℕ × ℕ)).
                  (run store (check_counts s (store_new s addr amount ttl metadata) r) w).0
                  ≡ done first_drawn)
                (sym q) (rw (a, b) stored))
          | inr e ↦ rw e stored
        ]

    -- What each test of the code lets through.
    first_returned :
        leb_ℤ amount (pos 0) ≡ false
        → resolve s pay_to ≡ Tonaddr.valid addr
        → is_empty addr ≡ false
        → validate_metadata metadata ≡ none
        → (total for_addr : ℕ) → store.pending_counts addr w.state ≡ ok (total, for_addr)
        → is_capped s.max_pending total ≡ false
        → is_capped s.max_pending_per_addr for_addr ≡ false
        → (run store (create s pay_to amount ttl metadata) w).0 ≡ done first_drawn
    unfolding create create_resolved create_at
    first_returned p r n v total for_addr q a b =
        rw (p, r, n, v) (bounded_done total for_addr q a b)

below_cap : (cap : ℤ) (n : ℕ) → (pos 0 <ℤ cap → pos n <ℤ cap) → is_capped cap n ≡ false
below_cap cap n h = ground arith

small_metadata :
    (md : Dict Text)
    → length md ≤ max_metadata_keys
    → metadata_bytes md ≤ max_metadata_bytes
    → validate_metadata md ≡ none
unfolding validate_metadata
small_metadata md keys bytes = ground arith

named_address : (t : Text) → t ≢ [] → is_empty t ≡ false
named_address [] h = absurd (h refl)
named_address (c ∷ t) h = refl

positive_amount : (n : ℤ) → pos 0 <ℤ n → leb_ℤ n (pos 0) ≡ false
positive_amount n h = ground arith

module _ {S : Type 0} (store : Store S) (Inv : S → Type 0) (how : Keeping)
    (laws : IsStore store Inv how) (s : Service) (pay_to addr : Text) (amount ttl : ℤ)
    (metadata : Dict Text) (w : World S) (sound : Inv w.state) (fresh : IsFresh store w) where
  -- A request for a positive amount, to an address that is accepted or the default one and is not empty,
  -- with at most 64 keys and 8 KiB of metadata, and with room under each cap that is positive, over a
  -- store that meets its contract, counts its pending invoices and takes the invoice of the first
  -- attempt, with drawn ids that are not in use: it returns that invoice, which is as asked, its
  -- lifetime within the cap included, and stands in the store as the store keeps it.
  pub create_succeeds :
      pos 0 <ℤ amount
      → resolve s pay_to ≡ Tonaddr.valid addr
      → addr ≢ []
      → length metadata ≤ max_metadata_keys
      → metadata_bytes metadata ≤ max_metadata_bytes
      → (total for_addr : ℕ) → store.pending_counts addr w.state ≡ ok (total, for_addr)
      → (pos 0 <ℤ s.max_pending → pos total <ℤ s.max_pending)
      → (pos 0 <ℤ s.max_pending_per_addr → pos for_addr <ℤ s.max_pending_per_addr)
      → (store.create_invoice (first_drawn store s pay_to addr amount ttl metadata w) w.state).0
        ≡ ok tt
      → ((run store (create s pay_to amount ttl metadata) w).0
          ≡ done (first_drawn store s pay_to addr amount ttl metadata w))
        × IsAsked s pay_to amount ttl metadata w.clock w.entropy
            (first_drawn store s pay_to addr amount ttl metadata w)
        × (ledger store
              (run store (create s pay_to amount ttl metadata) w).1
              (first_drawn store s pay_to addr amount ttl metadata w).id
            ≡ some (how.keep (first_drawn store s pay_to addr amount ttl metadata w)))
  create_succeeds p r n keys bytes total for_addr counts room room_addr stores =
      let returns =
        first_returned store s pay_to addr amount ttl metadata w stores (positive_amount amount p) r
          (named_address addr n) (small_metadata metadata keys bytes) total for_addr counts
          (below_cap s.max_pending total room)
          (below_cap s.max_pending_per_addr for_addr room_addr) in
      let (asked, stands) =
        done-IsAsked store Inv how laws s pay_to amount ttl metadata w sound fresh
          (first_drawn store s pay_to addr amount ttl metadata w) returns in
      (returns, asked, stands)
