-- ===== src/Service/Create/Outcomes.antt =====
-- What `CreateInvoice` returns and stores, over any store that meets its contract.
use tonpayment.Base.{
  ℕ, ◌≤◌, ◌||◌, Option, none, some, [], ◌≡◌, ◌≢◌, refl, sym, ap, ◌∙◌, arith, subst, length,
}
use tonpayment.Base.Int.{ℤ, pos, ltb_ℤ, leb_ℤ, ◌+ℤ◌, ◌<ℤ◌}
use tonpayment.Base.Text.{text_eq_refl, Text, is_empty}
use tonpayment.Base.Dict.{Dict}
use tonpayment.Tonaddr
use tonpayment.Store.Invoices.{Invoice}
use tonpayment.Store.Contract.{Store, IsStore, Keeping, Answer, ok, err}
use tonpayment.Service.Status.{ledger}
use tonpayment.Service.Program.{Prog, ret, Service, Reply, done, failed, ServiceError}
use tonpayment.Service.Run.{World, run}
use tonpayment.Service.Create.{
  new_invoice, clamp_ttl, store_new, resolve, validate_metadata, metadata_bytes, max_metadata_keys,
  max_metadata_bytes, check_counts, bounded, is_capped, create_at, create_resolved, create,
}
use tonpayment.Service.Create.Allocate.{IsFresh, Allocated, allocate-Allocated}
use tonpayment.Service.Create.Asked.{
  IsAsked, Created, HasRoom, clamp_ttl-le, clamp_ttl-eq, empty_text, valid_metadata, ok-injective,
  run-if, capped_room,
}

module _ {S : Type 0} (store : Store S) (Inv : S → Type 0) (how : Keeping)
    (laws : IsStore store Inv how) (s : Service) (pay_to : Text) (amount ttl : ℤ)
    (metadata : Dict Text) (w : World S) (sound : Inv w.state) (fresh : IsFresh store w) where
  abbrev Good : Reply × World S → Type 0
  Good = Created store how s pay_to amount ttl metadata w

  run-store_new :
      (addr : Text)
      → pos 0 <ℤ amount
      → resolve s pay_to ≡ Tonaddr.valid addr
      → addr ≢ []
      → length metadata ≤ max_metadata_keys
      → metadata_bytes metadata ≤ max_metadata_bytes
      → HasRoom store s addr w.state
      → Good (run store (store_new s addr amount ttl metadata) w)
  unfolding run store_new
  run-store_new addr positive address named few small room = asked _ (
      allocate-Allocated store Inv how laws 5 (new_invoice s addr amount ttl metadata w.clock) w
        sound fresh)
    where
      asked :
          (r : Reply × World S)
          → Allocated store how (new_invoice s addr amount ttl metadata w.clock) w r
          → Good r
      asked (done new, w') ((n, e), unused, u, f) = (
        record {
          positive = positive;
          amount = ap (λ (x : Invoice). x.amount_nano) e;
          address = address ∙ ap Tonaddr.valid (sym (ap (λ (x : Invoice). x.pay_to) e));
          named = λ k. named (sym (ap (λ (x : Invoice). x.pay_to) e) ∙ k);
          drawn = (n, ap (λ (x : Invoice). x.id) e, ap (λ (x : Invoice). x.memo) e);
          reference = ap (λ (x : Invoice). x.metadata) e;
          few_keys = few;
          few_bytes = small;
          awaited = ap (λ (x : Invoice). x.status) e;
          unpaid = ap (λ (x : Invoice). x.tx_hash) e;
          created = ap (λ (x : Invoice). x.created_at) e;
          as_wished = λ h k.
              ap (λ (x : Invoice). x.expires_at) e
              ∙ ap (λ t. w.clock +ℤ t) (clamp_ttl-eq s ttl h k);
          lifetime = (clamp_ttl s ttl, ap (λ (x : Invoice). x.expires_at) e, clamp_ttl-le s ttl);
        },
        subst (λ (a : Text). HasRoom store s a w.state) (sym (ap (λ (x : Invoice). x.pay_to) e))
            room,
        unused,
        u,
        f,
      )
      asked (failed e, w') same = same

  run-counts :
      (addr : Text) (r : Answer (ℕ × ℕ))
      → store.pending_counts addr w.state ≡ r
      → pos 0 <ℤ amount
      → resolve s pay_to ≡ Tonaddr.valid addr
      → addr ≢ []
      → length metadata ≤ max_metadata_keys
      → metadata_bytes metadata ≤ max_metadata_bytes
      → Good (run store (check_counts s (store_new s addr amount ttl metadata) r) w)
  unfolding check_counts run
  run-counts addr (err e) q positive address named few small = (λ j. refl, refl)
  run-counts addr (ok (total, for_addr)) q positive address named few small =
      run-if store Good (is_capped s.max_pending total) _ _ w (λ _. (λ j. refl, refl))
        (λ h.
          run-if store Good (is_capped s.max_pending_per_addr for_addr) _ _ w
            (λ _. (λ j. refl, refl))
            (λ k. run-store_new addr positive address named few small (λ t a e.
              let same = ok-injective (sym q ∙ e) in
              (
                λ p.
                    subst (λ n. pos n <ℤ s.max_pending) (ap (λ x. x.0) same)
                      (capped_room store s.max_pending total h p),
                λ p.
                    subst (λ n. pos n <ℤ s.max_pending_per_addr) (ap (λ x. x.1) same)
                      (capped_room store s.max_pending_per_addr for_addr k p),
              ))))

  run-bounded :
      (addr : Text)
      → pos 0 <ℤ amount
      → resolve s pay_to ≡ Tonaddr.valid addr
      → addr ≢ []
      → length metadata ≤ max_metadata_keys
      → metadata_bytes metadata ≤ max_metadata_bytes
      → Good (run store (bounded s addr (store_new s addr amount ttl metadata)) w)
  unfolding bounded
  run-bounded addr positive address named few small =
      run-if store Good (ltb_ℤ (pos 0) s.max_pending || ltb_ℤ (pos 0) s.max_pending_per_addr) _ _ w
        (λ h.
          unfold run in
          run-counts addr (store.pending_counts addr w.state) refl positive address named few small)
        (λ h.
          run-store_new addr positive address named few small
            (λ t a e. (λ p. absurd (ground arith), λ p. absurd (ground arith))))

  run-checked :
      (r : Option ServiceError) (p : Prog Reply)
      → (r ≡ none → Good (run store p w))
      → Good (run store (elim r [ some e ↦ ret (failed e) | none ↦ p ]) w)
  unfolding run
  run-checked none p h = h refl
  run-checked (some e) p h = (λ j. refl, refl)

  run-at :
      (addr : Text)
      → pos 0 <ℤ amount
      → resolve s pay_to ≡ Tonaddr.valid addr
      → Good (run store (create_at s addr amount ttl metadata) w)
  unfolding create_at run
  run-at addr positive address =
      run-if store Good (is_empty addr) _ _ w (λ _. (λ j. refl, refl))
        (λ k. run-checked (validate_metadata metadata) _ (λ e.
          run-bounded addr positive address (λ z. absurd (empty_text addr z k))
            (valid_metadata metadata e).0 (valid_metadata metadata e).1))

  run-resolved :
      (r : Tonaddr.Checked Text)
      → pos 0 <ℤ amount
      → resolve s pay_to ≡ r
      → Good (run store (create_resolved s amount ttl metadata r) w)
  unfolding create_resolved run
  run-resolved (Tonaddr.invalid e) positive address = (λ j. refl, refl)
  run-resolved (Tonaddr.valid addr) positive address = run-at addr positive address

  -- A request for an invoice, on a store that meets its contract and with drawn ids that are not in
  -- use, ends in one of two ways. It returns an invoice as asked: pending, unpaid, of a positive
  -- amount, to a canonical or the default address, under an id and with a memo of bytes drawn one
  -- after the other, with small metadata, and a lifetime of at most the
  -- cap, which is the one asked for if that is positive and within the cap; there was room for it
  -- under the caps on pending invoices, and it is stored as the store keeps it
  -- beside all that was there. Or it reports an
  -- error and nothing is stored. The webhook gets nothing.
  pub create_sound : Good (run store (create s pay_to amount ttl metadata) w)
  unfolding create run
  create_sound =
      run-if store Good (leb_ℤ amount (pos 0)) _ _ w (λ _. (λ j. refl, refl))
        (λ h. run-resolved (resolve s pay_to) (ground arith) refl)

done-injective : {a b : Invoice} → done a ≡ done b → a ≡ b
done-injective h = cc

module _ {S : Type 0} (store : Store S) (Inv : S → Type 0) (how : Keeping)
    (laws : IsStore store Inv how) (s : Service) (pay_to : Text) (amount ttl : ℤ)
    (metadata : Dict Text) (w : World S) (sound : Inv w.state) (fresh : IsFresh store w)
    (new : Invoice)
    (created : (run store (create s pay_to amount ttl metadata) w).0 ≡ done new) where
  -- What creation returned is as asked, and stands in the store.
  pub done-IsAsked :
      IsAsked s pay_to amount ttl metadata w.clock w.entropy new
      × (ledger store (run store (create s pay_to amount ttl metadata) w).1 new.id
          ≡ some (how.keep new))
  done-IsAsked =
      returned (run store (create s pay_to amount ttl metadata) w) created
        (create_sound store Inv how laws s pay_to amount ttl metadata w sound fresh)
    where
      returned :
          (r : Reply × World S)
          → r.0 ≡ done new
          → Created store how s pay_to amount ttl metadata w r
          → IsAsked s pay_to amount ttl metadata w.clock w.entropy new
            × (ledger store r.1 new.id ≡ some (how.keep new))
      returned (done x, u) e (asked, room, unused, updated, f) =
          subst
            (λ (y : Invoice).
              IsAsked s pay_to amount ttl metadata w.clock w.entropy y
              × (ledger store u y.id ≡ some (how.keep y)))
            (done-injective e) (asked, updated x.id ∙ rw (text_eq_refl x.id) refl)
      returned (failed x, u) e c = cc
