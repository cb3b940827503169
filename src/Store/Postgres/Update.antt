-- ===== src/Store/Postgres/Update.antt =====
-- An UPDATE of the pending row at an id, by what every UPDATE means.
use mathlib.Core.Option
use tonpayment.Base.{
  ℕ, true, false, Option, none, some, List, ◌≡◌, ◌≢◌, ◌⊎◌, inl, inr, refl, sym, ap, ◌∙◌, arith,
  if◌then◌else◌, Bool-cases,
}
use tonpayment.Base.Text.{Text, text_eq, text_eq_iff}
use tonpayment.Store.Invoices.{Status, pending, paid, expired}
use tonpayment.Store.Postgres.{Row, Assignment, update_rows, pending_at, Database}
use tonpayment.Store.Postgres.Table.{
  Contents, same_status, matches, assigned, SameRows, RowAt, Done, IsTable,
}

same_status-pending : (st : Status) → (same_status st pending ≡ true) ⊎ (st ≢ pending)
same_status-pending pending = inl refl
same_status-pending paid = inr (λ e. ground (arith, e))
same_status-pending expired = inr (λ e. ground (arith, e))

same_status_eq : (st : Status) → same_status st pending ≡ true → st ≡ pending
same_status_eq pending h = refl
same_status_eq paid h = cc
same_status_eq expired h = cc

-- What the conditions of the two transitions say of a row.
matching :
    (id : Text) (r : Row) → matches (pending_at id) r ≡ true → (r.id ≡ id) × (r.status ≡ pending)
matching id r h =
    (ground (arith, h, text_eq_iff r.id id), same_status_eq r.status (ground (arith, h)))

matched : (id : Text) (r : Row) → r.id ≡ id → r.status ≡ pending → matches (pending_at id) r ≡ true
matched id r e p = rw ((text_eq_iff r.id id).1 e, ap (λ st. same_status st pending) p) refl

module _ (db : Database) (c : Contents db) (table : IsTable db c) where
  open db use {State}
  open c use {row, keep_time, IsConsistent}

  -- The pending row at the id is changed, and nothing else; or no pending row is there, and nothing is.
  abbrev pub Changes : (Row → Row) → Text → State → State → ℕ → Type 0
  Changes change id s s' n =
      ((r : Row) × (row id s ≡ some r)
        × (r.status ≡ pending)
        × (n ≡ 1)
        × RowAt db c id (change r) s s')
      ⊎ (((r : Row) → row id s ≡ some r → r.status ≢ pending) × (n ≡ 0) × SameRows db c s s')

  module _ (sets : List Assignment) (id : Text) (s s' : State) (n : ℕ) (sound : IsConsistent s)
      (done : Done db c (update_rows sets (pending_at id)) s s' n) where
    abbrev after : Row → Row
    after r = if matches (pending_at id) r then assigned keep_time sets r else r

    -- A row that meets the conditions is the one at the id.
    only_here :
        (j : Text) (r : Row)
        → row j s ≡ some r
        → matches (pending_at id) r ≡ true
        → (j ≡ id) × (r.status ≡ pending)
    only_here j r e m = let (own, p) = matching id r m in (sym (table.keyed s j r sound e) ∙ own, p)

    untouched :
        (j : Text) (o : Option Row)
        → row j s ≡ o
        → ((r : Row) → row j s ≡ some r → matches (pending_at id) r ≡ false)
        → row j s' ≡ row j s
    untouched j none e h = done.0 j ∙ ap (Option.map after) e ∙ sym e
    untouched j (some r) e h = done.0 j ∙ ap (Option.map after) e ∙ rw (h r e) (sym e)

    unmatched :
        (j : Text) (r : Row)
        → row j s ≡ some r
        → (j ≡ id → r.status ≡ pending → ⊥)
        → matches (pending_at id) r ≡ false
    unmatched j r e h = elim (Bool-cases (matches (pending_at id) r)) [
      | inl m ↦ absurd (h (only_here j r e m).0 (only_here j r e m).1)
      | inr m ↦ m
    ]

    none_pending :
        ((r : Row) → row id s ≡ some r → r.status ≢ pending)
        → Changes (assigned keep_time sets) id s s' n
    none_pending h = inr (
      h,
      done.1.no_row (λ j r e. unmatched j r e (here j r e)),
      λ j. untouched j (row j s) refl (λ r e. unmatched j r e (here j r e)),
    )
      where
        here : (j : Text) (r : Row) → row j s ≡ some r → j ≡ id → r.status ≡ pending → ⊥
        here j r e k = h r (ap (λ i. row i s) (sym k) ∙ e)

    one_pending :
        (r : Row)
        → row id s ≡ some r
        → r.status ≡ pending
        → Changes (assigned keep_time sets) id s s' n
    one_pending r e p = inl (
      r,
      e,
      p,
      done.1.one_row id r e m (λ i x k l. (only_here i x k l).0),
      λ j. elim (Bool-cases (text_eq id j)) [
        | inl k ↦
            ap (λ i. row i s') (sym ((text_eq_iff id j).0 k))
            ∙ done.0 id
            ∙ ap (Option.map after) e
            ∙ rw (m, k) refl
        | inr k ↦
            untouched j (row j s) refl
              (λ x f. unmatched j x f (λ q. ground (arith, k, text_eq_iff id j, q)))
            ∙ rw k refl
      ],
    )
      where
        m : matches (pending_at id) r ≡ true
        m = matched id r (table.keyed s id r sound e) p

    pub update-Changes : Changes (assigned keep_time sets) id s s' n
    update-Changes = split (row id s) refl
      where
        split : (o : Option Row) → row id s ≡ o → Changes (assigned keep_time sets) id s s' n
        split none e = none_pending (λ r k p. cc)
        split (some r) e = elim (same_status-pending r.status) [
          | inl q ↦ one_pending r e (same_status_eq r.status q)
          | inr q ↦ none_pending (λ x k p. q (
              ap (λ (o : Option Row). elim o [ none ↦ pending | some y ↦ y.status ]) (sym e ∙ k)
              ∙ p))
        ]
