-- ===== src/Payment/Linking.antt =====
-- A successful webhook links its payment to an order that it has paid (`handleWebhook` of
-- src/payment/paymob.service.ts).
use rive_backend.Base.{
  ℕ, ◌≡◌, refl, sym, ap, ◌∙◌, subst, Bool, true, false, not, ◌&&◌, ◌||◌, Option, none, some, List,
  [], ◌∷◌, ◌==◌, arith, all, find, any, keep, length, if◌then◌else◌, ◌>>◌, Bool-cases, Option-cases,
  inl, inr,
}
use rive_backend.Db.{tables, update_where}
use rive_backend.Db.Keys.{
  IsUnique, has_key, find_of_match, find-update, update_where-IsUnique, find-and_not,
}
use rive_backend.Schema.{Order}
use rive_backend.Store.{Store, World, M}
use rive_backend.Orders.Status.{OrderStatus, same_status, is_cod, is_refused, assert_transition}
use rive_backend.Orders.Emit.{has_id, find_order, find_order_details_by_id, emit_status_changed}
use rive_backend.Orders.Frames.{
  SameBusiness, Frames, Frames-bind, find_order_details_by_id-Frames, emit_status_changed-Frames,
}
use rive_backend.Orders.Cancel.{with_orders, default_actor}
use rive_backend.Orders.Pay.{is_unpaid, marked_paid, pay_found, mark_paid_in_transaction}
use rive_backend.Orders.Ledger.{
  IsSound, is_deleted, Ensures, Ensures-map, Ensures-always, Ensures-if, Ensures-unless,
}
use rive_backend.Orders.Ledger.Paying.{read-is-written, paid-id}
use rive_backend.Orders.Linked.{Linked, is_well_linked, is_unsettled, all-update, paid-Linked}

module _ {Row : Type 0} (key : Row → ℕ) (q : Row → Bool) (k : ℕ) where
  all_absent :
      (t : List Row) → has_key key k t ≡ false → all (λ x. not (key x == k) || q x) t ≡ true
  all_absent [] h = refl
  all_absent (x ∷ t) h = ground (arith, all_absent t)

  abbrev or_row : Row → Option Row → Row
  or_row r none = r
  or_row r (some x) = x

  -- What holds of the row of a key holds of every row of that key.
  all_by_key :
      (t : List Row) (r : Row)
      → IsUnique key t
      → find (λ x. key x == k) t ≡ some r
      → q r ≡ true
      → all (λ x. not (key x == k) || q x) t ≡ true
  all_by_key [] r unique found h = refl
  all_by_key (x ∷ t) r unique found h = elim (Bool-cases (key x == k)) [
    | inl e ↦
        let first : some x ≡ some r =
          subst (λ b. (if b then some x else find (λ y. key y == k) t) ≡ some r) e found in
        let holds : q x ≡ true = ap q (ap (or_row r) first) ∙ h in
        let same : key x ≡ k = ground arith in
        let absent = subst (λ j. has_key key j t ≡ false) same unique.0 in
        ground (arith, holds, all_absent t absent)
    | inr e ↦ ground (arith, all_by_key t r)
  ]

-- A payment may be linked to an order that is not by cash on delivery, and was settled.
abbrev pub is_payable : Order → Bool
is_payable o = not (is_cod o.payment_method) && not (is_unsettled o.status)

abbrev pub cod_of : Option Order → Bool
cod_of none = false
cod_of (some o) = is_cod o.payment_method

abbrev pub Payable : ℕ → List Order → Type 0
Payable id os = all (λ (o : Order). not (has_id id o) || is_payable o) os ≡ true

module _ (w : World) (id : ℕ) where
  Payable-found :
      (s : Store) (o : Order)
      → IsUnique (λ (o : Order). o.id) s.orders
      → any is_deleted s.orders ≡ false
      → find_order tables w id s ≡ some o
      → is_payable o ≡ true
      → Payable id s.orders
  unfolding find_order
  Payable-found s o unique live read h =
      all_by_key (λ (o : Order). o.id) is_payable id s.orders o unique
        (sym (find-and_not (has_id id) is_deleted s.orders live) ∙ read) h

  -- The order that was paid, by the code's conditional update.
  Payable-paid :
      (c : ℕ) (user : Option ℕ) (s : Store) (o : Order)
      → IsSound c s
      → find_order tables w id s ≡ some o
      → is_cod o.payment_method ≡ false
      → (length (keep (is_unpaid id) s.orders) == 1) ≡ true
      → Payable id (update_where (is_unpaid id) (marked_paid user) s.orders)
  Payable-paid c user s o sound read online one =
      let (r, found) = find_of_match (is_unpaid id) s.orders (ground arith) in
      let same =
        read-is-written w 0 c id (is_unpaid id) s o r (paid-id w 0 c id) sound read found in
      let online_r : is_cod r.payment_method ≡ false = ap cod_of same ∙ online in
      all_by_key (λ (o : Order). o.id) is_payable id
        (update_where (is_unpaid id) (marked_paid user) s.orders) (marked_paid user r)
        (update_where-IsUnique (λ (o : Order). o.id) (is_unpaid id) (marked_paid user) s.orders
          (λ x. refl) sound.order_keys)
        (find-update (λ (o : Order). o.id) (is_unpaid id) (marked_paid user) id s.orders r
          (paid-id w 0 c id) (λ x. refl) sound.order_keys found)
        (ground arith)

  -- What a payment that was accepted leaves.
  abbrev pub PaidFor : Order → Store → Type 0
  PaidFor o t = Linked t.orders × Payable id t.orders

  details-PaidFor :
      (s' : Store) (m : M Order)
      → Frames m
      → Linked s'.orders
      → Payable id s'.orders
      → Ensures PaidFor (m s')
  details-PaidFor s' m frames linked payable =
      Ensures-map (λ _ t. SameBusiness s' t) PaidFor (m s')
        (Ensures-always (SameBusiness s') (m s') (frames s'))
        (λ _ t same. (rw same.orders linked, rw same.orders payable))

  pay_found-PaidFor :
      (c : ℕ) (user : Option ℕ) (o : Order) (s : Store)
      → IsSound c s
      → Linked s.orders
      → find_order tables w id s ≡ some o
      → is_cod o.payment_method ≡ false
      → Ensures PaidFor (pay_found tables w id user o s)
  unfolding pay_found assert_transition
  pay_found-PaidFor c user o s sound linked read online =
      let s' = with_orders s (update_where (is_unpaid id) (marked_paid user) s.orders) in
      let tell =
        emit_status_changed tables w id o.status (default_actor user) none
        >> find_order_details_by_id tables w id in
      Ensures-unless _ (is_refused o.status OrderStatus.paid) _ _ s (λ _.
        Ensures-unless _ (not (length (keep (is_unpaid id) s.orders) == 1)) _ tell s' (λ one.
          details-PaidFor s' tell
            (Frames-bind (emit_status_changed tables w id o.status (default_actor user) none)
              (λ _. find_order_details_by_id tables w id)
              (emit_status_changed-Frames tables w id o.status (default_actor user) none)
              (λ _. find_order_details_by_id-Frames tables w id))
            (all-update is_well_linked (is_unpaid id) (marked_paid user) s.orders
              (λ r _ h. paid-Linked user r h) linked)
            (Payable-paid c user s o sound read online (ground arith))))

  pub mark_paid-PaidFor :
      (c : ℕ) (user : Option ℕ) (s : Store)
      → IsSound c s
      → Linked s.orders
      → cod_of (find_order tables w id s) ≡ false
      → Ensures PaidFor (mark_paid_in_transaction tables w id user s)
  unfolding mark_paid_in_transaction
  mark_paid-PaidFor c user s sound linked online = elim (Option-cases (find_order tables w id s)) [
    | inl e ↦ rw e tt
    | inr (o, e) ↦
        let online_o : is_cod o.payment_method ≡ false = sym (ap cod_of e) ∙ online in
        rw e (
          Ensures-if PaidFor (same_status o.status OrderStatus.paid)
            (find_order_details_by_id tables w id) (pay_found tables w id user o) s
            (λ settled.
              details-PaidFor s (find_order_details_by_id tables w id)
                (find_order_details_by_id-Frames tables w id) linked
                (Payable-found s o sound.order_keys sound.none_deleted e (ground arith)))
            (λ _. pay_found-PaidFor c user o s sound linked e online_o))
  ]
