-- ===== src/Orders/Emit.antt =====
-- The queries and the agent events that the operations of `OrdersService` share
-- (src/orders/orders.service.ts).
use rive_backend.Base.{
  ℕ, Bool, not, ◌&&◌, ◌||◌, Option, none, some, List, [], ◌∷◌, map, ◌==◌, if◌then◌else◌, any,
  sum_by, is_some, pure, ◌>>=◌, ◌>>◌, or_throw, internal,
}
use rive_backend.Base.Text.{Text}
use rive_backend.Db.{Prisma}
use rive_backend.Schema.{Order, OrderItem, Variant, Utm}
use rive_backend.Store.{Store, World, EventSource, M}
use rive_backend.Orders.Status.{OrderStatus, same_status, is_paid}
use rive_backend.Agent.Events.{Event, Actor, Reason, reservation_expired, cancelled_by}
use rive_backend.Agent.Mapper.{
  Delta, StockReason, to_piasters, to_contract_status, to_order_ref, to_order_lines, to_address,
  to_stock_changed,
}
use rive_backend.Agent.Outbox.{enqueue_in_tx, kick}

-- A row that the soft-delete middleware (src/prisma/prisma.service.ts) lets a search see.
abbrev pub is_live : Order → Bool
is_live o = not (is_some o.deleted_at)

abbrev pub has_id : ℕ → Order → Bool
has_id id o = o.id == id

-- The pieces of a variant among the items of an order: `deltas.get(variant.id)`.
abbrev pub quantity_of : ℕ → List OrderItem → ℕ
quantity_of v items =
    sum_by (λ (i : OrderItem). if i.product_variant_id == v then i.quantity else 0) items

abbrev truthy : Option Text → Option Text
truthy (some []) = none
truthy o = o

abbrev utm_of : Utm → Option Utm
utm_of u =
    if is_some (truthy u.source) || is_some (truthy u.medium) || is_some (truthy u.campaign)
    then some u
    else none

module _ (db : Prisma) (w : World) where
  -- `findUnique({ where: { id } })`
  unfoldable pub find_order : ℕ → Store → Option Order
  find_order id s = db.find_first (λ (o : Order). has_id id o && is_live o) s.orders

  -- `findOrderDetailsById`
  unfoldable pub find_order_details_by_id : ℕ → M Order
  unfolding find_order
  find_order_details_by_id id s = or_throw (find_order id s) (internal "No Order found") s

  -- `tx.orderItem.findMany({ where: { orderId } })`
  unfoldable pub order_items : ℕ → Store → List OrderItem
  order_items id s = elim (db.find_first (λ (o : Order). has_id id o) s.orders) [
    | none ↦ []
    | some o ↦ o.items
  ]

  -- the loop of `emitStockChanges`
  unfoldable pub emit_each_stock_change :
      List Variant → List OrderItem → (ℕ → Delta) → StockReason → Text → M (Unit {0})
  unfolding enqueue_in_tx to_stock_changed
  emit_each_stock_change [] items sign reason number = pure tt
  emit_each_stock_change (v ∷ vs) items sign reason number = do
    enqueue_in_tx db w EventSource.backend (
        Event.stock_changed
          (to_stock_changed v (sign (quantity_of v.id items)) reason (some number)))
    emit_each_stock_change vs items sign reason number

  unfoldable pub emit_stock_changes :
      List OrderItem → (ℕ → Delta) → StockReason → Text → M (Unit {0})
  unfolding emit_each_stock_change
  emit_stock_changes items sign reason number s =
      let touched =
        db.find_many (λ (v : Variant). any (λ (i : OrderItem). i.product_variant_id == v.id) items)
          s.variants in
      if w.has_agent then emit_each_stock_change touched items sign reason number s else pure tt s

  -- The second half of `emitStatusChanged`, for an order that has just been given up.
  unfoldable pub emit_cancelled : Order → Actor → Option Reason → M (Unit {0})
  unfolding enqueue_in_tx emit_stock_changes to_order_ref
  emit_cancelled order actor reason =
      let fallback =
        (if same_status order.status OrderStatus.expired
          then reservation_expired
          else cancelled_by actor) in
      let code : Reason = elim reason [ none ↦ fallback | some r ↦ r ] in
      (enqueue_in_tx db w EventSource.backend (
          Event.order_cancelled (record {
            order = to_order_ref order;
            reason_code = code;
            actor = actor;
            was_paid = is_paid order.payment_status;
          }))
        >> emit_stock_changes order.items Delta.up StockReason.cancel order.order_number)

  -- `emitStatusChanged` for an order whose status has changed.
  unfoldable pub emit_change : Order → OrderStatus → Actor → Option Reason → M (Unit {0})
  unfolding enqueue_in_tx emit_cancelled to_order_ref to_contract_status
  emit_change order old actor reason =
      let gone =
        same_status order.status OrderStatus.cancelled
        || same_status order.status OrderStatus.expired in
      (enqueue_in_tx db w EventSource.backend (
          Event.order_status_changed (record {
            order = to_order_ref order;
            old = to_contract_status old order.payment_method;
            new = to_contract_status order.status order.payment_method;
            backend_from = old;
            backend_to = order.status;
            actor = actor;
            reason = reason;
          }))
        >> (if gone then emit_cancelled order actor reason else pure tt))

  unfoldable pub emit_status_changed : ℕ → OrderStatus → Actor → Option Reason → M (Unit {0})
  unfolding find_order_details_by_id emit_change
  emit_status_changed id old actor reason =
      if not w.has_agent
      then pure tt
      else (find_order_details_by_id id >>= λ order.
          if same_status order.status old then pure tt else emit_change order old actor reason)

  -- `emitOrderCreated`, for a service with the agent link
  unfoldable pub emit_created : Order → M (Unit {0})
  unfolding enqueue_in_tx emit_stock_changes to_order_ref to_order_lines to_address to_piasters
  emit_created o s =
      let joined =
        map
          (λ (i : OrderItem).
            (i, db.find_first (λ (v : Variant). v.id == i.product_variant_id) s.variants))
          o.items in
      (enqueue_in_tx db w EventSource.backend (
            Event.order_created (record {
              order = to_order_ref o;
              lines = to_order_lines joined;
              address = to_address o;
              customer_name = o.contact.customer_name;
              subtotal_piasters = to_piasters o.subtotal;
              discount_piasters = to_piasters o.discount;
              shipping_piasters = to_piasters o.shipping_fee;
              cod_fee_piasters = to_piasters o.cod_fee;
              coupon_code = o.coupon_code;
              utm = utm_of o.utm;
              customer_note = o.contact.notes;
            }))
          >> emit_stock_changes o.items Delta.down StockReason.sale o.order_number)
        s

  unfoldable pub emit_order_created : Order → M (Unit {0})
  unfolding emit_created
  emit_order_created o = if w.has_agent then emit_created o else pure tt

  -- `kickAgent`
  unfoldable pub kick_agent : M (Unit {0})
  unfolding kick
  kick_agent = if w.has_agent then kick db w else pure tt
