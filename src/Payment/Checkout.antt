-- ===== src/Payment/Checkout.antt =====
-- `createCheckoutSession` of src/payment/paymob.service.ts.
use rive_backend.Base.{
  ℕ, Bool, true, false, not, ◌&&◌, ◌||◌, Option, none, some, [], ◌∷◌, ◌++◌, ◌==◌, is_some,
  if◌then◌else◌, ltb, pure, throw, throw_if, ◌>>=◌, ◌>>◌, gets, or_throw, not_found, forbidden,
  bad_request,
}
use rive_backend.Base.Text.{Text, codes}
use rive_backend.Db.{Prisma}
use rive_backend.Schema.{Order}
use rive_backend.Store.{World, M}
use rive_backend.Util.Ownership.{Caller, is_order_owned_by_actor, is_admin}
use rive_backend.Orders.Status.{OrderStatus, same_status, is_cod}
use rive_backend.Orders.Emit.{find_order, has_id}
use rive_backend.Orders.Cancel.{expire_order, has_lapsed, with_orders}
use rive_backend.Orders.Create.{same_text, is_nil}
use rive_backend.Payment.Gateway.{Gateway, IntentionReply, truthy_or}

pub record CheckoutSession : Type 0 where
  pub session_id : Text
  pub url : Text
  pub order_id : ℕ
  pub order_number : Text
  -- which of the two messages goes with it
  pub is_new : Bool

-- The negation of the guard `status !== PENDING || !reservationExpiresAt || it <= now`.
abbrev pub awaits_payment : ℕ → Order → Bool
awaits_payment now o =
    same_status o.status OrderStatus.pending
    && is_some o.reservation_expires_at
    && not (has_lapsed now o.reservation_expires_at)

unfoldable pub checkout_url : Gateway → Text → Text
checkout_url g secret =
    codes "https://accept.paymob.com/unifiedcheckout/?publicKey="
    ++ (g.public_key ++ (codes "&clientSecret=" ++ secret))

abbrev pub session_of : Gateway → Order → Text → Bool → CheckoutSession
session_of g o secret is_new = record {
  session_id = secret;
  url = checkout_url g secret;
  order_id = o.id;
  order_number = o.order_number;
  is_new = is_new;
}

module _ (db : Prisma) (w : World) (g : Gateway) where
  -- `where: { id, status: PENDING, paymentSessionId: null }`
  abbrev pub is_open_checkout : ℕ → Order → Bool
  is_open_checkout id o =
      has_id id o && same_status o.status OrderStatus.pending && not (is_some o.payment_session_id)

  abbrev pub with_session : Text → Option Text → Order → Order
  with_session secret intention o = record o {
    payment_session_id = some secret;
    paymob_intention_id = intention;
  }

  -- Another order's unique session or intention.
  abbrev pub session_clashes : ℕ → Text → Option Text → Order → Bool
  session_clashes id secret intention o =
      not (has_id id o)
      && (same_text db w o.payment_session_id (some secret)
          || same_text db w o.paymob_intention_id intention)

  -- A write that matched nothing: the session may be there by now.
  unfoldable pub persisted_session : Order → Text → M CheckoutSession
  unfolding find_order
  persisted_session order secret s = elim (find_order db w order.id s) [
    | none ↦ throw (bad_request "Order is no longer awaiting payment") s
    | some p ↦
        (if same_text db w p.payment_session_id (some secret)
            then pure (session_of g order secret false)
            else throw (bad_request "Order is no longer awaiting payment"))
          s
  ]

  unfoldable pub save_session : Order → Text → Option Text → M CheckoutSession
  unfolding persisted_session
  save_session order secret intention s =
      let hit = is_open_checkout order.id in
      let saved = with_orders s (db.update_many hit (with_session secret intention) s.orders) in
      let updated = db.matched hit s.orders in
      if ltb 0 (db.matched (session_clashes order.id secret intention) s.orders) && ltb 0 updated
      then throw (bad_request "Failed to create Paymob checkout session") s
      else if not (updated == 1)
      then persisted_session order secret saved
      else pure (session_of g order secret true) saved

  -- The request to Paymob and what follows from its reply.
  unfoldable pub open_session : Order → IntentionReply → M CheckoutSession
  unfolding save_session
  open_session order IntentionReply.refused =
      throw (bad_request "Failed to create Paymob intention")
  open_session order IntentionReply.failed =
      throw (bad_request "Failed to create Paymob checkout session")
  open_session order (IntentionReply.created none intention) =
      throw (bad_request "Paymob response missing client_secret")
  open_session order (IntentionReply.created (some []) intention) =
      throw (bad_request "Paymob response missing client_secret")
  open_session order (IntentionReply.created (some (c ∷ secret)) intention) =
      save_session order (c ∷ secret) intention

  -- `tryReuseExistingCheckoutSession`, or a new session
  unfoldable pub reuse_or_open : Order → M CheckoutSession
  unfolding open_session
  reuse_or_open order =
      elim (truthy_or (truthy_or order.payment_session_id order.paymob_intention_id) none) [
        | some secret ↦ pure (session_of g order secret false)
        | none ↦ open_session order (g.intention order)
      ]

  -- The guards on the order that was read, after the expiry.
  unfoldable pub checkout_found : Caller → Order → M CheckoutSession
  unfolding is_order_owned_by_actor reuse_or_open
  checkout_found caller order = do
    throw_if
        (not (is_admin caller)
          && not (is_order_owned_by_actor order.user_id order.guest_access_token caller))
        (forbidden "You do not have permission to checkout this order")
    throw_if (is_cod order.payment_method) (bad_request "COD orders cannot be processed via Paymob")
    throw_if (not (awaits_payment w.now order)) (bad_request "This order is not awaiting payment")
    throw_if (is_nil order.items) (bad_request "Order must contain at least one item")
    reuse_or_open order

  unfoldable pub create_checkout_session : ℕ → Caller → M CheckoutSession
  unfolding expire_order find_order checkout_found
  create_checkout_session id caller = do
    expire_order db w id w.now
    found ← gets (find_order db w id)
    order ← or_throw found (not_found "Order not found")
    checkout_found caller order
