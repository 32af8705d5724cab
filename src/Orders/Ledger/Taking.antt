-- ===== src/Orders/Ledger/Taking.antt =====
-- What the steps of `create` before the insert do to the books: stock is taken, and a use of the
-- coupon is counted.
use rive_backend.Base.{
  ℕ, ◌+◌, ◌-◌, ◌≡◌, refl, not, Bool, Option, none, some, List, [], ◌∷◌, arith, ◌==◌, if◌then◌else◌,
  same_key, sum_by, keep, length, pure,
}
use rive_backend.Base.Text.{Text}
use rive_backend.Db.{tables}
use rive_backend.Db.Keys.{IsUnique, find_of_match, sum_by-update, update_where-IsUnique, find-holds}
use rive_backend.Schema.{OrderItem, Variant, Coupon, SiteSettings}
use rive_backend.Store.{Store, World}
use rive_backend.Coupons.{find_coupon, has_expired, is_too_small}
use rive_backend.Orders.Emit.{quantity_of}
use rive_backend.Orders.Frames.{Frames, Frames-bind, Frames-pure}
use rive_backend.Orders.Create.{
  ItemDto, Redeemed, reservable, reserve_item, reserve_items, redeemable, count_use, redeem_coupon,
  redeem_found, is_customer_limit_reached, price_item, price_items, find_zone, compute_totals,
}
use rive_backend.Orders.Ledger.{
  stock_at, count_at, Ensures, Ensures-bind, Ensures-map, Ensures-unless, Ensures-guard,
  Ensures-or_throw,
}

-- The stock of variant `v` has fallen by its pieces in `items`, and nothing else has changed.
pub record Taken (v : ℕ) (items : List OrderItem) (s t : Store) : Type 0 where
  pub orders : t.orders ≡ s.orders
  pub coupons : t.coupons ≡ s.coupons
  pub variant_keys : IsUnique (λ (x : Variant). x.id) t.variants
  pub stock : sum_by (stock_at v) t.variants + quantity_of v items ≡ sum_by (stock_at v) s.variants

-- One more use of the coupon is counted, if there is one.
pub record Counted (c : ℕ) (coupon : Option ℕ) (s t : Store) : Type 0 where
  pub orders : t.orders ≡ s.orders
  pub variants : t.variants ≡ s.variants
  pub coupon_keys : IsUnique (λ (k : Coupon). k.id) t.coupons
  pub count :
      sum_by (count_at c) t.coupons
      ≡ sum_by (count_at c) s.coupons + (if same_key coupon c then 1 else 0)

module _ (w : World) (v : ℕ) where
  reserve_item-lem :
      (i : OrderItem) (s : Store)
      → IsUnique (λ (x : Variant). x.id) s.variants
      → Ensures (λ _ t. Taken v (i ∷ []) s t) (reserve_item tables w i s)
  unfolding reserve_item
  reserve_item-lem i s u =
      let hit = reservable tables w i in
      let less = λ (x : Variant). record x { stock = x.stock - i.quantity } in
      Ensures-guard _ (not (length (keep hit s.variants) == 1)) _ _ (λ enough.
        let (x, found) = find_of_match hit s.variants (ground arith) in
        record {
          orders = refl;
          coupons = refl;
          variant_keys =
              update_where-IsUnique (λ (x : Variant). x.id) hit less s.variants (λ r. refl) u;
          stock = ground (
            arith,
            find-holds hit s.variants x found,
            sum_by-update (λ (x : Variant). x.id) hit less (stock_at v) i.product_variant_id
                s.variants x (λ r h. ground arith) u found,
          );
        })

  pub reserve_items-lem :
      (items : List OrderItem) (s : Store)
      → IsUnique (λ (x : Variant). x.id) s.variants
      → Ensures (λ _ t. Taken v items s t) (reserve_items tables w items s)
  unfolding reserve_items
  reserve_items-lem [] s u = record {
    orders = refl;
    coupons = refl;
    variant_keys = u;
    stock = omega arith;
  }
  reserve_items-lem (i ∷ is) s u =
      Ensures-bind (λ _ t. Taken v (i ∷ []) s t) _ (reserve_item tables w i s)
        (λ _. reserve_items tables w is) (reserve_item-lem i s u)
        (λ _ t one.
          Ensures-map (λ _ u. Taken v is t u) _ (reserve_items tables w is t)
            (reserve_items-lem is t one.variant_keys) (λ _ u rest. ground arith))

module _ (w : World) (c : ℕ) where
  count_use-lem :
      (k : Coupon) (s : Store)
      → IsUnique (λ (x : Coupon). x.id) s.coupons
      → Ensures (λ _ t. Counted c (some k.id) s t) (count_use tables w k s)
  unfolding count_use
  count_use-lem k s u =
      let hit = redeemable tables w k in
      let more = λ (x : Coupon). record x { usage_count = x.usage_count + 1 } in
      Ensures-guard _ (not (length (keep hit s.coupons) == 1)) _ _ (λ enough.
        let (x, found) = find_of_match hit s.coupons (ground arith) in
        record {
          orders = refl;
          variants = refl;
          coupon_keys =
              update_where-IsUnique (λ (x : Coupon). x.id) hit more s.coupons (λ r. refl) u;
          count = ground (
            arith,
            find-holds hit s.coupons x found,
            sum_by-update (λ (x : Coupon). x.id) hit more (count_at c) k.id s.coupons x
                (λ r h. ground arith) u found,
          );
        })

  redeem_found-lem :
      (k : Coupon) (user : Option ℕ) (subtotal : ℕ) (s : Store)
      → IsUnique (λ (x : Coupon). x.id) s.coupons
      → Ensures (λ r t. Counted c r.coupon_id s t) (redeem_found tables w k user subtotal s)
  unfolding redeem_found
  redeem_found-lem k user subtotal s u = Ensures-unless _ (not k.is_active) _ _ s (λ active.
      Ensures-unless _ (has_expired w.now k.expires_at) _ _ s (λ fresh.
        Ensures-unless _ (is_too_small k.min_order_amount subtotal) _ _ s (λ enough.
          Ensures-unless _ (is_customer_limit_reached tables w k user s) _ _ s (λ unused.
            Ensures-bind (λ _ t. Counted c (some k.id) s t) _ (count_use tables w k s) _
              (count_use-lem k s u) (λ _ t counted. counted)))))

  pub redeem_coupon-lem :
      (code : Option Text) (user : Option ℕ) (subtotal : ℕ) (s : Store)
      → IsUnique (λ (x : Coupon). x.id) s.coupons
      → Ensures (λ r t. Counted c r.coupon_id s t) (redeem_coupon tables w code user subtotal s)
  unfolding redeem_coupon
  redeem_coupon-lem none user subtotal s u = record {
    orders = refl;
    variants = refl;
    coupon_keys = u;
    count = omega arith;
  }
  redeem_coupon-lem (some code) user subtotal s u =
      Ensures-or_throw (λ (r : Redeemed) t. Counted c r.coupon_id s t) (find_coupon tables w code s)
        _ (λ k. redeem_found tables w k user subtotal) s
        (λ k found. redeem_found-lem k user subtotal s u)

price_item-Frames : (vs : List Variant) (i : ItemDto) → Frames (price_item vs i)
unfolding price_item
price_item-Frames vs i s = ground arith

pub price_items-Frames : (vs : List Variant) (items : List ItemDto) → Frames (price_items vs items)
unfolding price_items
price_items-Frames vs [] s = record {
  orders = refl;
  variants = refl;
  coupons = refl;
  events = refl;
}
price_items-Frames vs (i ∷ is) s =
    Frames-bind (price_item vs i) _ (price_item-Frames vs i)
      (λ item.
        Frames-bind (price_items vs is) (λ items. pure (item ∷ items)) (price_items-Frames vs is)
          (λ items. Frames-pure (item ∷ items)))
      s

pub find_zone-Frames : (w : World) (city : Option Text) → Frames (find_zone tables w city)
unfolding find_zone
find_zone-Frames w none s = ground arith
find_zone-Frames w (some city) s = ground arith

pub compute_totals-Frames :
    (settings : Option SiteSettings) (cod : Bool) (subtotal discount price : ℕ)
    → Frames (compute_totals settings cod subtotal discount price)
unfolding compute_totals
compute_totals-Frames settings cod subtotal discount price s = ground arith
