-- ===== src/Orders/Ledger/Release.antt =====
-- What goes back when an order is given up: its coupon's use and its items' stock.
use rive_backend.Base.{
  ℕ, ◌+◌, ◌-◌, ◌≡◌, refl, ◌≤◌, ◌&&◌, Option, none, some, List, [], ◌∷◌, arith, ◌==◌, ltb,
  if◌then◌else◌, same_key, sum_by, keep, length, Bool-cases, inl, inr, ok,
}
use rive_backend.Db.{tables, update_where}
use rive_backend.Db.Keys.{
  IsUnique, update_where-none, find_of_match, sum_by-update, update_where-IsUnique, sum_by-zero,
  find-holds,
}
use rive_backend.Schema.{OrderItem, Variant, Coupon}
use rive_backend.Store.{Store, World}
use rive_backend.Orders.Emit.{quantity_of}
use rive_backend.Orders.Cancel.{release_coupon, restore_item, restore_items}
use rive_backend.Orders.Ledger.{stock_at, count_at, Ensures, Ensures-bind, Ensures-map}

-- The stock of variant `v` has grown by its pieces in `items`, and nothing else has changed.
pub record Restored (v : ℕ) (items : List OrderItem) (s t : Store) : Type 0 where
  pub orders : t.orders ≡ s.orders
  pub coupons : t.coupons ≡ s.coupons
  pub variant_keys : IsUnique (λ (x : Variant). x.id) t.variants
  pub stock : sum_by (stock_at v) t.variants ≡ sum_by (stock_at v) s.variants + quantity_of v items

-- One use of the coupon is taken back, if there was one.
pub record Released (c : ℕ) (coupon : Option ℕ) (s t : Store) : Type 0 where
  pub orders : t.orders ≡ s.orders
  pub variants : t.variants ≡ s.variants
  pub coupon_keys : IsUnique (λ (k : Coupon). k.id) t.coupons
  pub count :
      sum_by (count_at c) t.coupons + (if same_key coupon c then 1 else 0)
      ≡ sum_by (count_at c) s.coupons

module _ (w : World) (v : ℕ) where
  restore_item-lem :
      (i : OrderItem) (s : Store)
      → IsUnique (λ (x : Variant). x.id) s.variants
      → Ensures (λ _ t. Restored v (i ∷ []) s t) (restore_item tables w i s)
  unfolding restore_item
  restore_item-lem i s u =
      let hit = λ (x : Variant). x.id == i.product_variant_id in
      let more = λ (x : Variant). record x { stock = x.stock + i.quantity } in
      elim (Bool-cases (length (keep hit s.variants) == 0)) [
        | inl e ↦ rw (e, restore_item) tt
        | inr e ↦
            let (x, found) = find_of_match hit s.variants e in
            rw (e, restore_item)
              (record {
                orders = refl;
                coupons = refl;
                variant_keys =
                    update_where-IsUnique (λ (x : Variant). x.id) hit more s.variants (λ r. refl) u;
                stock = ground (
                  arith,
                  find-holds hit s.variants x found,
                  sum_by-update (λ (x : Variant). x.id) hit more (stock_at v) i.product_variant_id
                      s.variants x (λ r h. ground arith) u found,
                );
              })
      ]

  pub restore_items-lem :
      (items : List OrderItem) (s : Store)
      → IsUnique (λ (x : Variant). x.id) s.variants
      → Ensures (λ _ t. Restored v items s t) (restore_items tables w items s)
  unfolding restore_items
  restore_items-lem [] s u = record {
    orders = refl;
    coupons = refl;
    variant_keys = u;
    stock = omega arith;
  }
  restore_items-lem (i ∷ is) s u =
      Ensures-bind (λ _ t. Restored v (i ∷ []) s t) _ (restore_item tables w i s)
        (λ _. restore_items tables w is) (restore_item-lem i s u)
        (λ _ t one.
          Ensures-map (λ _ u. Restored v is t u) _ (restore_items tables w is t)
            (restore_items-lem is t one.variant_keys) (λ _ u rest. ground arith))

module _ (w : World) (c : ℕ) where
  -- The decrement of a positive count takes one use of that coupon away.
  count_release :
      (k : ℕ) (t : List Coupon)
      → IsUnique (λ (r : Coupon). r.id) t
      → (if k == c then 1 else 0) ≤ sum_by (count_at c) t
      → sum_by (count_at c) (
            update_where
              (λ (r : Coupon). r.id == k && ltb 0 r.usage_count)
              (λ (r : Coupon). record r { usage_count = r.usage_count - 1 })
              t)
          + (if k == c then 1 else 0)
        ≡ sum_by (count_at c) t
  count_release k t u h =
      let hit = λ (r : Coupon). r.id == k && ltb 0 r.usage_count in
      let less = λ (r : Coupon). record r { usage_count = r.usage_count - 1 } in
      elim (Bool-cases (length (keep hit t) == 0)) [
        | inl e ↦ elim (Bool-cases (k == c)) [
          | inl same ↦
              absurd (
                ground
                  (arith, sum_by-zero hit (count_at c) t (λ r no. ground arith) (ground arith)))
          | inr other ↦ ground (arith, update_where-none hit less t)
        ]
        | inr e ↦
            let (x, found) = find_of_match hit t e in
            ground (
              arith,
              find-holds hit t x found,
              sum_by-update (λ (r : Coupon). r.id) hit less (count_at c) k t x (λ r p. ground arith)
                  u found,
            )
      ]

  pub release_coupon-lem :
      (coupon : Option ℕ) (s : Store)
      → IsUnique (λ (k : Coupon). k.id) s.coupons
      → (if same_key coupon c then 1 else 0) ≤ sum_by (count_at c) s.coupons
      → Released c coupon s (release_coupon tables w coupon s).1
  unfolding release_coupon
  release_coupon-lem none s u h = record {
    orders = refl;
    variants = refl;
    coupon_keys = u;
    count = omega arith;
  }
  release_coupon-lem (some k) s u h =
      let hit = λ (r : Coupon). r.id == k && ltb 0 r.usage_count in
      let less = λ (r : Coupon). record r { usage_count = r.usage_count - 1 } in
      record {
        orders = refl;
        variants = refl;
        coupon_keys = update_where-IsUnique (λ (r : Coupon). r.id) hit less s.coupons (λ r. refl) u;
        count = count_release k s.coupons u h;
      }

  pub release_coupon-ok :
      (coupon : Option ℕ) (s : Store) → (release_coupon tables w coupon s).0 ≡ ok tt
  unfolding release_coupon
  release_coupon-ok none s = refl
  release_coupon-ok (some k) s = refl
