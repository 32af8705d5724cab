-- ===== src/Orders/Totals.antt =====
-- The amounts of an order, as `create` of src/orders/orders.service.ts computes them, and as its
-- columns keep them.
use rive_backend.Base.{
  ℕ, ◌+◌, ◌-◌, ◌*◌, ◌≤◌, ◌≡◌, refl, ap, subst, Bool, true, false, ◌&&◌, Option, none, some, List,
  arith, Result, ok, err, if◌then◌else◌, throw_if, pure, ◌>>◌, Failure,
}
use rive_backend.Base.Text.{Text}
use rive_backend.Db.{Prisma, IsPrisma, tables, on_every_db, round_decimal}
use rive_backend.Schema.{Order, OrderItem, SiteSettings}
use rive_backend.Store.{Store, World}
use rive_backend.Orders.Status.{is_cod}
use rive_backend.Orders.Create.{
  CreateOrderDto, Redeemed, method_of, subtotal_of, new_order, Totals, compute_totals, exceeds,
  positive, setting, is_free_shipping,
}

-- What the amounts of an order satisfy, given its subtotal, its discount and the zone's price.
pub record AddsUp (settings : Option SiteSettings) (cod : Bool) (subtotal discount price : ℕ)
    (t : Totals) : Type 0 where
  pub sum : t.total_amount + discount ≡ subtotal + t.shipping_fee + t.cod_fee
  pub shipping : t.shipping_fee ≤ price
  pub free :
      is_free_shipping
          (positive (setting (λ u. u.free_shipping_threshold) settings))
          (subtotal - discount)
        ≡ true
      → t.shipping_fee ≡ 0
  pub online : cod ≡ false → t.cod_fee ≡ 0
  pub limited :
      cod ≡ true
      → exceeds (positive (setting (λ u. u.cod_max_amount) settings)) (t.total_amount - t.cod_fee)
        ≡ false

value_or : {A : Type 0} → A → Result A → A
value_or a (ok r) = r
value_or a (err e) = a

at_most : (b : Bool) (n : ℕ) → (if b then 0 else n) ≤ n
at_most true n = omega arith
at_most false n = omega arith

add_sub : (a b : ℕ) → (a + b) - b ≡ a
add_sub a b = omega arith

under : (c b : Bool) → (c && b) ≡ false → c ≡ true → b ≡ false
under c b h k = ground arith

guarded :
    {A : Type 0} (b : Bool) (e : Failure) (a r : A) (s u : Store)
    → (throw_if b e >> pure a) s ≡ (ok r, u)
    → (b ≡ false) × (a ≡ r)
unfolding value_or
guarded true e a r s u h = cc
guarded false e a r s u h = (refl, ap (λ (x : Result _ × Store). value_or a x.0) h)

compute_totals-AddsUp :
    (settings : Option SiteSettings) (cod : Bool) (subtotal discount price : ℕ) (s u : Store)
    (t : Totals)
    → discount ≤ subtotal
    → compute_totals settings cod subtotal discount price s ≡ (ok t, u)
    → AddsUp settings cod subtotal discount price t
unfolding compute_totals
compute_totals-AddsUp settings cod subtotal discount price s u t within done =
    let threshold = positive (setting (λ u. u.free_shipping_threshold) settings) in
    let limit = positive (setting (λ u. u.cod_max_amount) settings) in
    let free = is_free_shipping threshold (subtotal - discount) in
    let fee = (if free then 0 else price) in
    let before = (subtotal + fee) - discount in
    let extra : ℕ = (if cod then elim settings [ none ↦ 0 | some x ↦ x.cod_fee ] else 0) in
    let (within_limit, same) = guarded (cod && exceeds limit before) _ _ t s u done in
    subst (AddsUp settings cod subtotal discount price) same (record {
      sum = omega (arith, within);
      shipping = at_most free price;
      free = λ h. rw h;
      online = λ h. rw h;
      limited = λ h. rw (add_sub before extra) (under cod (exceeds limit before) within_limit h);
    })

-- An amount with two decimals.
abbrev pub IsMoney : ℕ → Type 0
IsMoney n = (k : ℕ) × (n ≡ k * 10000)

-- Rounded, two amounts whose sum has two decimals add up to it, or to the next.
round_two :
    (x d n : ℕ)
    → x + d ≡ n
    → IsMoney n
    → (n ≤ round_decimal x + round_decimal d) × (round_decimal x + round_decimal d ≤ n + 10000)
round_two x d n h (k, e) = omega arith

round-money : (n : ℕ) → IsMoney n → round_decimal n ≡ n
round-money n (k, e) = omega arith

round-difference : (x d n : ℕ) → x + d ≡ n → IsMoney n → IsMoney d → round_decimal x ≡ x
round-difference x d n h (k, e) (m, f) = omega arith

IsMoney-add : (a b c : ℕ) → IsMoney a → IsMoney b → IsMoney c → IsMoney (a + b + c)
IsMoney-add a b c (k, e) (l, f) (m, g) = (k + l + m, omega arith)

IsMoney-if : (b : Bool) (n : ℕ) → IsMoney n → IsMoney (if b then 0 else n)
IsMoney-if true n h = (0, refl)
IsMoney-if false n h = h

IsMoney-fee : (b : Bool) (n : ℕ) → IsMoney n → IsMoney (if b then n else 0)
IsMoney-fee true n h = h
IsMoney-fee false n h = (0, refl)

abbrev pub fee_of : Option SiteSettings → ℕ
fee_of settings = elim settings [ none ↦ 0 | some t ↦ t.cod_fee ]

compute_totals-IsMoney :
    (settings : Option SiteSettings) (cod : Bool) (subtotal discount price : ℕ) (s u : Store)
    (t : Totals)
    → IsMoney price
    → IsMoney (fee_of settings)
    → compute_totals settings cod subtotal discount price s ≡ (ok t, u)
    → IsMoney t.shipping_fee × IsMoney t.cod_fee
unfolding compute_totals
compute_totals-IsMoney settings cod subtotal discount price s u t priced charged done =
    let threshold = positive (setting (λ u. u.free_shipping_threshold) settings) in
    let limit = positive (setting (λ u. u.cod_max_amount) settings) in
    let free = is_free_shipping threshold (subtotal - discount) in
    let before = (subtotal + (if free then 0 else price)) - discount in
    let (within_limit, same) = guarded (cod && exceeds limit before) _ _ t s u done in
    subst (λ (r : Totals). IsMoney r.shipping_fee × IsMoney r.cod_fee) same
      (IsMoney-if free price priced, IsMoney-fee cod (fee_of settings) charged)

-- The amounts of a stored order: they add up, or to one piaster more, and exactly where the discount
-- has two decimals.
pub record IsBalanced (discount : ℕ) (o : Order) : Type 0 where
  pub least : o.subtotal + o.shipping_fee + o.cod_fee ≤ o.total_amount + o.discount
  pub most : o.total_amount + o.discount ≤ o.subtotal + o.shipping_fee + o.cod_fee + 10000
  pub exact :
      IsMoney discount → o.total_amount + o.discount ≡ o.subtotal + o.shipping_fee + o.cod_fee

abbrev Balances : Prisma → Type 0
Balances db =
    (w : World) (dto : CreateOrderDto) (user : Option ℕ) (phone : Text)
    (settings : Option SiteSettings) (items : List OrderItem) (redeemed : Redeemed) (price : ℕ)
    (s u : Store) (t : Totals)
    → redeemed.discount ≤ subtotal_of items
    → IsMoney (subtotal_of items)
    → IsMoney price
    → IsMoney (fee_of settings)
    → compute_totals settings (is_cod (method_of dto)) (subtotal_of items) redeemed.discount price s
      ≡ (ok t, u)
    → AddsUp settings (is_cod (method_of dto)) (subtotal_of items) redeemed.discount price t
      × IsBalanced redeemed.discount (new_order db w dto user phone items redeemed t)

tables-Balances : Balances tables
tables-Balances w dto user phone settings items redeemed price s u t within sold priced charged
      done =
    let cod = is_cod (method_of dto) in
    let subtotal = subtotal_of items in
    let discount = redeemed.discount in
    let up = compute_totals-AddsUp settings cod subtotal discount price s u t within done in
    let (shipped, fee) =
      compute_totals-IsMoney settings cod subtotal discount price s u t priced charged done in
    let whole = IsMoney-add subtotal t.shipping_fee t.cod_fee sold shipped fee in
    let two = round_two t.total_amount discount _ up.sum whole in
    (
      up,
      rw (round-money subtotal sold, round-money t.shipping_fee shipped, round-money t.cod_fee fee)
          (record {
            least = two.0;
            most = two.1;
            exact = λ h.
                rw
                  (
                    round-difference t.total_amount discount _ up.sum whole h,
                    round-money discount h,
                  )
                  up.sum;
          }),
    )

-- Where `create` accepts the amounts, with a discount within the subtotal, and the subtotal, the
-- zone's price and the fee for payment on delivery have two decimals: the computed total, with the
-- discount, is exactly the sum of the subtotal and the fees; the shipping is the zone's price or
-- less, and nothing from the threshold on; only an order paid on delivery has that fee, and its
-- computed total without the fee is within the limit. The amounts of the new row, each rounded to
-- two decimals, add up exactly where the discount has two decimals, and else exactly or to one
-- piaster more.
pub new_order-AddsUp :
    (db : Prisma)
    → IsPrisma db
    → (w : World) (dto : CreateOrderDto) (user : Option ℕ) (phone : Text)
    → (settings : Option SiteSettings) (items : List OrderItem) (redeemed : Redeemed) (price : ℕ)
    → (s u : Store) (t : Totals) → redeemed.discount ≤ subtotal_of items
    → IsMoney (subtotal_of items)
    → IsMoney price
    → IsMoney (fee_of settings)
    → compute_totals settings (is_cod (method_of dto)) (subtotal_of items) redeemed.discount price s
      ≡ (ok t, u)
    → AddsUp settings (is_cod (method_of dto)) (subtotal_of items) redeemed.discount price t
      × IsBalanced redeemed.discount (new_order db w dto user phone items redeemed t)
new_order-AddsUp = on_every_db Balances tables-Balances
