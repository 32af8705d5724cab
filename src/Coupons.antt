-- ===== src/Coupons.antt =====
-- src/coupons/coupons.service.ts: whether a coupon applies to a subtotal, and what it takes off.
-- `CouponsService.validateCoupon` quotes; `OrdersService.create` redeems with the same discount.
pub mod Discount
use rive_backend.Base.{
  ℕ, ◌+◌, ◌*◌, ◌/◌, Bool, true, false, not, ◌&&◌, ◌||◌, Option, none, some, ltb, leb, min,
  if◌then◌else◌, pure, throw_if, ◌>>=◌, ◌>>◌, gets, or_throw, bad_request,
}
use rive_backend.Base.Text.{Text, text_eq, trim}
use rive_backend.Db.{Prisma}
use rive_backend.Schema.{Coupon, CouponType}
use rive_backend.Store.{Store, World, M}

-- `coupon.expiresAt && coupon.expiresAt < new Date()`
abbrev pub has_expired : ℕ → Option ℕ → Bool
has_expired now none = false
has_expired now (some t) = ltb t now

-- `limit !== null && count >= limit`
abbrev pub is_used_up : Option ℕ → ℕ → Bool
is_used_up none count = false
is_used_up (some limit) count = leb limit count

-- `minimum && subtotal.lessThan(minimum)`
abbrev pub is_too_small : Option ℕ → ℕ → Bool
is_too_small none subtotal = false
is_too_small (some minimum) subtotal = ltb subtotal minimum

-- A percentage is a number of millionths of a percent: `subtotal * value / 100`.
unfoldable pub discount_by : CouponType → ℕ → ℕ → ℕ
discount_by CouponType.percentage value subtotal = subtotal * value / 100000000
discount_by CouponType.fixed value subtotal = min value subtotal

pub record Quote : Type 0 where
  pub discount_amount : ℕ
  pub coupon : Coupon

module _ (db : Prisma) (w : World) where
  -- `findUnique({ where: { code: code.trim().toUpperCase() } })`
  unfoldable pub find_coupon : Text → Store → Option Coupon
  unfolding trim
  find_coupon code s =
      db.find_first (λ (k : Coupon). text_eq k.code (w.upper (trim code))) s.coupons

  unfoldable pub validate_coupon : Text → ℕ → M Quote
  unfolding find_coupon discount_by
  validate_coupon code subtotal = do
    found ← gets (find_coupon code)
    k ← or_throw found (bad_request "Coupon is invalid or inactive")
    throw_if (not k.is_active) (bad_request "Coupon is invalid or inactive")
    throw_if (has_expired w.now k.expires_at) (bad_request "Coupon has expired")
    throw_if (is_used_up k.usage_limit k.usage_count) (bad_request "Coupon usage limit reached")
    throw_if (is_too_small k.min_order_amount subtotal)
        (bad_request "Minimum order amount for this coupon")
    pure (record { discount_amount = discount_by k.type k.value subtotal; coupon = k })
