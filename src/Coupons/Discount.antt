-- ===== src/Coupons/Discount.antt =====
-- The discount of a coupon, as `validateCoupon` and `create` compute it.
use rive_backend.Base.{ℕ, ◌*◌, ◌≤◌, ◌≡◌, refl, arith}
use native.Mathlib.Nat.{div-le_of_le-mul, mul-le-mul_left}
use rive_backend.Schema.{CouponType}
use rive_backend.Coupons.{discount_by}

product : (value n : ℕ) → value ≤ 100000000 → n * value ≤ 100000000 * n
product value n h = omega (arith, mul-le-mul_left n h)

-- A discount never exceeds the subtotal, but for a percentage above one hundred.
pub discount_by-le_subtotal :
    (type : CouponType) (value subtotal : ℕ)
    → (type ≡ CouponType.percentage → value ≤ 100000000)
    → discount_by type value subtotal ≤ subtotal
unfolding discount_by
discount_by-le_subtotal CouponType.percentage value subtotal h =
    div-le_of_le-mul 100000000 (product value subtotal (h refl))
discount_by-le_subtotal CouponType.fixed value subtotal h = omega arith
