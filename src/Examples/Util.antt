-- ===== src/Examples/Util.antt =====
-- What the theorems on discounts, phone numbers and pages say of a few values.
use rive_backend.Base.{keep, ◌<◌, ◌≤◌, ◌≡◌, refl, true, some, ◌++◌, arith}
use rive_backend.Base.Text.{Text, codes}
use rive_backend.Schema.{CouponType}
use rive_backend.Coupons.{discount_by}
use rive_backend.Coupons.Discount.{discount_by-le_subtotal}
use rive_backend.Util.Phone.{
  is_digit, is_subscriber, plus20, normalize_egyptian_phone, mask_phone_last3,
}
use rive_backend.Util.Phone.Normal.{
  normalize-idempotent, normalize-spellings, IsMaskOf, mask_phone_last3-IsMaskOf,
}
use rive_backend.Util.Pagination.{resolve_pagination, build_pagination_meta}
use rive_backend.Util.Pagination.Pages.{resolve_pagination-build_pagination_meta}

discount_by-le_subtotal_example : discount_by CouponType.percentage 10000000 400000000 ≤ 400000000
discount_by-le_subtotal_example =
    discount_by-le_subtotal CouponType.percentage 10000000 400000000 (λ h. omega arith)

normalize-idempotent_example :
    (normalize_egyptian_phone (codes "+201012345678") ≡ some (codes "+201012345678"))
    × ((r : Text) × ((is_subscriber r ≡ true) × (codes "+201012345678" ≡ plus20 ++ r)))
unfolding normalize_egyptian_phone
normalize-idempotent_example =
    normalize-idempotent (codes "0101 234-5678") (codes "+201012345678") refl

normalize-spellings_example :
    (normalize_egyptian_phone (codes "1012345678") ≡ some (codes "+201012345678"))
    × (normalize_egyptian_phone (codes "01012345678") ≡ some (codes "+201012345678"))
    × (normalize_egyptian_phone (codes "201012345678") ≡ some (codes "+201012345678"))
    × (normalize_egyptian_phone (codes "00201012345678") ≡ some (codes "+201012345678"))
    × (normalize_egyptian_phone (codes "+201012345678") ≡ some (codes "+201012345678"))
unfolding is_subscriber
normalize-spellings_example = normalize-spellings (codes "1012345678") refl

mask_phone_last3-IsMaskOf_example :
    IsMaskOf (keep is_digit (codes "010-1234 5678")) (mask_phone_last3 (codes "010-1234 5678"))
mask_phone_last3-IsMaskOf_example = mask_phone_last3-IsMaskOf (codes "010-1234 5678")

-- Of 41 rows in pages of 20, the third page has a row.
resolve_pagination-build_pagination_meta_example :
    let here = resolve_pagination (some 3) (some 20) 20 in
    (here.skip < 41 → 3 ≤ (build_pagination_meta here.page here.limit 41).total_pages)
    × (3 ≤ (build_pagination_meta here.page here.limit 41).total_pages → here.skip < 41)
unfolding resolve_pagination
resolve_pagination-build_pagination_meta_example =
    resolve_pagination-build_pagination_meta 3 20 20 41 (omega arith) (omega arith)
