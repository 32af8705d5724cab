-- ===== src/Util/Ownership.antt =====
-- src/common/utils/order-ownership.ts and src/common/utils/timing-safe-compare.ts. Node's
-- `timingSafeEqual` on equally long buffers is equality; texts are well-formed UTF-16.
use rive_backend.Base.{
  ℕ, Bool, true, false, not, ◌&&◌, ◌||◌, Option, none, some, [], ◌∷◌, ◌==◌, is_some,
}
use rive_backend.Base.Text.{Text, text_eq}

-- `timingSafeStringEqual`: a text that is missing or empty equals nothing.
unfoldable pub timing_safe_string_equal : Option Text → Option Text → Bool
timing_safe_string_equal none b = false
timing_safe_string_equal (some []) b = false
timing_safe_string_equal (some (c ∷ s)) none = false
timing_safe_string_equal (some (c ∷ s)) (some []) = false
timing_safe_string_equal (some (c ∷ s)) (some (d ∷ t)) = text_eq (c ∷ s) (d ∷ t)

pub data Role : Type 0 where
  admin customer : Role

pub record Caller : Type 0 where
  pub user_id : Option ℕ
  pub role : Option Role
  pub guest_access_token : Option Text

abbrev same_user : Option ℕ → Option ℕ → Bool
same_user none b = false
same_user (some u) none = false
same_user (some u) (some v) = u == v

unfoldable pub is_order_owned_by_actor : Option ℕ → Option Text → Caller → Bool
unfolding timing_safe_string_equal
is_order_owned_by_actor user_id token c =
    same_user user_id c.user_id
    || (not (is_some user_id) && timing_safe_string_equal token c.guest_access_token)

-- `actor?.role !== "ADMIN"`, negated
abbrev pub is_admin : Caller → Bool
is_admin c = elim c.role [ none ↦ false | some admin ↦ true | some customer ↦ false ]
