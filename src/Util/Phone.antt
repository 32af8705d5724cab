-- ===== src/Util/Phone.antt =====
-- src/common/utils/phone-normalization.ts: Egyptian phone numbers, and their masked form.
pub mod Normal
use mathlib.Core.List.{reverse}
use rive_backend.Base.{
  ℕ, zero, suc, Bool, true, false, not, ◌&&◌, ◌||◌, Option, none, some, List, [], ◌∷◌, ◌++◌, leb,
  ◌==◌, if◌then◌else◌, keep, all, length, drop, ◌-◌,
}
use rive_backend.Base.Text.{Text, is_space}

abbrev pub is_digit : ℕ → Bool
is_digit c = leb b'0' c && leb c b'9'

-- `[0125]`
abbrev is_operator : ℕ → Bool
is_operator c = c == b'0' || c == b'1' || c == b'2' || c == b'5'

-- `/[\s-]/`
abbrev pub is_separator : ℕ → Bool
is_separator c = is_space c || c == b'-'

-- `1[0125]\d{8}`, as a whole
unfoldable pub is_subscriber : Text → Bool
is_subscriber (a ∷ b ∷ rest) = a == b'1' && is_operator b && length rest == 8 && all is_digit rest
is_subscriber _ = false

abbrev pub plus20 : Text
plus20 = b'+' ∷ b'2' ∷ b'0' ∷ []

-- `(?:\+20|0020|20|0)?`, the alternatives in the order in which they are tried
abbrev pub prefixes : List Text
prefixes = plus20 ∷ (b'0' ∷ b'0' ∷ b'2' ∷ b'0' ∷ []) ∷ (b'2' ∷ b'0' ∷ []) ∷ (b'0' ∷ []) ∷ [] ∷ []

unfoldable pub strip_prefix : Text → Text → Option Text
strip_prefix [] s = some s
strip_prefix (p ∷ ps) [] = none
strip_prefix (p ∷ ps) (c ∷ s) = if p == c then strip_prefix ps s else none

abbrev subscriber_after : Option Text → Option Text
subscriber_after none = none
subscriber_after (some rest) = if is_subscriber rest then some rest else none

abbrev or_else : Option Text → Option Text → Option Text
or_else none o = o
or_else (some t) o = some t

-- The group that the expression captures, if it matches.
unfoldable pub match_phone : List Text → Text → Option Text
unfolding strip_prefix is_subscriber
match_phone [] s = none
match_phone (p ∷ ps) s = or_else (subscriber_after (strip_prefix p s)) (match_phone ps s)

abbrev pub with_country : Option Text → Option Text
with_country none = none
with_country (some subscriber) = some (plus20 ++ subscriber)

unfoldable pub normalize_egyptian_phone : Text → Option Text
unfolding match_phone is_space
normalize_egyptian_phone [] = none
normalize_egyptian_phone phone =
    with_country (match_phone prefixes (keep (λ c. not (is_separator c)) phone))

unfoldable pub mask_phone_last3 : Text → Text
mask_phone_last3 phone =
    let digits = keep is_digit phone in
    let stars : Text = b'*' ∷ b'*' ∷ b'*' ∷ [] in
    if leb (length digits) 3 then stars ++ digits else stars ++ drop (length digits - 3) digits
