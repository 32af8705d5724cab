-- ===== src/Util/Phone/Normal.antt =====
-- The normal form of phone numbers: its shape, the spellings that lead to it, and the mask.
use rive_backend.Base.{
  ℕ, ◌-◌, zero, suc, ◌≡◌, refl, ap, subst, sym, true, not, Option, none, some, List, [], ◌∷◌, ◌++◌,
  arith, leb, if◌then◌else◌, keep, all, length, take, drop, min, Bool-cases, Option-cases, inl, inr,
}
use rive_backend.Base.Text.{Text, is_space}
use rive_backend.Util.Phone.{
  is_digit, is_separator, is_subscriber, plus20, prefixes, strip_prefix, match_phone,
  normalize_egyptian_phone, mask_phone_last3, with_country,
}

-- What the expression captures is a subscriber's number.
match_phone-is_subscriber :
    (ps : List Text) (s r : Text) → match_phone ps s ≡ some r → is_subscriber r ≡ true
unfolding match_phone
match_phone-is_subscriber [] s r h = cc
match_phone-is_subscriber (p ∷ ps) s r h = elim (Option-cases (strip_prefix p s)) [
  | inl e ↦ ground (arith, match_phone-is_subscriber ps s r)
  | inr (rest, e) ↦ elim (Bool-cases (is_subscriber rest)) [
    | inl f ↦ ground arith
    | inr f ↦ ground (arith, match_phone-is_subscriber ps s r)
  ]
]

-- A subscriber's number has no separator in it.
keep-digits : (s : Text) → all is_digit s ≡ true → keep (λ c. not (is_separator c)) s ≡ s
unfolding is_space
keep-digits [] h = refl
keep-digits (c ∷ s) h = ground (arith, keep-digits s)

digits-of_subscriber : (s : Text) → is_subscriber s ≡ true → all is_digit s ≡ true
unfolding is_subscriber
digits-of_subscriber [] h = refl
digits-of_subscriber (a ∷ []) h = cc
digits-of_subscriber (a ∷ b ∷ s) h = ground arith

keep-subscriber : (s : Text) → is_subscriber s ≡ true → keep (λ c. not (is_separator c)) s ≡ s
keep-subscriber s h = keep-digits s (digits-of_subscriber s h)

-- After the prefix "+20" the first alternative of the expression applies.
match_plus20 : (s : Text) → is_subscriber s ≡ true → match_phone prefixes (plus20 ++ s) ≡ some s
unfolding match_phone strip_prefix
match_plus20 s h = rw h

-- Every subscriber's number, with the country code, is its own normal form.
plus20-normal :
    (s : Text)
    → is_subscriber s ≡ true
    → normalize_egyptian_phone (plus20 ++ s) ≡ some (plus20 ++ s)
unfolding normalize_egyptian_phone is_space
plus20-normal s h = rw (keep-subscriber s h, match_plus20 s h)

shape-with_country :
    (o : Option Text) (q : Text)
    → ((r : Text) → o ≡ some r → is_subscriber r ≡ true)
    → with_country o ≡ some q
    → (r : Text) × ((is_subscriber r ≡ true) × (q ≡ plus20 ++ r))
shape-with_country none q k h = cc
shape-with_country (some r) q k h = (r, (k r refl, cc))

-- What `normalizeEgyptianPhone` returns is the country code and a subscriber's number.
normalize-shape :
    (p q : Text)
    → normalize_egyptian_phone p ≡ some q
    → (r : Text) × ((is_subscriber r ≡ true) × (q ≡ plus20 ++ r))
unfolding normalize_egyptian_phone
normalize-shape [] q h = cc
normalize-shape (c ∷ p) q h =
    shape-with_country _ q
      (match_phone-is_subscriber prefixes (keep (λ d. not (is_separator d)) (c ∷ p))) h

-- Normalizing is idempotent: the number that `normalizeEgyptianPhone` returns is its own normal
-- form, and it is the country code followed by a subscriber's number.
pub normalize-idempotent :
    (p q : Text)
    → normalize_egyptian_phone p ≡ some q
    → (normalize_egyptian_phone q ≡ some q)
      × ((r : Text) × ((is_subscriber r ≡ true) × (q ≡ plus20 ++ r)))
normalize-idempotent p q h =
    let (r, (d, e)) = normalize-shape p q h in
    (subst (λ t. normalize_egyptian_phone t ≡ some t) (sym e) (plus20-normal r d), (r, (d, e)))

first_digit : (a b : ℕ) (s : Text) → is_subscriber (a ∷ b ∷ s) ≡ true → a ≡ b'1'
unfolding is_subscriber
first_digit a b s h = ground arith

-- The first digit of a subscriber's number, which no prefix begins with, and the rest.
begins_with_one : (s : Text) → is_subscriber s ≡ true → (r : Text) × (s ≡ b'1' ∷ r)
unfolding is_subscriber
begins_with_one [] h = cc
begins_with_one (a ∷ []) h = cc
begins_with_one (a ∷ b ∷ s) h = (b ∷ s, ap (λ (c : ℕ). c ∷ b ∷ s) (first_digit a b s h))

-- The expression's alternatives on such a number, after each prefix.
Matches : Text → Type 0
Matches s =
    (match_phone prefixes s ≡ some s)
    × (match_phone prefixes (b'0' ∷ s) ≡ some s)
    × (match_phone prefixes (b'2' ∷ b'0' ∷ s) ≡ some s)
    × (match_phone prefixes (b'0' ∷ b'0' ∷ b'2' ∷ b'0' ∷ s) ≡ some s)

match_spellings_one : (r : Text) → is_subscriber (b'1' ∷ r) ≡ true → Matches (b'1' ∷ r)
unfolding match_phone strip_prefix Matches
match_spellings_one r h = (rw h, rw h, rw h, rw h)

match_spellings : (s : Text) → is_subscriber s ≡ true → Matches s
match_spellings s h =
    let (r, e) = begins_with_one s h in
    subst Matches (sym e) (match_spellings_one r (subst (λ t. is_subscriber t ≡ true) e h))

normalize_bare :
    (s : Text)
    → is_subscriber s ≡ true
    → match_phone prefixes s ≡ some s
    → normalize_egyptian_phone s ≡ some (plus20 ++ s)
unfolding normalize_egyptian_phone
normalize_bare [] h k = cc
normalize_bare (c ∷ s) h k =
    ap with_country
      (subst (λ t. match_phone prefixes t ≡ some (c ∷ s)) (sym (keep-subscriber (c ∷ s) h)) k)

-- Every spelling of a subscriber's number has the same normal form: bare, with the trunk zero,
-- and with the country code written `20`, `0020` or `+20`.
pub normalize-spellings :
    (s : Text)
    → is_subscriber s ≡ true
    → (normalize_egyptian_phone s ≡ some (plus20 ++ s))
      × (normalize_egyptian_phone (b'0' ∷ s) ≡ some (plus20 ++ s))
      × (normalize_egyptian_phone (b'2' ∷ b'0' ∷ s) ≡ some (plus20 ++ s))
      × (normalize_egyptian_phone (b'0' ∷ b'0' ∷ b'2' ∷ b'0' ∷ s) ≡ some (plus20 ++ s))
      × (normalize_egyptian_phone (plus20 ++ s) ≡ some (plus20 ++ s))
unfolding normalize_egyptian_phone is_space Matches
normalize-spellings s h =
    let (m1, m2, m3, m4) = match_spellings s h in
    (
      normalize_bare s h m1,
      rw (keep-subscriber s h, m2),
      rw (keep-subscriber s h, m3),
      rw (keep-subscriber s h, m4),
      plus20-normal s h,
    )

abbrev mask : Text → Text
mask digits =
    let stars : Text = b'*' ∷ b'*' ∷ b'*' ∷ [] in
    if leb (length digits) 3 then stars ++ digits else stars ++ drop (length digits - 3) digits

take-drop : (n : ℕ) (s : Text) → take n s ++ drop n s ≡ s
take-drop zero s = refl
take-drop (suc n) [] = refl
take-drop (suc n) (c ∷ s) = ap (λ t. c ∷ t) (take-drop n s)

length-drop : (n : ℕ) (s : Text) → length (drop n s) ≡ length s - n
length-drop zero [] = omega arith
length-drop (suc n) [] = omega arith
length-drop zero (c ∷ s) = omega arith
length-drop (suc n) (c ∷ s) = omega (arith, length-drop n s)

-- A text is three stars and the end of the digits: all of them, or the last three.
pub record IsMaskOf (digits masked : Text) : Type 0 where
  pub front : Text
  pub last : Text
  pub shown : masked ≡ b'*' ∷ b'*' ∷ b'*' ∷ last
  pub whole : digits ≡ front ++ last
  pub size : length last ≡ min 3 (length digits)

mask-IsMaskOf : (d : Text) → IsMaskOf d (mask d)
mask-IsMaskOf d = elim (Bool-cases (leb (length d) 3)) [
  | inl e ↦ record { front = []; last = d; shown = rw e refl; whole = refl; size = ground arith }
  | inr e ↦ record {
    front = take (length d - 3) d;
    last = drop (length d - 3) d;
    shown = rw e refl;
    whole = sym (take-drop (length d - 3) d);
    size = ground (arith, length-drop (length d - 3) d);
  }
]

-- The masked form of a phone number is three stars and the end of the number's digits: the last
-- three digits, in their order, or all of them where there are fewer.
pub mask_phone_last3-IsMaskOf : (p : Text) → IsMaskOf (keep is_digit p) (mask_phone_last3 p)
unfolding mask_phone_last3
mask_phone_last3-IsMaskOf p = mask-IsMaskOf (keep is_digit p)
