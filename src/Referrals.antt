-- ===== src/Referrals.antt =====
-- src/referrals/referrals.service.ts: the codes by which customers invite others.
pub mod Counting
use rive_backend.Base.{
  ℕ, ◌+◌, ◌-◌, ◌≡◌, refl, Bool, true, false, Option, none, some, List, ◌++◌, ◌==◌, if◌then◌else◌,
  any, length, drop, Action, pure, throw_if, throw, modify, ◌>>=◌, ◌>>◌, gets, or_throw,
  transaction, Failure, unique_violation, not_found, bad_request,
}
use rive_backend.Base.Text.{Text, text_eq, trim, codes}
use rive_backend.Db.{Prisma}

pub record ReferralCode : Type 0 where
  pub id : ℕ
  pub customer_id : Option ℕ
  pub code : Text
  pub uses_count : ℕ

pub record ReferralReward : Type 0 where
  pub id : ℕ
  pub referral_code_id : ℕ
  pub order_id : Option ℕ
  pub discount_amount : ℕ

-- The part of a user that the service reads.
pub record Referrer : Type 0 where
  pub id : ℕ
  pub full_name : Text

pub record Referrals : Type 0 where
  pub referrers : List Referrer
  pub referral_codes : List ReferralCode
  pub rewards : List ReferralReward

-- The new key and the random bytes (as hexadecimal digits) of a call, the text of a user's key,
-- and `toUpperCase`.
pub record ReferralWorld : Type 0 where
  pub new_id : ℕ
  pub random_hex : Text
  pub text_of_id : ℕ → Text
  pub upper : Text → Text

pub record ReferralAnswer : Type 0 where
  pub valid : Bool
  pub discount_percent : ℕ
  pub fixed_discount_amount : ℕ
  pub code : Text
  pub referrer_name : Text

abbrev pub is_customer : ℕ → Option ℕ → Bool
is_customer user none = false
is_customer user (some c) = c == user

-- `currentUserId && ref.customerId === currentUserId`
abbrev pub is_own_code : Option ℕ → Option ℕ → Bool
is_own_code none customer = false
is_own_code (some user) customer = is_customer user customer

abbrev pub name_or_friend : Option Referrer → Text
name_or_friend none = codes "Friend"
name_or_friend (some r) = r.full_name

abbrev pub or_fifty : Option ℕ → ℕ
or_fifty none = 50000000
or_fifty (some n) = n

abbrev pub used_once_more : ReferralCode → ReferralCode
used_once_more c = record c { uses_count = c.uses_count + 1 }

module _ (db : Prisma) (w : ReferralWorld) where
  -- `userId.slice(-4)` starts at 0 where the text is shorter.
  abbrev pub generate_code : ℕ → Text
  generate_code user =
      let id = w.text_of_id user in
      codes "REF-" ++ (w.upper (drop (length id - 4) id) ++ w.upper w.random_hex)

  abbrev pub new_referral_code : ℕ → ReferralCode
  new_referral_code user = record {
    id = w.new_id;
    customer_id = some user;
    code = generate_code user;
    uses_count = 0;
  }

  abbrev pub code_of_customer : ℕ → Referrals → Option ReferralCode
  code_of_customer user s =
      db.find_first (λ (c : ReferralCode). is_customer user c.customer_id) s.referral_codes

  -- The insert; the code is a unique column.
  unfoldable pub create_code : ℕ → Action Referrals ReferralCode
  create_code user = do
    taken ←
        gets (λ s. any (λ (c : ReferralCode). text_eq c.code (generate_code user)) s.referral_codes)
    throw_if taken unique_violation
    modify (λ s. record s { referral_codes = db.create (new_referral_code user) s.referral_codes })
    pure (new_referral_code user)

  unfoldable pub get_my_code : ℕ → Action Referrals ReferralCode
  unfolding create_code
  get_my_code user = do
    found ← gets (code_of_customer user)
    elim found [ some c ↦ pure c | none ↦ create_code user ]

  unfoldable pub find_code : Text → Referrals → Option ReferralCode
  unfolding trim
  find_code code s =
      db.find_first (λ (c : ReferralCode). text_eq c.code (w.upper (trim code))) s.referral_codes

  abbrev pub referrer_of : Option ℕ → Referrals → Option Referrer
  referrer_of none s = none
  referrer_of (some id) s = db.find_first (λ (r : Referrer). r.id == id) s.referrers

  unfoldable pub validate_code : Text → Option ℕ → Action Referrals ReferralAnswer
  unfolding find_code
  validate_code code user = do
    found ← gets (find_code code)
    ref ← or_throw found (not_found "Referral code is invalid")
    throw_if (is_own_code user ref.customer_id)
        (bad_request "You cannot use your own referral code")
    referrer ← gets (referrer_of ref.customer_id)
    pure (record {
      valid = true;
      discount_percent = 10000000;
      fixed_discount_amount = 50000000;
      code = ref.code;
      referrer_name = name_or_friend referrer;
    })

  abbrev pub new_reward : ReferralCode → Option ℕ → Option ℕ → ReferralReward
  new_reward ref order amount = record {
    id = w.new_id;
    referral_code_id = ref.id;
    order_id = order;
    discount_amount = db.to_decimal (or_fifty amount);
  }

  -- The two writes of `recordReward`.
  unfoldable pub reward_code :
      ReferralCode → ReferralReward → Action Referrals (ReferralCode × ReferralReward)
  reward_code ref reward = do
    modify (λ s. record s {
      referral_codes =
          db.update_many (λ (c : ReferralCode). c.id == ref.id) used_once_more s.referral_codes;
    })
    modify (λ s. record s { rewards = db.create reward s.rewards })
    pure (used_once_more ref, reward)

  unfoldable pub record_reward :
      Text → Option ℕ → Option ℕ → Action Referrals (Option (ReferralCode × ReferralReward))
  unfolding reward_code
  record_reward code order amount = do
    found ← gets (find_code code)
    elim found [
      | none ↦ pure none
      | some ref ↦ do
        made ← transaction (reward_code ref (new_reward ref order amount))
        pure (some made)
    ]
