-- ===== src/Examples/Referrals.antt =====
-- What the theorems on referral codes say of one customer and one friend.
use rive_backend.Base.{◌≡◌, refl, none, some, [], ◌∷◌, ok}
use rive_backend.Base.Text.{codes}
use rive_backend.Db.{tables, tables-IsPrisma}
use rive_backend.Referrals.{
  Referrals, ReferralWorld, new_referral_code, get_my_code, find_code, record_reward,
  used_once_more,
}
use rive_backend.Referrals.Counting.{
  IsCounted, ReferralRun, after, own_code, reward, idle, call, get_my_code-again,
  ReferralRun-IsCounted,
}

abbrev empty_tables : Referrals
empty_tables = record { referrers = []; referral_codes = []; rewards = [] }

abbrev first_request : ReferralWorld
first_request = record {
  new_id = 1;
  random_hex = codes "0A1B2C";
  text_of_id = λ id. codes "CLX9ABCD";
  upper = λ t. t;
}

abbrev second_request : ReferralWorld
second_request = record first_request { new_id = 2; random_hex = codes "FFFFFF" }

abbrev with_code : Referrals
with_code = after tables first_request (own_code 8) empty_tables

abbrev with_reward : Referrals
with_reward = after tables second_request (reward (codes " REF-ABCD0A1B2C") (some 5) none) with_code

get_my_code-again_example :
    get_my_code tables second_request 8 with_code
    ≡ (ok (new_referral_code tables first_request 8), with_code)
unfolding get_my_code
get_my_code-again_example =
    get_my_code-again tables tables-IsPrisma first_request second_request 8 empty_tables with_code
      (new_referral_code tables first_request 8) refl

invited : ReferralRun tables empty_tables with_reward
unfolding get_my_code record_reward
invited =
    call first_request (own_code 8) refl
      (call second_request (reward (codes " REF-ABCD0A1B2C") (some 5) none) refl idle)

ReferralRun-IsCounted_example : IsCounted with_reward
ReferralRun-IsCounted_example = ReferralRun-IsCounted tables tables-IsPrisma invited refl

-- The code was found, and used once.
used_once :
    with_reward.referral_codes ≡ used_once_more (new_referral_code tables first_request 8) ∷ []
unfolding get_my_code record_reward find_code
used_once = refl
