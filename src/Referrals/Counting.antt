-- ===== src/Referrals/Counting.antt =====
-- The counts of the codes, and the code that a customer has.
use rive_backend.Base.{
  ℕ, ◌+◌, ◌≡◌, refl, sym, subst, Bool, true, Option, none, some, List, [], ◌∷◌, ◌++◌, ◌==◌, arith,
  all, any, keep, find, length, Result, ok, err, Bool-cases, Option-cases, inl, inr, if◌then◌else◌,
}
use rive_backend.Base.Text.{Text, text_eq}
use rive_backend.Db.{Prisma, IsPrisma, tables, on_every_db, update_where}
use rive_backend.Referrals.{
  ReferralCode, ReferralReward, Referrals, ReferralWorld, generate_code, new_referral_code,
  code_of_customer, create_code, get_my_code, find_code, is_own_code, validate_code, reward_code,
  record_reward, used_once_more, new_reward, is_customer,
}

-- The rewards of a code.
abbrev pub rewards_of : ℕ → List ReferralReward → ℕ
rewards_of code rewards = length (keep (λ (r : ReferralReward). r.referral_code_id == code) rewards)

abbrev counts_rewards : List ReferralReward → ReferralCode → Bool
counts_rewards rewards c = c.uses_count == rewards_of c.id rewards

-- Every code has counted its rewards.
abbrev pub IsCounted : Referrals → Type 0
IsCounted s = all (counts_rewards s.rewards) s.referral_codes ≡ true

rewards_of-append :
    (code : ℕ) (rewards : List ReferralReward) (r : ReferralReward)
    → rewards_of code (rewards ++ r ∷ [])
      ≡ rewards_of code rewards + (if r.referral_code_id == code then 1 else 0)
rewards_of-append code [] r = ground arith
rewards_of-append code (x ∷ xs) r = ground (arith, rewards_of-append code xs r)

counted-reward :
    (t : List ReferralCode) (rewards : List ReferralReward) (r : ReferralReward)
    → all (counts_rewards rewards) t ≡ true
    → all
        (counts_rewards (rewards ++ r ∷ []))
        (update_where (λ (c : ReferralCode). c.id == r.referral_code_id) used_once_more t)
      ≡ true
counted-reward [] rewards r h = refl
counted-reward (c ∷ t) rewards r h =
    ground (arith, rewards_of-append c.id rewards r, counted-reward t rewards r)

counted-append :
    (t : List ReferralCode) (rewards : List ReferralReward) (c : ReferralCode)
    → all (counts_rewards rewards) t ≡ true
    → c.uses_count ≡ rewards_of c.id rewards
    → all (counts_rewards rewards) (t ++ c ∷ []) ≡ true
counted-append [] rewards c h e = ground arith
counted-append (x ∷ t) rewards c h e = ground (arith, counted-append t rewards c)

find-append :
    {Row : Type 0} (p : Row → Bool) (t : List Row) (r : Row)
    → find p t ≡ none
    → p r ≡ true
    → find p (t ++ r ∷ []) ≡ some r
find-append p [] r h e = ground arith
find-append p (x ∷ t) r h e = ground (arith, find-append p t r)

-- The requests.
pub data ReferralCall : Type 0 where
  own_code : ℕ → ReferralCall
  validation : Text → Option ℕ → ReferralCall
  reward : Text → Option ℕ → Option ℕ → ReferralCall

abbrev pub after : Prisma → ReferralWorld → ReferralCall → Referrals → Referrals
after db w (own_code user) s = (get_my_code db w user s).1
after db w (validation code user) s = (validate_code db w code user s).1
after db w (reward code order amount) s = (record_reward db w code order amount s).1

-- Requests one after the other, each with a new key that no reward refers to.
pub data ReferralRun (db : Prisma) : Referrals → Referrals → Type 0 where
  idle : {s : Referrals} → ReferralRun db s s
  call :
      {s t : Referrals} (w : ReferralWorld) (c : ReferralCall)
      → rewards_of w.new_id s.rewards ≡ 0
      → ReferralRun db (after db w c s) t
      → ReferralRun db s t

module _ (w : ReferralWorld) where
  get_my_code-IsCounted :
      (user : ℕ) (s : Referrals)
      → rewards_of w.new_id s.rewards ≡ 0
      → IsCounted s
      → IsCounted (get_my_code tables w user s).1
  unfolding get_my_code create_code
  get_my_code-IsCounted user s fresh counted =
      elim (Option-cases (code_of_customer tables w user s)) [
        | inr (c, e) ↦ rw e counted
        | inl e ↦
            elim (Bool-cases (
              any (λ (c : ReferralCode). text_eq c.code (generate_code tables w user))
                s.referral_codes)) [
                  | inl taken ↦ rw (e, taken) counted
                  | inr free ↦
                      rw (e, free)
                        (counted-append s.referral_codes s.rewards (new_referral_code tables w user)
                          counted (sym fresh))
                ]
      ]

  validate_code-reads :
      (code : Text) (user : Option ℕ) (s : Referrals) → (validate_code tables w code user s).1 ≡ s
  unfolding validate_code
  validate_code-reads code user s = elim (Option-cases (find_code tables w code s)) [
    | inl e ↦ rw e refl
    | inr (c, e) ↦ elim (Bool-cases (is_own_code user c.customer_id)) [
      | inl own ↦ rw (e, own) refl
      | inr other ↦ rw (e, other) refl
    ]
  ]

  record_reward-IsCounted :
      (code : Text) (order amount : Option ℕ) (s : Referrals)
      → IsCounted s
      → IsCounted (record_reward tables w code order amount s).1
  unfolding record_reward reward_code
  record_reward-IsCounted code order amount s counted =
      elim (Option-cases (find_code tables w code s)) [
        | inl e ↦ rw e counted
        | inr (c, e) ↦
            rw e (
              counted-reward s.referral_codes s.rewards (new_reward tables w c order amount)
                counted)
      ]

  after-IsCounted :
      (c : ReferralCall) (s : Referrals)
      → rewards_of w.new_id s.rewards ≡ 0
      → IsCounted s
      → IsCounted (after tables w c s)
  after-IsCounted (own_code user) s fresh counted = get_my_code-IsCounted user s fresh counted
  after-IsCounted (validation code user) s fresh counted =
      subst IsCounted (sym (validate_code-reads code user s)) counted
  after-IsCounted (reward code order amount) s fresh counted =
      record_reward-IsCounted code order amount s counted

tables-Run : {s t : Referrals} → ReferralRun tables s t → IsCounted s → IsCounted t
tables-Run idle counted = counted
tables-Run (call {s = s} w c fresh run) counted =
    tables-Run run (after-IsCounted w c s fresh counted)

-- The count of every referral code is the number of its rewards: requests for a code, validations
-- and rewards, in any order, each with a new key that no reward refers to, keep it so.
pub ReferralRun-IsCounted :
    (db : Prisma) → IsPrisma db → {s t : Referrals} → ReferralRun db s t → IsCounted s → IsCounted t
ReferralRun-IsCounted db h {s} {t} =
    on_every_db (λ d. ReferralRun d s t → IsCounted s → IsCounted t) tables-Run db h

-- Where a code is returned, it is the first one of the customer.
abbrev IsCodeOf : ℕ → Result ReferralCode × Referrals → Type 0
IsCodeOf user (ok c, t) =
    find (λ (x : ReferralCode). is_customer user x.customer_id) t.referral_codes ≡ some c
IsCodeOf user (err e, t) = Unit {0}

get_my_code-IsCodeOf :
    (w : ReferralWorld) (user : ℕ) (s : Referrals) → IsCodeOf user (get_my_code tables w user s)
unfolding get_my_code create_code
get_my_code-IsCodeOf w user s = elim (Option-cases (code_of_customer tables w user s)) [
  | inr (c, e) ↦ rw e e
  | inl e ↦
      elim (Bool-cases (
        any (λ (c : ReferralCode). text_eq c.code (generate_code tables w user))
          s.referral_codes)) [
            | inl taken ↦ rw (e, taken) tt
            | inr free ↦
                rw (e, free)
                  (find-append (λ (x : ReferralCode). is_customer user x.customer_id)
                    s.referral_codes (new_referral_code tables w user) e (ground arith))
          ]
]

abbrev KeepsCode : Prisma → Type 0
KeepsCode db =
    (w w' : ReferralWorld) (user : ℕ) (s t : Referrals) (c : ReferralCode)
    → get_my_code db w user s ≡ (ok c, t)
    → get_my_code db w' user t ≡ (ok c, t)

tables-KeepsCode : KeepsCode tables
unfolding get_my_code
tables-KeepsCode w w' user s t c made =
    let found : code_of_customer tables w' user t ≡ some c =
      subst (IsCodeOf user) made (get_my_code-IsCodeOf w user s) in
    rw found refl

-- A customer has one code: where a request for it returned a code, the next request of the same
-- customer on the tables that it left returns the same code and changes nothing.
pub get_my_code-again :
    (db : Prisma)
    → IsPrisma db
    → (w w' : ReferralWorld) (user : ℕ) (s t : Referrals) (c : ReferralCode)
    → get_my_code db w user s ≡ (ok c, t)
    → get_my_code db w' user t ≡ (ok c, t)
get_my_code-again = on_every_db KeepsCode tables-KeepsCode
