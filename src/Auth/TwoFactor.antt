-- ===== src/Auth/TwoFactor.antt =====
-- `verifyTwoFactorLogin` of src/auth/auth.service.ts: the second factor of a login.
pub mod Codes
use rive_backend.Base.{
  ℕ, ◌≡◌, ◌≤◌, refl, sym, subst, ◌∙◌, Bool, true, false, not, ◌&&◌, ◌||◌, Option, none, some, List,
  ◌==◌, arith, find, is_some, leb, ltb, if◌then◌else◌, ◌>>=◌, ◌>>◌, gets, modify, pure, throw,
  throw_if, or_throw, transaction, Result, ok, err, unauthorized, forbidden, unavailable,
  Bool-cases, Option-cases, inl, inr, Failure,
}
use rive_backend.Base.Text.{Text, text_eq, trim}
use rive_backend.Db.{Prisma, IsPrisma, tables, on_every_db, update_where}
use rive_backend.Db.Keys.{find-changed, find-holds}
use rive_backend.Auth.{
  User, RecoveryCode, Accounts, AuthWorld, N, TokenPair, find_user, issue_token_pair,
  record_account,
}
use rive_backend.Auth.Login.{is_locked, forgiven, count_failure, write_user}

-- `twoFactorLastUsedStep === null || timeStep > twoFactorLastUsedStep`
abbrev pub is_later : ℕ → Option ℕ → Bool
is_later step none = true
is_later step (some last) = ltb last step

abbrev pub if_later : Option ℕ → Option ℕ → Option ℕ
if_later none last = none
if_later (some step) last = if is_later step last then some step else none

-- What is accepted: a code of a time step, or a recovery code.
pub data Factor : Type 0 where
  by_step : ℕ → Factor
  by_code : ℕ → Factor

abbrev pub factor_of : Option ℕ → Option RecoveryCode → Option Factor
factor_of (some step) found = some (by_step step)
factor_of none (some r) = some (by_code r.id)
factor_of none none = none

abbrev pub used_step : ℕ → User → User
used_step step u = record u {
  two_factor_last_used_step = some step;
  failed_login_attempts = 0;
  locked_until = none;
}

module _ (db : Prisma) (w : AuthWorld) where
  -- The time step of the code, if it was not used before.
  abbrev pub accepted_step : Text → User → Option ℕ
  accepted_step code u = elim u.two_factor_secret_enc [
    | none ↦ none
    | some secret ↦ if_later (w.step_of (trim code) secret) u.two_factor_last_used_step
  ]

  -- `findMatchingRecoveryCode`
  abbrev pub find_recovery_code : Text → ℕ → Accounts → Option RecoveryCode
  find_recovery_code code user s =
      find (λ (r : RecoveryCode). text_eq r.code_hash (w.hash_token (w.upper (trim code))))
        (db.find_many (λ (r : RecoveryCode). r.user_id == user && not (is_some r.used_at))
          s.recovery_codes)

  unfoldable pub find_factor : Text → User → Accounts → Option Factor
  unfolding trim
  find_factor code u s = factor_of (accepted_step code u) (find_recovery_code code u.id s)

  unfoldable pub use_factor : ℕ → Factor → N (Unit {0})
  unfolding write_user
  use_factor user (by_step step) = write_user db w user (used_step step)
  use_factor user (by_code code) = do
    write_user db w user forgiven
    modify (λ s. record s {
      recovery_codes =
          db.update_many (λ (r : RecoveryCode). r.id == code)
            (λ (r : RecoveryCode). record r { used_at = some w.now }) s.recovery_codes;
    })

  unfoldable pub accept_factor : User → Factor → N TokenPair
  unfolding use_factor issue_token_pair
  accept_factor u f = transaction (use_factor u.id f) >> issue_token_pair db w u.id

  -- The guards on the user that was read, and the code.
  unfoldable pub verify_found : Text → User → N TokenPair
  unfolding find_factor accept_factor count_failure
  verify_found code u = do
    throw_if (not u.is_active || u.is_blocked) (unauthorized "Invalid credentials")
    throw_if (is_locked w.now u.locked_until)
        (forbidden "Account locked due to too many failed login attempts")
    factor ← gets (find_factor code u)
    elim factor [
      | some f ↦ accept_factor u f
      | none ↦ count_failure db w u >> throw (unauthorized "Invalid credentials")
    ]

  unfoldable pub verify_two_factor_login : Text → Text → N TokenPair
  unfolding verify_found
  verify_two_factor_login token code = do
    throw_if (not w.two_factor_configured)
        (unavailable "Two-factor authentication is not configured")
    id ← or_throw (w.challenged token) (unauthorized "Invalid or expired two-factor token")
    found ← gets (find_user db w id)
    u ← or_throw found (unauthorized "Invalid credentials")
    verify_found code u
