-- ===== src/Auth.antt =====
-- Sessions and passwords: src/auth/auth.service.ts. Hashes, random values and the signing of access
-- tokens are the libraries'.
pub mod Login
pub mod Locking
pub mod TwoFactor
pub mod Passwords
pub mod Rotation
use Prim.Native.String.{String}
use rive_backend.Base.{
  ℕ, ◌+◌, ◌*◌, Bool, true, false, not, ◌&&◌, ◌||◌, Option, none, some, ◌==◌, leb, is_some,
  if◌then◌else◌, List, Action, pure, throw, throw_if, modify, ◌>>=◌, ◌>>◌, gets, or_throw,
  transaction, settle, Result, ok, err, unauthorized, forbidden, conflict, not_found, bad_request,
}
use rive_backend.Base.Text.{Text, text_eq}
use rive_backend.Db.{Prisma}
use rive_backend.Util.Ownership.{Role}

pub record User : Type 0 where
  pub id : ℕ
  pub email : Text
  pub username : Option Text
  pub password_hash : Text
  pub role : Role
  pub is_active : Bool
  pub is_blocked : Bool
  pub password_reset_token : Option Text
  pub password_reset_expires_at : Option ℕ
  pub two_factor_enabled_at : Option ℕ
  pub two_factor_secret_enc : Option Text
  pub two_factor_last_used_step : Option ℕ
  pub failed_login_attempts : ℕ
  pub locked_until : Option ℕ
  pub deleted_at : Option ℕ

pub record RefreshToken : Type 0 where
  pub id : ℕ
  pub user_id : ℕ
  pub token_hash : Text
  pub expires_at : ℕ
  pub revoked_at : Option ℕ

pub record RecoveryCode : Type 0 where
  pub id : ℕ
  pub user_id : ℕ
  pub code_hash : Text
  pub used_at : Option ℕ

-- An audit entry of an account.
pub record AccountEntry : Type 0 where
  pub user_id : ℕ
  pub action : String

-- What an event of the type `admin.login` says beside its success.
pub data LoginNote : Type 0 where
  locked : LoginNote
  wrong_password : ℕ → Bool → LoginNote
  two_factor_pending : LoginNote
  complete : LoginNote

-- The payload of such an event in the outbox of the agent.
pub record AdminLogin : Type 0 where
  pub admin_id : ℕ
  pub ip : Option Text
  pub user_agent : Option Text
  pub success : Bool
  pub note : LoginNote

pub record Accounts : Type 0 where
  pub users : List User
  pub tokens : List RefreshToken
  pub recovery_codes : List RecoveryCode
  pub entries : List AccountEntry
  pub admin_logins : List AdminLogin

-- What a request finds: the clock, the next random token and key, the hashes, and the configuration.
pub record AuthWorld : Type 0 where
  pub now : ℕ
  pub new_token : Text
  pub new_token_id : ℕ
  -- `sha256` in hexadecimal
  pub hash_token : Text → Text
  -- `bcrypt.compare` and `bcrypt.hash`
  pub compare_password : Text → Text → Bool
  pub hash_password : Text → Text
  -- `isTwoFactorConfigured()`, and the setting that enforces it
  pub two_factor_configured : Bool
  pub enforce_two_factor : Bool
  -- the insert into AuditLog succeeds
  pub audit_up : Bool
  -- the agent's events are there, and the insert into the outbox succeeds
  pub has_agent : Bool
  pub outbox_up : Bool
  -- `meta` of a login
  pub ip : Option Text
  pub user_agent : Option Text
  -- the user of a valid token with the purpose `2fa`
  pub challenged : Text → Option ℕ
  -- the time step, one off the present one at most, at which a code is that of an encrypted secret
  pub step_of : Text → Text → Option ℕ
  -- `toLowerCase` and `toUpperCase`
  pub lower : Text → Text
  pub upper : Text → Text

abbrev pub N : Type 0 → Type 0
N A = Action Accounts A

-- The pair that is returned: the access token stands for its user.
pub record TokenPair : Type 0 where
  pub user : ℕ
  pub refresh_token : Text

unfoldable pub refresh_token_ttl_ms : ℕ
refresh_token_ttl_ms = 30 * 24 * 60 * 60 * 1000

-- `revokedAt: null`
abbrev pub is_live_of : ℕ → RefreshToken → Bool
is_live_of user t = t.user_id == user && not (is_some t.revoked_at)

-- `where: { id, revokedAt: null }`
abbrev pub is_unrotated : ℕ → RefreshToken → Bool
is_unrotated id t = t.id == id && not (is_some t.revoked_at)

abbrev pub revoked : ℕ → RefreshToken → RefreshToken
revoked now t = record t { revoked_at = some now }

module _ (db : Prisma) (w : AuthWorld) where
  -- `auditLogService.record` of an account
  unfoldable pub record_account : ℕ → String → N (Unit {0})
  record_account user action s = pure tt (
      if w.audit_up
      then record s { entries = db.create (record { user_id = user; action = action }) s.entries }
      else s)

  abbrev pub token_of : ℕ → RefreshToken
  token_of user = record {
    id = w.new_token_id;
    user_id = user;
    token_hash = w.hash_token w.new_token;
    expires_at = w.now + refresh_token_ttl_ms;
    revoked_at = none;
  }

  -- `issueTokenPair`
  unfoldable pub issue_token_pair : ℕ → N TokenPair
  unfolding refresh_token_ttl_ms
  issue_token_pair user = do
    modify (λ s. record s { tokens = db.create (token_of user) s.tokens })
    pure (record { user = user; refresh_token = w.new_token })

  -- Every live session of a user ends.
  unfoldable pub revoke_all : ℕ → N (Unit {0})
  revoke_all user =
      modify (λ s. record s { tokens = db.update_many (is_live_of user) (revoked w.now) s.tokens })

  -- `revokeAllUserSessionsAndLogReuse`
  unfoldable pub revoke_all_and_log : ℕ → N (Unit {0})
  unfolding revoke_all record_account
  revoke_all_and_log user =
      revoke_all user >> record_account user "auth.refresh-token-reuse-detected"

  abbrev pub has_hash : Text → RefreshToken → Bool
  has_hash token t = text_eq t.token_hash (w.hash_token token)

  -- `include` finds a user that was soft-deleted too.
  abbrev pub owner_of : RefreshToken → Accounts → Option User
  owner_of t s = db.find_first (λ (u : User). u.id == t.user_id) s.users

  -- `findFirst({ where: { tokenHash }, include: { user: true } })`
  unfoldable pub find_token : Text → Accounts → Option (RefreshToken × User)
  find_token token s = elim (db.find_first (has_hash token) s.tokens) [
    | none ↦ none
    | some t ↦ elim (owner_of t s) [ none ↦ none | some u ↦ some (t, u) ]
  ]

  -- The callback of the rotation.
  unfoldable pub rotate_in_transaction : RefreshToken → N TokenPair
  unfolding issue_token_pair
  rotate_in_transaction t s =
      let updated = db.matched (is_unrotated t.id) s.tokens in
      let s' = record s { tokens = db.update_many (is_unrotated t.id) (revoked w.now) s.tokens } in
      (throw_if (updated == 0) (conflict "CONCURRENT_ROTATION") >> issue_token_pair t.user_id) s'

  -- The `catch`: another request has rotated the token meanwhile.
  unfoldable pub caught : ℕ → Result TokenPair × Accounts → Result TokenPair × Accounts
  unfolding revoke_all_and_log
  caught user (ok p, s) = (ok p, s)
  caught user (err (conflict m), s) =
      (revoke_all_and_log user >> throw (unauthorized "Invalid or expired refresh token")) s
  caught user (err e, s) = (err e, s)

  unfoldable pub rotate : RefreshToken → N TokenPair
  unfolding rotate_in_transaction caught
  rotate t s = caught t.user_id (transaction (rotate_in_transaction t) s)

  -- What `refresh` does with the token and the user that it has read.
  unfoldable pub refresh_found : RefreshToken × User → N TokenPair
  unfolding revoke_all_and_log rotate
  refresh_found (t, u) = do
    throw_if (leb t.expires_at w.now) (unauthorized "Invalid or expired refresh token")
    throw_if (u.is_blocked || not u.is_active) (forbidden "Your account has been blocked")
    if is_some t.revoked_at
        then (revoke_all_and_log t.user_id
            >> throw (unauthorized "Invalid or expired refresh token"))
        else rotate t

  unfoldable pub refresh : Text → N TokenPair
  unfolding find_token refresh_found
  refresh token = do
    found ← gets (find_token token)
    p ← or_throw found (unauthorized "Invalid or expired refresh token")
    refresh_found p

  unfoldable pub logout : Text → N (Unit {0})
  logout token = modify (λ s. record s {
    tokens =
        db.update_many (λ (t : RefreshToken). has_hash token t && not (is_some t.revoked_at))
          (revoked w.now) s.tokens;
  })

  -- The transactions that set a password, and end every session.
  unfoldable pub set_password : ℕ → (User → User) → N (Unit {0})
  unfolding revoke_all
  set_password user change = transaction (
      modify (λ s. record s { users = db.update_many (λ (u : User). u.id == user) change s.users })
      >> revoke_all user)

  abbrev pub find_user : ℕ → Accounts → Option User
  find_user id s = db.find_first (λ (u : User). u.id == id && not (is_some u.deleted_at)) s.users

  unfoldable pub change_password : ℕ → Text → Text → N (Unit {0})
  unfolding set_password record_account
  change_password id current new = do
    found ← gets (find_user id)
    user ← or_throw found (not_found "User not found")
    throw_if (not (w.compare_password current user.password_hash))
        (unauthorized "Current password is incorrect")
    set_password user.id (λ (u : User). record u { password_hash = w.hash_password new })
    record_account user.id "auth.password-change"

  abbrev pub has_reset_token : Text → User → Bool
  has_reset_token token u = elim u.password_reset_token [
    | none ↦ false
    | some h ↦ text_eq h (w.hash_token token)
  ]

  abbrev pub reset_expired : Option ℕ → Bool
  reset_expired none = true
  reset_expired (some t) = leb t w.now

  abbrev pub reset_to : Text → User → User
  reset_to new u = record u {
    password_hash = w.hash_password new;
    password_reset_token = none;
    password_reset_expires_at = none;
  }

  unfoldable pub reset_password : Text → Text → N (Unit {0})
  unfolding set_password record_account
  reset_password token new = do
    found ← gets (λ s.
        db.find_first (λ (u : User). has_reset_token token u && not (is_some u.deleted_at)) s.users)
    user ← or_throw found (bad_request "Invalid password reset token")
    throw_if (reset_expired user.password_reset_expires_at)
        (bad_request "Password reset token has expired")
    set_password user.id (reset_to new)
    record_account user.id "auth.password-reset"
