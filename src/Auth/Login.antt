-- ===== src/Auth/Login.antt =====
-- `login` of src/auth/auth.service.ts and its lock. The event that tells the agent of an
-- administrator's login is a row of `admin_logins`; its delivery, `kick`, is not part of it.
use rive_backend.Base.{
  ℕ, ◌+◌, ◌*◌, Bool, true, false, not, ◌&&◌, ◌||◌, Option, none, some, [], ◌∷◌, ◌==◌, any, is_some,
  ltb, leb, if◌then◌else◌, take, ◌>>=◌, ◌>>◌, gets, modify, pure, throw, throw_if, or_throw,
  bad_request, unauthorized, forbidden, unavailable,
}
use rive_backend.Base.Text.{Text, text_eq, trim, is_empty, is_space}
use rive_backend.Db.{Prisma}
use rive_backend.Util.Ownership.{Role}
use rive_backend.Auth.{
  User, AuthWorld, N, TokenPair, LoginNote, locked, wrong_password, two_factor_pending, complete,
  AdminLogin, issue_token_pair, record_account,
}

pub record LoginDto : Type 0 where
  pub identifier : Option Text
  pub email : Option Text
  pub password : Text

-- A two-factor challenge for a user, or a pair, and whether a second factor must be set up.
pub data LoginAnswer : Type 0 where
  challenge : ℕ → LoginAnswer
  logged_in : TokenPair → Bool → LoginAnswer

unfoldable pub account_lockout_threshold : ℕ
account_lockout_threshold = 5

unfoldable pub account_lockout_ms : ℕ
account_lockout_ms = 15 * 60 * 1000

abbrev pub first_of : Option Text → Option Text → Text
first_of (some t) e = t
first_of none (some t) = t
first_of none none = []

-- `includes("@")`
abbrev pub has_at : Text → Bool
has_at t = any (λ c. c == 64) t

abbrev pub is_locked : ℕ → Option ℕ → Bool
is_locked now none = false
is_locked now (some t) = ltb now t

abbrev pub is_admin_role : Role → Bool
is_admin_role Role.admin = true
is_admin_role Role.customer = false

-- `slice(0, 300)`
abbrev sliced : Option Text → Option Text
sliced none = none
sliced (some t) = some (take 300 t)

-- The `data` after a wrong password: the count, or the lock.
unfoldable pub failed_once : ℕ → ℕ → User → User
unfolding account_lockout_threshold account_lockout_ms
failed_once now attempts u =
    if leb account_lockout_threshold attempts
    then record u { failed_login_attempts = 0; locked_until = some (now + account_lockout_ms) }
    else record u { failed_login_attempts = attempts }

abbrev pub forgiven : User → User
forgiven u = record u { failed_login_attempts = 0; locked_until = none }

-- `replace(/\s+/g, " ")`, after white space or not
unfoldable pub collapse_spaces : Bool → Text → Text
unfolding is_space
collapse_spaces after [] = []
collapse_spaces after (c ∷ t) =
    let rest = collapse_spaces (is_space c) t in
    if is_space c then (if after then rest else 0x20 ∷ rest) else c ∷ rest

module _ (db : Prisma) (w : AuthWorld) where
  unfoldable pub normalize_username : Text → Text
  unfolding collapse_spaces trim
  normalize_username t = w.lower (collapse_spaces false (trim t))

  abbrev pub identifier_of : LoginDto → Text
  identifier_of dto =
      let raw = trim (first_of dto.identifier dto.email) in
      if has_at raw then w.lower raw else normalize_username raw

  abbrev pub is_named : Text → User → Bool
  is_named name u =
      (if has_at name
        then text_eq u.email name
        else elim u.username [ none ↦ false | some n ↦ text_eq n name ])
      && not (is_some u.deleted_at)

  unfoldable pub write_user : ℕ → (User → User) → N (Unit {0})
  write_user id change =
      modify (λ s. record s { users = db.update_many (λ (u : User). u.id == id) change s.users })

  -- The event of an administrator's login.
  abbrev pub admin_login : ℕ → Bool → LoginNote → AdminLogin
  admin_login user success note = record {
    admin_id = user;
    ip = w.ip;
    user_agent = sliced w.user_agent;
    success = success;
    note = note;
  }

  abbrev pub tells_agent : Role → Bool
  tells_agent role = w.has_agent && is_admin_role role && w.outbox_up

  -- `emitAdminLogin`: the insert is best effort.
  unfoldable pub emit_admin_login : ℕ → Role → Bool → LoginNote → N (Unit {0})
  emit_admin_login user role success note = modify (λ s. record s {
    admin_logins =
        if tells_agent role
        then db.create (admin_login user success note) s.admin_logins
        else s.admin_logins;
  })

  -- A wrong password or code is counted, and the fifth one locks.
  unfoldable pub count_failure : User → N (Unit {0})
  unfolding write_user failed_once record_account account_lockout_threshold
  count_failure u = do
    write_user u.id (failed_once w.now (u.failed_login_attempts + 1))
    if leb account_lockout_threshold (u.failed_login_attempts + 1)
        then record_account db w u.id "auth.account-locked"
        else pure tt

  -- `failed_attempts` and `now_locked` of the event
  abbrev pub wrong_note : ℕ → LoginNote
  wrong_note attempts =
      let now_locked = leb account_lockout_threshold attempts in
      wrong_password (if now_locked then account_lockout_threshold else attempts) now_locked

  unfoldable pub fail_login : User → N LoginAnswer
  unfolding count_failure emit_admin_login account_lockout_threshold
  fail_login u = do
    count_failure u
    emit_admin_login u.id u.role false (wrong_note (u.failed_login_attempts + 1))
    throw (unauthorized "Invalid credentials")

  unfoldable pub succeed_login : User → N LoginAnswer
  unfolding write_user issue_token_pair emit_admin_login
  succeed_login u = do
    if ltb 0 u.failed_login_attempts || is_some u.locked_until
        then write_user u.id forgiven
        else pure tt
    if is_some u.two_factor_enabled_at
        then (throw_if (not w.two_factor_configured)
              (unavailable "Two-factor authentication is not configured")
            >> (emit_admin_login u.id u.role true two_factor_pending >> pure (challenge u.id)))
        else (issue_token_pair db w u.id >>= λ p.
            (emit_admin_login u.id u.role true complete
              >> pure (logged_in p (is_admin_role u.role && w.enforce_two_factor))))

  -- The guards on the user that was read, and the password.
  unfoldable pub login_found : Text → User → N LoginAnswer
  unfolding fail_login succeed_login emit_admin_login
  login_found password u = do
    throw_if u.is_blocked (forbidden "Your account has been blocked")
    if is_locked w.now u.locked_until
        then (emit_admin_login u.id u.role false locked
            >> throw (forbidden "Account locked due to too many failed login attempts"))
        else pure tt
    if w.compare_password password u.password_hash then succeed_login u else fail_login u

  unfoldable pub login : LoginDto → N LoginAnswer
  unfolding login_found trim
  login dto = do
    throw_if (is_empty (identifier_of dto)) (bad_request "Email or username is required")
    found ← gets (λ s. db.find_first (is_named (identifier_of dto)) s.users)
    u ← or_throw found (unauthorized "Invalid credentials")
    login_found dto.password u
