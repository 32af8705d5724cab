-- ===== src/Examples/Auth.antt =====
-- What the theorems on sessions say of one account.
use rive_backend.Base.{◌≡◌, refl, true, false, none, some, [], ◌∷◌, ok}
use rive_backend.Base.Text.{codes, text_eq}
use rive_backend.Db.{tables, tables-IsPrisma}
use rive_backend.Util.Ownership.{Role}
use rive_backend.Auth.{
  User, RefreshToken, Accounts, AuthWorld, TokenPair, refresh, refresh_found, change_password,
  reset_password,
}
use rive_backend.Base.{arith}
use rive_backend.Base.Text.{trim}
use rive_backend.Auth.Login.{LoginDto, LoginAnswer, login}
use rive_backend.Auth.Locking.{IsLetIn, IsRefused, login-IsLetIn, login-locks_out}
use rive_backend.Auth.Rotation.{EndsSessions, refresh_found-once}
use rive_backend.Auth.TwoFactor.{verify_found}
use rive_backend.Auth.TwoFactor.Codes.{HasUsed, verify_found-once}
use rive_backend.Auth.Passwords.{
  Changed, WasReset, change_password-ends_sessions, reset_password-ends_sessions,
}

abbrev mona : User
mona = record {
  id = 1;
  email = codes "mona@example.com";
  username = none;
  password_hash = codes "hash";
  role = Role.customer;
  is_active = true;
  is_blocked = false;
  password_reset_token = some (codes "reset");
  password_reset_expires_at = some 5000;
  two_factor_enabled_at = none;
  two_factor_secret_enc = some (codes "secret");
  two_factor_last_used_step = none;
  failed_login_attempts = 0;
  locked_until = none;
  deleted_at = none;
}

abbrev session : RefreshToken
session = record {
  id = 1;
  user_id = 1;
  token_hash = codes "first";
  expires_at = 100000;
  revoked_at = none;
}

abbrev accounts : Accounts
accounts = record {
  users = mona ∷ [];
  tokens = session ∷ [];
  recovery_codes = [];
  entries = [];
  admin_logins = [];
}

-- Hashes here are the texts themselves.
abbrev morning : AuthWorld
morning = record {
  now = 1000;
  new_token = codes "second";
  new_token_id = 2;
  hash_token = λ t. t;
  compare_password = text_eq;
  hash_password = λ t. t;
  two_factor_configured = true;
  enforce_two_factor = false;
  audit_up = true;
  has_agent = true;
  outbox_up = true;
  ip = none;
  user_agent = none;
  challenged = λ t. some 1;
  step_of = λ code secret. some 7;
  lower = λ t. t;
  upper = λ t. t;
}

abbrev noon : AuthWorld
noon = record morning { now = 2000; new_token = codes "third"; new_token_id = 3 }

abbrev rotated : Accounts
rotated = (refresh tables morning (codes "first") accounts).1

abbrev pair : TokenPair
pair = record { user = 1; refresh_token = codes "second" }

refreshed : refresh tables morning (codes "first") accounts ≡ (ok pair, rotated)
unfolding refresh
refreshed = refl

-- Two requests have read the session; the second one to rotate it is refused.
refresh_found-once_example : EndsSessions 1 (refresh_found tables noon (session, mona) rotated)
unfolding refresh
refresh_found-once_example =
    refresh_found-once tables tables-IsPrisma morning noon session session mona mona accounts
      rotated pair refl refl refl refl refl

change_password-ends_sessions_example :
    Changed noon 1
      (codes "hash")
      rotated
      (change_password tables noon 1 (codes "hash") (codes "new") rotated).1
unfolding refresh change_password
change_password-ends_sessions_example =
    change_password-ends_sessions tables tables-IsPrisma noon 1 (codes "hash") (codes "new") rotated
      (change_password tables noon 1 (codes "hash") (codes "new") rotated).1 refl

reset_password-ends_sessions_example :
    WasReset noon
      (codes "reset")
      rotated
      (reset_password tables noon (codes "reset") (codes "new") rotated).1
unfolding refresh reset_password
reset_password-ends_sessions_example =
    reset_password-ends_sessions tables tables-IsPrisma noon (codes "reset") (codes "new") rotated
      (reset_password tables noon (codes "reset") (codes "new") rotated).1 refl

abbrev right_password : LoginDto
right_password = record {
  identifier = none;
  email = some (codes "mona@example.com");
  password = codes "hash";
}

abbrev wrong_password : LoginDto
wrong_password = record right_password { password = codes "guess" }

login-IsLetIn_example : IsLetIn morning right_password accounts
unfolding login
login-IsLetIn_example =
    login-IsLetIn tables tables-IsPrisma morning right_password accounts
      (login tables morning right_password accounts).1 (LoginAnswer.logged_in pair false) refl

-- Four wrong passwords were given.
abbrev forgetful : User
forgetful = record mona { role = Role.admin; failed_login_attempts = 4 }

abbrev tried : Accounts
tried = record accounts { users = forgetful ∷ [] }

login-locks_out_example :
    IsRefused tables noon forgetful
      (login tables morning wrong_password tried).1
      (login tables noon right_password (login tables morning wrong_password tried).1)
unfolding trim
login-locks_out_example =
    login-locks_out tables tables-IsPrisma morning noon wrong_password right_password forgetful
      tried refl refl refl refl refl (omega arith) refl refl (omega arith)

-- The code of the time step 7, entered twice.
verify_found-once_example :
    ((verify_found tables morning (codes "123456") mona accounts).0 ≡ ok pair)
    × HasUsed tables noon
        (codes "123456")
        7
        mona
        (verify_found tables morning (codes "123456") mona accounts).1
unfolding trim verify_found
verify_found-once_example =
    verify_found-once tables tables-IsPrisma morning noon (codes "123456") (codes "123456")
      (codes "secret") mona accounts 7 7 refl refl refl refl refl refl (omega arith) refl
