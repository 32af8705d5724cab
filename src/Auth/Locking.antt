-- ===== src/Auth/Locking.antt =====
-- Who `login` of src/auth/auth.service.ts lets in, and whom it locks out.
use rive_backend.Base.{
  ℕ, ◌+◌, ◌*◌, ◌≡◌, ◌≤◌, ◌<◌, refl, sym, ap, subst, ◌∙◌, true, false, some, ◌==◌, arith, find, leb,
  if◌then◌else◌, Result, ok, err, unauthorized, forbidden, Bool-cases, Option-cases, inl, inr,
  Failure,
}
use rive_backend.Base.Text.{Text, is_empty}
use rive_backend.Db.{Prisma, IsPrisma, tables, on_every_db, update_where}
use rive_backend.Db.Keys.{find-changed}
use rive_backend.Util.Ownership.{Role}
use rive_backend.Auth.{User, Accounts, AuthWorld, locked, record_account}
use rive_backend.Auth.Login.{
  LoginDto, LoginAnswer, is_locked, failed_once, identifier_of, is_named, write_user, fail_login,
  count_failure, emit_admin_login, admin_login, tells_agent, succeed_login, login_found, login,
  account_lockout_threshold, account_lockout_ms,
}

-- The refusal because of the lock: the agent is told of it where the user is an administrator, and
-- nothing else is written.
abbrev pub IsRefused : Prisma → AuthWorld → User → Accounts → Result LoginAnswer × Accounts → Type 0
IsRefused db w u s r =
    (r.0 ≡ err (forbidden "Account locked due to too many failed login attempts"))
    × (r.1 ≡ record s {
      admin_logins =
          if tells_agent db w u.role
          then db.create (admin_login db w u.id false locked) s.admin_logins
          else s.admin_logins;
    })

abbrev OnAnswer : (Accounts → Type 0) → Result LoginAnswer × Accounts → Type 0
OnAnswer P (ok a, s) = P s
OnAnswer P (err e, s) = Unit {0}

module _ (w : AuthWorld) where
  -- The user who logs in.
  abbrev pub IsLetIn : LoginDto → Accounts → Type 0
  IsLetIn dto s =
      (u : User) × (find (is_named tables w (identifier_of tables w dto)) s.users ≡ some u)
      × (u.is_blocked ≡ false)
      × (is_locked w.now u.locked_until ≡ false)
      × (w.compare_password dto.password u.password_hash ≡ true)

  pub fail_login-throws :
      (u : User) (s : Accounts)
      → (fail_login tables w u s).0 ≡ err (unauthorized "Invalid credentials")
  unfolding fail_login count_failure emit_admin_login write_user record_account
  fail_login-throws u s = ground arith

  -- A wrong code is counted, whatever else happens.
  pub count_failure-returns : (u : User) (s : Accounts) → (count_failure tables w u s).0 ≡ ok tt
  unfolding count_failure write_user record_account
  count_failure-returns u s = ground arith

  no_answer :
      (P : Accounts → Type 0) (e : Failure) (r : Result LoginAnswer × Accounts)
      → r.0 ≡ err e
      → OnAnswer P r
  no_answer P e (ok a, s) h = ground arith
  no_answer P e (err f, s) h = tt

  always : (P : Type 0) (r : Result LoginAnswer × Accounts) → P → OnAnswer (λ _. P) r
  always P (ok a, s) h = h
  always P (err e, s) h = tt

  login_found-lets_in :
      (P : Type 0) (password : Text) (u : User) (s : Accounts)
      → (u.is_blocked ≡ false
          → is_locked w.now u.locked_until ≡ false
          → w.compare_password password u.password_hash ≡ true
          → P)
      → OnAnswer (λ _. P) (login_found tables w password u s)
  unfolding login_found
  login_found-lets_in P password u s p = elim (Bool-cases u.is_blocked) [
    | inl b ↦ rw b tt
    | inr b ↦ elim (Bool-cases (is_locked w.now u.locked_until)) [
      | inl l ↦ rw (b, l) tt
      | inr l ↦ elim (Bool-cases (w.compare_password password u.password_hash)) [
        | inl c ↦ rw (b, l, c) (always P (succeed_login tables w u s) (p b l c))
        | inr c ↦
            rw (b, l, c)
              (no_answer (λ _. P) (unauthorized "Invalid credentials") (fail_login tables w u s)
                (fail_login-throws u s))
      ]
    ]
  ]

  answer-IsLetIn :
      (dto : LoginDto) (s : Accounts) → OnAnswer (λ _. IsLetIn dto s) (login tables w dto s)
  unfolding login
  answer-IsLetIn dto s = elim (Bool-cases (is_empty (identifier_of tables w dto))) [
    | inl e ↦ rw e tt
    | inr e ↦ elim (Option-cases (find (is_named tables w (identifier_of tables w dto)) s.users)) [
      | inl missing ↦ rw (e, missing) tt
      | inr (u, found) ↦
          rw (e, found)
            (login_found-lets_in (IsLetIn dto s) dto.password u s (λ b l c. (u, found, b, l, c)))
    ]
  ]

  -- A user who is locked, and not blocked, is told so, and only the event is written.
  login-locked :
      (dto : LoginDto) (u : User) (s : Accounts)
      → is_empty (identifier_of tables w dto) ≡ false
      → find (is_named tables w (identifier_of tables w dto)) s.users ≡ some u
      → u.is_blocked ≡ false
      → is_locked w.now u.locked_until ≡ true
      → login tables w dto s ≡ (
        err (forbidden "Account locked due to too many failed login attempts"),
        (emit_admin_login tables w u.id u.role false locked s).1,
      )
  unfolding login login_found
  login-locked dto u s e found b l = rw (e, found, b, l) refl

abbrev LetsIn : Prisma → Type 0
LetsIn db =
    (w : AuthWorld) (dto : LoginDto) (s t : Accounts) (a : LoginAnswer)
    → login db w dto s ≡ (ok a, t)
    → IsLetIn w dto s

tables-LetsIn : LetsIn tables
tables-LetsIn w dto s t a done =
    subst (OnAnswer (λ _. IsLetIn w dto s)) done (answer-IsLetIn w dto s)

-- Where `login` returns, with a pair of tokens or a challenge for the second factor, a user of the
-- given name was found who was not soft-deleted, not blocked and not locked at that time, and the
-- password was that user's.
pub login-IsLetIn :
    (db : Prisma)
    → IsPrisma db
    → (w : AuthWorld) (dto : LoginDto) (s t : Accounts) (a : LoginAnswer)
    → login db w dto s ≡ (ok a, t)
    → IsLetIn w dto s
login-IsLetIn = on_every_db LetsIn tables-LetsIn

-- The lock is for fifteen minutes.
locks :
    (now later attempts : ℕ) (u : User)
    → 5 ≤ attempts
    → later < now + 15 * 60 * 1000
    → is_locked later (failed_once now attempts u).locked_until ≡ true
unfolding failed_once account_lockout_threshold account_lockout_ms
locks now later attempts u many soon = ground arith

is_named-kept :
    (w : AuthWorld) (name : Text) (now attempts : ℕ) (u : User)
    → is_named tables w name (failed_once now attempts u) ≡ is_named tables w name u
unfolding failed_once
is_named-kept w name now attempts u = elim (Bool-cases (leb account_lockout_threshold attempts)) [
  | inl e ↦ rw e refl
  | inr e ↦ rw e refl
]

blocked-kept :
    (now attempts : ℕ) (u : User) → (failed_once now attempts u).is_blocked ≡ u.is_blocked
unfolding failed_once
blocked-kept now attempts u = elim (Bool-cases (leb account_lockout_threshold attempts)) [
  | inl e ↦ rw e refl
  | inr e ↦ rw e refl
]

id-kept : (now attempts : ℕ) (u : User) → (failed_once now attempts u).id ≡ u.id
unfolding failed_once
id-kept now attempts u = elim (Bool-cases (leb account_lockout_threshold attempts)) [
  | inl e ↦ rw e refl
  | inr e ↦ rw e refl
]

role-kept : (now attempts : ℕ) (u : User) → (failed_once now attempts u).role ≡ u.role
unfolding failed_once
role-kept now attempts u = elim (Bool-cases (leb account_lockout_threshold attempts)) [
  | inl e ↦ rw e refl
  | inr e ↦ rw e refl
]

-- What a wrong password writes.
wrong-users :
    (w : AuthWorld) (dto : LoginDto) (u : User) (s : Accounts)
    → is_empty (identifier_of tables w dto) ≡ false
    → find (is_named tables w (identifier_of tables w dto)) s.users ≡ some u
    → u.is_blocked ≡ false
    → is_locked w.now u.locked_until ≡ false
    → w.compare_password dto.password u.password_hash ≡ false
    → (login tables w dto s).1.users
      ≡ update_where
          (λ (x : User). x.id == u.id)
          (failed_once w.now (u.failed_login_attempts + 1))
          s.users
unfolding login login_found fail_login count_failure emit_admin_login write_user record_account
wrong-users w dto u s e found b l c = rw (e, found, b, l, c) (ground arith)

abbrev LocksOut : Prisma → Type 0
LocksOut db =
    (w w' : AuthWorld) (dto dto' : LoginDto) (u : User) (s : Accounts)
    → is_empty (identifier_of db w dto) ≡ false
    → find (is_named db w (identifier_of db w dto)) s.users ≡ some u
    → u.is_blocked ≡ false
    → is_locked w.now u.locked_until ≡ false
    → w.compare_password dto.password u.password_hash ≡ false
    → 4 ≤ u.failed_login_attempts
    → is_empty (identifier_of db w' dto') ≡ false
    → find (is_named db w' (identifier_of db w' dto')) s.users ≡ some u
    → w'.now < w.now + 15 * 60 * 1000
    → IsRefused db w' u (login db w dto s).1 (login db w' dto' (login db w dto s).1)

tables-LocksOut : LocksOut tables
unfolding emit_admin_login
tables-LocksOut w w' dto dto' u s e found b l c four e' found' soon =
    let attempts = u.failed_login_attempts + 1 in
    let put = failed_once w.now attempts in
    let name = identifier_of tables w' dto' in
    let refused =
      login-locked w' dto' (put u) (login tables w dto s).1 e'
        (subst (λ us. find (is_named tables w' name) us ≡ some (put u))
          (sym (wrong-users w dto u s e found b l c))
          (find-changed (is_named tables w' name) (λ (x : User). x.id == u.id) put s.users u
            (is_named-kept w' name w.now attempts) found' (ground arith)))
        (blocked-kept w.now attempts u ∙ b) (locks w.now w'.now attempts u (omega arith) soon) in
    let t = (login tables w dto s).1 in
    let told : ℕ → Role → Accounts =
      λ user role. (emit_admin_login tables w' user role false locked t).1 in
    let same : told (put u).id (put u).role ≡ told u.id u.role =
      ap (λ i. told i (put u).role) (id-kept w.now attempts u)
      ∙ ap (told u.id) (role-kept w.now attempts u) in
    (ap (λ r. r.0) refused, ap (λ r. r.1) refused ∙ same)

-- The fifth wrong password locks: where four attempts are counted for a user who is neither blocked
-- nor locked, and a login with a wrong password fails, every login in the name of that user within
-- fifteen minutes, with whatever password, is refused because of the lock, and writes no user, no
-- token, no recovery code and no audit entry: only, for an administrator, the event that tells the
-- agent of the attempt (its delivery apart).
pub login-locks_out :
    (db : Prisma)
    → IsPrisma db
    → (w w' : AuthWorld) (dto dto' : LoginDto) (u : User) (s : Accounts)
    → is_empty (identifier_of db w dto) ≡ false
    → find (is_named db w (identifier_of db w dto)) s.users ≡ some u
    → u.is_blocked ≡ false
    → is_locked w.now u.locked_until ≡ false
    → w.compare_password dto.password u.password_hash ≡ false
    → 4 ≤ u.failed_login_attempts
    → is_empty (identifier_of db w' dto') ≡ false
    → find (is_named db w' (identifier_of db w' dto')) s.users ≡ some u
    → w'.now < w.now + 15 * 60 * 1000
    → IsRefused db w' u (login db w dto s).1 (login db w' dto' (login db w dto s).1)
login-locks_out = on_every_db LocksOut tables-LocksOut
