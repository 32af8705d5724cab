-- ===== src/Auth/Passwords.antt =====
-- A new password ends the sessions of its user (`changePassword` and `resetPassword` of
-- src/auth/auth.service.ts).
use Prim.Native.String.{String}
use rive_backend.Base.{
  ℕ, ◌≡◌, subst, true, false, not, ◌&&◌, some, find, is_some, ◌>>◌, Result, ok, err, Bool-cases,
  Option-cases, inl, inr,
}
use rive_backend.Base.Text.{Text}
use rive_backend.Db.{Prisma, IsPrisma, tables, on_every_db}
use rive_backend.Auth.{
  User, Accounts, AuthWorld, record_account, revoke_all, set_password, find_user, change_password,
  reset_password, reset_expired, has_reset_token, reset_to,
}
use rive_backend.Auth.Rotation.{HasNoSession, revoked-all}

-- A postcondition of the calls that return.
abbrev OnReturn : (Accounts → Type 0) → Result (Unit {0}) × Accounts → Type 0
OnReturn P (ok _, s) = P s
OnReturn P (err e, s) = Unit {0}

OnReturn-map :
    (P Q : Accounts → Type 0) (r : Result (Unit {0}) × Accounts)
    → ((t : Accounts) → P t → Q t)
    → OnReturn P r
    → OnReturn Q r
OnReturn-map P Q (ok _, s) k h = k s h
OnReturn-map P Q (err e, s) k h = tt

module _ (w : AuthWorld) where
  recorded-HasNoSession :
      (user : ℕ) (f : User → User) (action : String) (s : Accounts)
      → OnReturn
          (HasNoSession user)
          ((set_password tables w user f >> record_account tables w user action) s)
  unfolding record_account set_password revoke_all
  recorded-HasNoSession user f action s = elim (Bool-cases w.audit_up) [
    | inl e ↦ rw e (revoked-all user w.now s.tokens)
    | inr e ↦ rw e (revoked-all user w.now s.tokens)
  ]

  -- The user whose password was known, and has no session any more.
  abbrev pub Changed : ℕ → Text → Accounts → Accounts → Type 0
  Changed id current s t =
      (u : User) × (find_user tables w id s ≡ some u)
      × (w.compare_password current u.password_hash ≡ true)
      × HasNoSession u.id t

  change_password-Changed :
      (id : ℕ) (current new : Text) (s : Accounts)
      → OnReturn (Changed id current s) (change_password tables w id current new s)
  unfolding change_password
  change_password-Changed id current new s = elim (Option-cases (find_user tables w id s)) [
    | inl e ↦ rw e tt
    | inr (u, e) ↦ elim (Bool-cases (w.compare_password current u.password_hash)) [
      | inr f ↦ rw (e, f) tt
      | inl known ↦
          let put = λ (x : User). record x { password_hash = w.hash_password new } in
          rw (e, known)
            (OnReturn-map (HasNoSession u.id) (Changed id current s)
              ((set_password tables w u.id put
                  >> record_account tables w u.id "auth.password-change")
                s)
              (λ t h. (u, e, known, h)) (recorded-HasNoSession u.id put "auth.password-change" s))
    ]
  ]

  -- The user who was sent the token, in time, and has no session any more.
  abbrev pub WasReset : Text → Accounts → Accounts → Type 0
  WasReset token s t =
      (u : User) × (find
          (λ (x : User). has_reset_token tables w token x && not (is_some x.deleted_at)) s.users
        ≡ some u)
      × (reset_expired tables w u.password_reset_expires_at ≡ false)
      × HasNoSession u.id t

  reset_password-WasReset :
      (token new : Text) (s : Accounts)
      → OnReturn (WasReset token s) (reset_password tables w token new s)
  unfolding reset_password
  reset_password-WasReset token new s =
      elim (Option-cases (
        find (λ (x : User). has_reset_token tables w token x && not (is_some x.deleted_at))
          s.users)) [
            | inl e ↦ rw e tt
            | inr (u, e) ↦ elim (Bool-cases (reset_expired tables w u.password_reset_expires_at)) [
              | inl late ↦ rw (e, late) tt
              | inr late ↦
                  rw (e, late)
                    (OnReturn-map (HasNoSession u.id) (WasReset token s)
                      ((set_password tables w u.id (reset_to tables w new)
                          >> record_account tables w u.id "auth.password-reset")
                        s)
                      (λ t h. (u, e, late, h))
                      (recorded-HasNoSession u.id (reset_to tables w new) "auth.password-reset" s))
            ]
          ]

abbrev ChangeEnds : Prisma → Type 0
ChangeEnds db =
    (w : AuthWorld) (id : ℕ) (current new : Text) (s t : Accounts)
    → change_password db w id current new s ≡ (ok tt, t)
    → Changed w id current s t

tables-ChangeEnds : ChangeEnds tables
tables-ChangeEnds w id current new s t done =
    subst (OnReturn (Changed w id current s)) done (change_password-Changed w id current new s)

abbrev ResetEnds : Prisma → Type 0
ResetEnds db =
    (w : AuthWorld) (token new : Text) (s t : Accounts)
    → reset_password db w token new s ≡ (ok tt, t)
    → WasReset w token s t

tables-ResetEnds : ResetEnds tables
tables-ResetEnds w token new s t done =
    subst (OnReturn (WasReset w token s)) done (reset_password-WasReset w token new s)

-- Where `changePassword` returns, the user was there and not soft-deleted, the password that was
-- given as the current one was the user's, and no session of the user is live afterwards.
pub change_password-ends_sessions :
    (db : Prisma)
    → IsPrisma db
    → (w : AuthWorld) (id : ℕ) (current new : Text) (s t : Accounts)
    → change_password db w id current new s ≡ (ok tt, t)
    → Changed w id current s t
change_password-ends_sessions = on_every_db ChangeEnds tables-ChangeEnds

-- Where `resetPassword` returns, a user who was not soft-deleted had the token, which had not
-- expired, and no session of the user is live afterwards.
pub reset_password-ends_sessions :
    (db : Prisma)
    → IsPrisma db
    → (w : AuthWorld) (token new : Text) (s t : Accounts)
    → reset_password db w token new s ≡ (ok tt, t)
    → WasReset w token s t
reset_password-ends_sessions = on_every_db ResetEnds tables-ResetEnds
