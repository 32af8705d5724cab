-- ===== src/Auth/Rotation.antt =====
-- Refresh tokens that are used again (`refresh` of src/auth/auth.service.ts).
use rive_backend.Base.{
  ℕ, ◌≡◌, refl, sym, subst, Bool, true, false, not, ◌||◌, List, [], ◌∷◌, ◌++◌, ◌==◌, arith, all,
  keep, length, leb, is_some, if◌then◌else◌, ◌>>◌, throw, throw_if, Result, ok, err, unauthorized,
  Bool-cases, inl, inr, Failure,
}
use rive_backend.Db.{Prisma, IsPrisma, tables, on_every_db, update_where}
use rive_backend.Auth.{
  User, RefreshToken, Accounts, AuthWorld, N, TokenPair, is_live_of, revoked, record_account,
  token_of, issue_token_pair, revoke_all, revoke_all_and_log, is_unrotated, rotate_in_transaction,
  caught, rotate, refresh_found,
}

-- No session of the user is live.
abbrev pub HasNoSession : ℕ → Accounts → Type 0
HasNoSession user s = all (λ t. not (is_live_of user t)) s.tokens ≡ true

pub revoked-all :
    (user now : ℕ) (ts : List RefreshToken)
    → all (λ t. not (is_live_of user t)) (update_where (is_live_of user) (revoked now) ts) ≡ true
revoked-all user now [] = refl
revoked-all user now (t ∷ ts) = ground (arith, revoked-all user now ts)

revoke_all_and_log-HasNoSession :
    (w : AuthWorld) (user : ℕ) (s : Accounts)
    → HasNoSession user (revoke_all_and_log tables w user s).1
unfolding revoke_all_and_log revoke_all record_account
revoke_all_and_log-HasNoSession w user s = elim (Bool-cases w.audit_up) [
  | inl e ↦ rw e (revoked-all user w.now s.tokens)
  | inr e ↦ rw e (revoked-all user w.now s.tokens)
]

-- The token of a rotation is not open afterwards.
none_open :
    (id now : ℕ) (ts : List RefreshToken) (new : RefreshToken)
    → (new.id == id) ≡ false
    → length (keep (is_unrotated id) (update_where (is_unrotated id) (revoked now) ts ++ new ∷ []))
      ≡ 0
none_open id now [] new fresh = ground arith
none_open id now (t ∷ ts) new fresh = ground (arith, none_open id now ts new fresh)

-- Where a rotation returns, its token is not open.
abbrev Closes : ℕ → Result TokenPair × Accounts → Type 0
Closes id (ok p, s) = length (keep (is_unrotated id) s.tokens) ≡ 0
Closes id (err e, s) = Unit {0}

Closes-unless :
    (id : ℕ) (b : Bool) (e : Failure) (m : N TokenPair) (s : Accounts)
    → Closes id (m s)
    → Closes id ((throw_if b e >> m) s)
Closes-unless id true e m s h = tt
Closes-unless id false e m s h = h

-- A refusal that ends every session of the user.
abbrev pub EndsSessions : ℕ → Result TokenPair × Accounts → Type 0
EndsSessions user r =
    (r.0 ≡ err (unauthorized "Invalid or expired refresh token")) × HasNoSession user r.1

module _ (w : AuthWorld) where
  rotate-Closes :
      (t : RefreshToken) (s : Accounts)
      → (w.new_token_id == t.id) ≡ false
      → Closes t.id (rotate tables w t s)
  unfolding rotate rotate_in_transaction caught issue_token_pair revoke_all_and_log revoke_all
      record_account
  rotate-Closes t s fresh = elim (Bool-cases (length (keep (is_unrotated t.id) s.tokens) == 0)) [
    | inl e ↦ rw e tt
    | inr e ↦ rw e (none_open t.id w.now s.tokens (token_of tables w t.user_id) fresh)
  ]

  refresh_found-Closes :
      (t : RefreshToken) (u : User) (s : Accounts)
      → (w.new_token_id == t.id) ≡ false
      → Closes t.id (refresh_found tables w (t, u) s)
  unfolding refresh_found revoke_all_and_log revoke_all record_account
  refresh_found-Closes t u s fresh =
      let again =
        revoke_all_and_log tables w t.user_id
        >> throw (unauthorized "Invalid or expired refresh token") in
      let go = if is_some t.revoked_at then again else rotate tables w t in
      let blocked = u.is_blocked || not u.is_active in
      Closes-unless t.id (leb t.expires_at w.now) _ (throw_if blocked _ >> go) s (
        Closes-unless t.id blocked _ go s (elim (Bool-cases (is_some t.revoked_at)) [
          | inl e ↦ rw e tt
          | inr e ↦ rw e (rotate-Closes t s fresh)
        ]))

  again-EndsSessions :
      (user : ℕ) (s : Accounts)
      → EndsSessions user (
          (revoke_all_and_log tables w user
              >> throw (unauthorized "Invalid or expired refresh token"))
            s)
  unfolding revoke_all_and_log revoke_all record_account
  again-EndsSessions user s = (refl, revoke_all_and_log-HasNoSession w user s)

  rotate-EndsSessions :
      (t : RefreshToken) (s : Accounts)
      → length (keep (is_unrotated t.id) s.tokens) ≡ 0
      → EndsSessions t.user_id (rotate tables w t s)
  unfolding rotate rotate_in_transaction caught
  rotate-EndsSessions t s closed = rw closed (again-EndsSessions t.user_id s)

  refresh_found-EndsSessions :
      (t : RefreshToken) (u : User) (s : Accounts)
      → leb t.expires_at w.now ≡ false
      → (u.is_blocked || not u.is_active) ≡ false
      → length (keep (is_unrotated t.id) s.tokens) ≡ 0
      → EndsSessions t.user_id (refresh_found tables w (t, u) s)
  unfolding refresh_found
  refresh_found-EndsSessions t u s lasting allowed closed =
      rw (lasting, allowed)
        (elim (Bool-cases (is_some t.revoked_at)) [
          | inl e ↦ rw e (again-EndsSessions t.user_id s)
          | inr e ↦ rw e (rotate-EndsSessions t s closed)
        ])

abbrev RotatesOnce : Prisma → Type 0
RotatesOnce db =
    (w w' : AuthWorld) (t t' : RefreshToken) (u u' : User) (s s' : Accounts) (p : TokenPair)
    → (w.new_token_id == t.id) ≡ false
    → refresh_found db w (t, u) s ≡ (ok p, s')
    → t'.id ≡ t.id
    → leb t'.expires_at w'.now ≡ false
    → (u'.is_blocked || not u'.is_active) ≡ false
    → EndsSessions t'.user_id (refresh_found db w' (t', u') s')

tables-RotatesOnce : RotatesOnce tables
tables-RotatesOnce w w' t t' u u' s s' p fresh done same lasting allowed =
    refresh_found-EndsSessions w' t' u' s' lasting allowed (
      subst (λ k. length (keep (is_unrotated k) s'.tokens) ≡ 0) (sym same)
        (subst (Closes t.id) done (refresh_found-Closes w t u s fresh)))

-- A refresh token is used once, also by two requests that overlap: after a request has rotated a
-- token that it had read (with a fresh key for the new token), a request that has read the same
-- token, before or after that rotation, and finds it unexpired and its user neither blocked nor
-- inactive, is refused, and leaves its user no live session, the new one included.
pub refresh_found-once :
    (db : Prisma)
    → IsPrisma db
    → (w w' : AuthWorld) (t t' : RefreshToken) (u u' : User) (s s' : Accounts) (p : TokenPair)
    → (w.new_token_id == t.id) ≡ false
    → refresh_found db w (t, u) s ≡ (ok p, s')
    → t'.id ≡ t.id
    → leb t'.expires_at w'.now ≡ false
    → (u'.is_blocked || not u'.is_active) ≡ false
    → EndsSessions t'.user_id (refresh_found db w' (t', u') s')
refresh_found-once = on_every_db RotatesOnce tables-RotatesOnce
