-- ===== src/Auth/TwoFactor/Codes.antt =====
-- A code of the second factor is used once.
use rive_backend.Base.{
  ℕ, ap, ◌≡◌, ◌≤◌, ◌∙◌, refl, Bool, false, not, ◌&&◌, ◌||◌, none, some, ◌==◌, arith, find, is_some,
  ok, err, unauthorized,
}
use rive_backend.Base.Text.{Text, trim}
use rive_backend.Db.{Prisma, IsPrisma, tables, on_every_db, update_where}
use rive_backend.Db.Keys.{find-changed}
use rive_backend.Auth.{User, Accounts, AuthWorld, find_user, issue_token_pair}
use rive_backend.Auth.Login.{is_locked, write_user}
use rive_backend.Auth.Locking.{count_failure-returns}
use rive_backend.Auth.TwoFactor.{
  by_step, if_later, factor_of, used_step, accepted_step, find_recovery_code, find_factor,
  use_factor, accept_factor, verify_found,
}

-- A step that is not later than the last one is not accepted.
not_later : (k k' : ℕ) → k' ≤ k → if_later (some k') (some k) ≡ none
not_later k k' h = ground arith

module _ (w : AuthWorld) where
  find_factor-by_step :
      (code : Text) (u : User) (s : Accounts) (k : ℕ)
      → accepted_step tables w code u ≡ some k
      → find_factor tables w code u s ≡ some (by_step k)
  unfolding find_factor
  find_factor-by_step code u s k accepted =
      ap (λ a. factor_of a (find_recovery_code tables w code u.id s)) accepted

  find_factor-none :
      (code : Text) (u : User) (s : Accounts)
      → accepted_step tables w code u ≡ none
      → find_recovery_code tables w code u.id s ≡ none
      → find_factor tables w code u s ≡ none
  unfolding find_factor
  find_factor-none code u s refused unmatched =
      ap (λ a. factor_of a (find_recovery_code tables w code u.id s)) refused
      ∙ ap (factor_of none) unmatched

  verify-by_step :
      (code : Text) (u : User) (s : Accounts) (k : ℕ)
      → (not u.is_active || u.is_blocked) ≡ false
      → is_locked w.now u.locked_until ≡ false
      → find_factor tables w code u s ≡ some (by_step k)
      → ((verify_found tables w code u s).0
          ≡ ok (record { user = u.id; refresh_token = w.new_token }))
        × ((verify_found tables w code u s).1.users
            ≡ update_where (λ (x : User). x.id == u.id) (used_step k) s.users)
  unfolding verify_found accept_factor use_factor write_user issue_token_pair
  verify-by_step code u s k allowed unlocked factor = rw (allowed, unlocked, factor) (refl, refl)

  verify-refused :
      (code : Text) (u : User) (s : Accounts)
      → (not u.is_active || u.is_blocked) ≡ false
      → is_locked w.now u.locked_until ≡ false
      → find_factor tables w code u s ≡ none
      → (verify_found tables w code u s).0 ≡ err (unauthorized "Invalid credentials")
  unfolding verify_found
  verify-refused code u s allowed unlocked unfound =
      rw (allowed, unlocked, unfound, count_failure-returns w u s) refl

  -- A step that is not later than the last one used.
  accepted_step-used :
      (code secret : Text) (u : User) (k k' : ℕ)
      → u.two_factor_secret_enc ≡ some secret
      → w.step_of (trim code) secret ≡ some k'
      → k' ≤ k
      → accepted_step tables w code (used_step k u) ≡ none
  accepted_step-used code secret u k k' enrolled given early =
      ap
        (λ e. elim e [
          | none ↦ none
          | some secret ↦ if_later (w.step_of (trim code) secret) (some k)
        ])
        enrolled
      ∙ ap (λ g. if_later g (some k)) given
      ∙ not_later k k' early

-- The user has used the step, and is refused.
abbrev pub HasUsed : Prisma → AuthWorld → Text → ℕ → User → Accounts → Type 0
HasUsed db w code k u t =
    (find_user db w u.id t ≡ some (used_step k u))
    × ((verify_found db w code (used_step k u) t).0 ≡ err (unauthorized "Invalid credentials"))

abbrev UsesOnce : Prisma → Type 0
UsesOnce db =
    (w w' : AuthWorld) (code code' secret : Text) (u : User) (s : Accounts) (k k' : ℕ)
    → find_user db w u.id s ≡ some u
    → (not u.is_active || u.is_blocked) ≡ false
    → is_locked w.now u.locked_until ≡ false
    → accepted_step db w code u ≡ some k
    → u.two_factor_secret_enc ≡ some secret
    → w'.step_of (trim code') secret ≡ some k'
    → k' ≤ k
    → find_recovery_code db w' code' u.id (verify_found db w code u s).1 ≡ none
    → ((verify_found db w code u s).0 ≡ ok (record { user = u.id; refresh_token = w.new_token }))
      × HasUsed db w' code' k u (verify_found db w code u s).1

tables-UsesOnce : UsesOnce tables
tables-UsesOnce w w' code code' secret u s k k' found allowed unlocked accepted enrolled given early
      unmatched =
    let once =
      verify-by_step w code u s k allowed unlocked (find_factor-by_step w code u s k accepted) in
    let t = (verify_found tables w code u s).1 in
    let again = verify-refused w' code' (used_step k u) t allowed refl (
      find_factor-none w' code' (used_step k u) t
        (accepted_step-used w' code' secret u k k' enrolled given early) unmatched) in
    let at_user : User → Bool = λ x. x.id == u.id && not (is_some x.deleted_at) in
    let kept : find_user tables w u.id t ≡ some (used_step k u) =
      ap (find at_user) once.1
      ∙ find-changed at_user (λ (x : User). x.id == u.id) (used_step k) s.users u (λ x. refl) found
          (ground arith) in
    (once.0, (kept, again))

-- A time-based code is used once: where the second factor of a user who is neither blocked,
-- inactive nor locked is accepted for a time step, the login returns a new pair of tokens and the
-- step is stored with the user; and with the user so stored, a code of that step or of an earlier
-- one that is not an unused recovery code is refused.
pub verify_found-once :
    (db : Prisma)
    → IsPrisma db
    → (w w' : AuthWorld) (code code' secret : Text) (u : User) (s : Accounts) (k k' : ℕ)
    → find_user db w u.id s ≡ some u
    → (not u.is_active || u.is_blocked) ≡ false
    → is_locked w.now u.locked_until ≡ false
    → accepted_step db w code u ≡ some k
    → u.two_factor_secret_enc ≡ some secret
    → w'.step_of (trim code') secret ≡ some k'
    → k' ≤ k
    → find_recovery_code db w' code' u.id (verify_found db w code u s).1 ≡ none
    → ((verify_found db w code u s).0 ≡ ok (record { user = u.id; refresh_token = w.new_token }))
      × HasUsed db w' code' k u (verify_found db w code u s).1
verify_found-once = on_every_db UsesOnce tables-UsesOnce
