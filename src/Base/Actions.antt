-- ===== src/Base/Actions.antt =====
-- Methods of a service as actions on the state: an action returns a value or throws one of the
-- framework's exceptions, and what it wrote before a throw stays written, except in a transaction.
use Prim.Native.String.{String}
use mathlib.Core.Bool.{Bool}
use mathlib.Core.Option.{Option, none, some}
use rive_backend.Base.Tests.{if◌then◌else◌}

-- The exceptions of `@nestjs/common` that the code throws, with the fixed part of the message.
pub data Failure : Type 0 where
  bad_request not_found conflict forbidden throttled internal : String → Failure
  unauthorized unavailable bad_gateway : String → Failure
  -- Prisma's P2002, a violated unique constraint.
  unique_violation : Failure
  -- Prisma's P2025, an update of a row that is not there.
  record_missing : Failure

pub data Result (A : Type 0) : Type 0 where
  ok : A → Result A
  err : Failure → Result A

abbrev pub Action : Type 0 → Type 0 → Type 0
Action S A = S → Result A × S

module _ {S : Type 0} where
  abbrev pub pure : {A : Type 0} → A → Action S A
  pure a s = (ok a, s)

  abbrev pub throw : {A : Type 0} → Failure → Action S A
  throw e s = (err e, s)

  abbrev pub bind_result : {A B : Type 0} → Result A → S → (A → Action S B) → Result B × S
  bind_result (ok a) s f = f a s
  bind_result (err e) s f = (err e, s)

  infixl 5 ◌>>=◌ ◌>>◌
  abbrev pub ◌>>=◌ : {A B : Type 0} → Action S A → (A → Action S B) → Action S B
  ◌>>=◌ m f s = let (r, s') = m s in bind_result r s' f

  abbrev pub ◌>>◌ : {A B : Type 0} → Action S A → Action S B → Action S B
  m >> k = m >>= λ _. k

  abbrev pub throw_if : Bool → Failure → Action S (Unit {0})
  throw_if c e s = (if c then err e else ok tt, s)

  abbrev pub or_throw : {A : Type 0} → Option A → Failure → Action S A
  or_throw none e = throw e
  or_throw (some a) e = pure a

  abbrev pub gets : {A : Type 0} → (S → A) → Action S A
  gets f s = (ok (f s), s)

  abbrev pub modify : (S → S) → Action S (Unit {0})
  modify f s = (ok tt, f s)

  abbrev pub settle : {A : Type 0} → S → Result A × S → Result A × S
  settle s (ok a, s') = (ok a, s')
  settle s (err e, _) = (err e, s)

  -- `prisma.$transaction`: a throw rolls every write of the callback back.
  abbrev pub transaction : {A : Type 0} → Action S A → Action S A
  transaction m s = settle s (m s)
