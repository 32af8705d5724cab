-- ===== src/Orders/Preserve.antt =====
-- Actions that preserve a property of the orders, whether they return or throw.
use rive_backend.Base.{
  ◌≡◌, refl, sym, subst, Bool, true, false, Option, none, some, List, if◌then◌else◌, Result, ok,
  err, bind_result, settle, ◌>>=◌, ◌>>◌, throw_if, or_throw, Failure, transaction,
}
use rive_backend.Schema.{Order}
use rive_backend.Audit.{keep_audit, audited_transaction}
use rive_backend.Store.{Store, M}
use rive_backend.Orders.Frames.{Frames}

module _ (Q : List Order → Type 0) where
  abbrev pub Preserves : {A : Type 0} → M A → Type 0
  Preserves m = (s : Store) → Q s.orders → Q (m s).1.orders

  after :
      {A B : Type 0} (r : Result A) (t : Store) (f : A → M B)
      → Q t.orders
      → ((a : A) → Preserves (f a))
      → Q (bind_result r t f).1.orders
  after (ok a) t f h k = k a t h
  after (err e) t f h k = h

  pub Preserves-bind :
      {A B : Type 0} (m : M A) (f : A → M B)
      → Preserves m
      → ((a : A) → Preserves (f a))
      → Preserves (m >>= f)
  Preserves-bind m f h k s q = after (m s).0 (m s).1 f (h s q) k

  pub Preserves-same :
      {A : Type 0} (m : M A) → ((s : Store) → (m s).1.orders ≡ s.orders) → Preserves m
  Preserves-same m same s q = subst Q (sym (same s)) q

  pub Preserves-frame : {A : Type 0} (m : M A) → Frames m → Preserves m
  Preserves-frame m frames s q = subst Q (sym (frames s).orders) q

  pub Preserves-if :
      {A : Type 0} (b : Bool) (m n : M A)
      → (b ≡ true → Preserves m)
      → (b ≡ false → Preserves n)
      → Preserves (if b then m else n)
  Preserves-if true m n h k = h refl
  Preserves-if false m n h k = k refl

  -- ... of two results
  pub Preserves-either :
      {A : Type 0} (b : Bool) (r q : A × Store)
      → (b ≡ true → Q r.1.orders)
      → (b ≡ false → Q q.1.orders)
      → Q (if b then r else q).1.orders
  Preserves-either true r q h k = h refl
  Preserves-either false r q h k = k refl

  pub Preserves-unless :
      {A : Type 0} (b : Bool) (e : Failure) (m : M A)
      → (b ≡ false → Preserves m)
      → Preserves (throw_if b e >> m)
  Preserves-unless true e m h s q = q
  Preserves-unless false e m h s q = h refl s q

  pub Preserves-or_throw :
      {A B : Type 0} (o : Option A) (e : Failure) (k : A → M B)
      → ((a : A) → Preserves (k a))
      → Preserves (or_throw o e >>= k)
  Preserves-or_throw none e k h s q = q
  Preserves-or_throw (some a) e k h s q = h a s q

  settled :
      {A : Type 0} (s : Store) (r : Result A × Store)
      → Q s.orders
      → Q r.1.orders
      → Q (settle s r).1.orders
  settled s (ok a, t) old new = new
  settled s (err e, t) old new = old

  audited :
      {A : Type 0} (s : Store) (r : Result A × Store)
      → Q s.orders
      → Q r.1.orders
      → Q (keep_audit s r).1.orders
  audited s (ok a, t) old new = new
  audited s (err e, t) old new = old

  pub Preserves-audited : {A : Type 0} (m : M A) → Preserves m → Preserves (audited_transaction m)
  Preserves-audited m h s q = audited s (m s) q (h s q)

  pub Preserves-transaction : {A : Type 0} (m : M A) → Preserves m → Preserves (transaction m)
  Preserves-transaction m h s q = settled s (m s) q (h s q)
