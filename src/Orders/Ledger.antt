-- ===== src/Orders/Ledger.antt =====
-- The books that `OrdersService` keeps: the pieces of a variant, in stock or held by an order that
-- was not given up, and the uses of a coupon, counted on its row and by the orders that carry it.
pub mod Release
pub mod Cancelling
pub mod Paying
pub mod Moving
pub mod Taking
pub mod Creating
pub mod Services
pub mod Calls
use rive_backend.Base.{
  ℕ, ◌+◌, ◌≡◌, refl, sym, ◌∙◌, Bool, true, false, ◌||◌, Option, none, some, List, [], ◌∷◌, arith,
  ◌==◌, if◌then◌else◌, same_key, sum_by, any, is_some, Result, ok, err, bind_result, settle, ◌>>=◌,
  ◌>>◌, throw_if, Failure, or_throw, transaction,
}
use rive_backend.Db.Keys.{IsUnique}
use rive_backend.Schema.{Order, OrderItem, Variant, Coupon}
use rive_backend.Store.{Store, M}
use rive_backend.Orders.Status.{OrderStatus, same_status}
use rive_backend.Orders.Emit.{quantity_of}
use rive_backend.Orders.Frames.{SameBusiness, Frames}

abbrev pub is_given_up : OrderStatus → Bool
is_given_up s = same_status s OrderStatus.cancelled || same_status s OrderStatus.expired

-- The pieces of variant `v` that an order holds.
abbrev pub held : ℕ → Order → ℕ
held v o = if is_given_up o.status then 0 else quantity_of v o.items

-- The stock of a row, if it is that of variant `v`.
abbrev pub stock_at : ℕ → Variant → ℕ
stock_at v x = if x.id == v then x.stock else 0

abbrev pub pieces : ℕ → Store → ℕ
pieces v s = sum_by (stock_at v) s.variants + sum_by (held v) s.orders

-- One use of coupon `c`, by an order that carries it and was not given up.
abbrev pub use_of : ℕ → Order → ℕ
use_of c o = if is_given_up o.status then 0 else if same_key o.coupon_id c then 1 else 0

abbrev pub count_at : ℕ → Coupon → ℕ
count_at c k = if k.id == c then k.usage_count else 0

abbrev pub is_deleted : Order → Bool
is_deleted o = is_some o.deleted_at

-- Primary keys are unique, no order is soft-deleted (no code path does that), and the count of
-- coupon `c` is the number of its uses.
pub record IsSound (c : ℕ) (s : Store) : Type 0 where
  pub order_keys : IsUnique (λ (o : Order). o.id) s.orders
  pub variant_keys : IsUnique (λ (v : Variant). v.id) s.variants
  pub coupon_keys : IsUnique (λ (k : Coupon). k.id) s.coupons
  pub none_deleted : any is_deleted s.orders ≡ false
  pub balanced : sum_by (count_at c) s.coupons ≡ sum_by (use_of c) s.orders

-- The books are sound after, and no piece of variant `v` was lost or made up.
pub record Keeps (v c : ℕ) (s t : Store) : Type 0 where
  pub sound : IsSound c t
  pub same_pieces : pieces v t ≡ pieces v s

-- A postcondition of the calls that return.
abbrev pub Ensures : {A : Type 0} → (A → Store → Type 0) → Result A × Store → Type 0
Ensures P (ok a, s) = P a s
Ensures P (err e, s) = Unit {0}

pub Ensures-bind :
    {A B : Type 0} (P : A → Store → Type 0) (Q : B → Store → Type 0) (r : Result A × Store)
    → (f : A → M B) → Ensures P r
    → ((a : A) (s : Store) → P a s → Ensures Q (f a s))
    → Ensures Q (bind_result r.0 r.1 f)
Ensures-bind P Q (ok a, s) f h k = k a s h
Ensures-bind P Q (err e, s) f h k = tt

pub Ensures-map :
    {A : Type 0} (P Q : A → Store → Type 0) (r : Result A × Store)
    → Ensures P r
    → ((a : A) (s : Store) → P a s → Q a s)
    → Ensures Q r
Ensures-map P Q (ok a, s) h k = k a s h
Ensures-map P Q (err e, s) h k = tt

-- A branch, whose test each side knows.
pub Ensures-if :
    {A : Type 0} (P : A → Store → Type 0) (b : Bool) (m n : M A) (s : Store)
    → (b ≡ true → Ensures P (m s))
    → (b ≡ false → Ensures P (n s))
    → Ensures P ((if b then m else n) s)
Ensures-if P true m n s h k = h refl
Ensures-if P false m n s h k = k refl

-- ... of two results
pub Ensures-either :
    {A : Type 0} (P : A → Store → Type 0) (b : Bool) (r q : Result A × Store)
    → (b ≡ true → Ensures P r)
    → (b ≡ false → Ensures P q)
    → Ensures P (if b then r else q)
Ensures-either P true r q h k = h refl
Ensures-either P false r q h k = k refl

-- A guard that throws, before the rest.
pub Ensures-unless :
    {A : Type 0} (P : A → Store → Type 0) (b : Bool) (e : Failure) (m : M A) (s : Store)
    → (b ≡ false → Ensures P (m s))
    → Ensures P ((throw_if b e >> m) s)
Ensures-unless P true e m s h = tt
Ensures-unless P false e m s h = h refl

-- A value that may be missing, before the rest.
pub Ensures-or_throw :
    {A B : Type 0} (P : B → Store → Type 0) (o : Option A) (e : Failure) (k : A → M B) (s : Store)
    → ((a : A) → o ≡ some a → Ensures P (k a s))
    → Ensures P ((or_throw o e >>= k) s)
Ensures-or_throw P none e k s h = tt
Ensures-or_throw P (some a) e k s h = h a refl

pub Ensures-guard :
    (P : Unit {0} → Store → Type 0) (b : Bool) (e : Failure) (s : Store)
    → (b ≡ false → P tt s)
    → Ensures P (throw_if b e s)
Ensures-guard P true e s h = tt
Ensures-guard P false e s h = h refl

-- What a call ensures of the state where it returns holds of it in any case.
pub settle-keeps :
    {A : Type 0} (P : Store → Type 0) (s : Store) (r : Result A × Store)
    → P s
    → Ensures (λ _ t. P t) r
    → P (settle s r).1
settle-keeps P s (ok a, t) old new = new
settle-keeps P s (err e, t) old new = old

pub Ensures-always :
    {A : Type 0} (P : Store → Type 0) (r : Result A × Store) → P r.1 → Ensures (λ _ t. P t) r
Ensures-always P (ok a, t) h = h
Ensures-always P (err e, t) h = tt

pub Keeps-refl : (v : ℕ) {c : ℕ} {s : Store} → IsSound c s → Keeps v c s s
Keeps-refl v h = record { sound = h; same_pieces = refl }

pub Keeps-trans : {v c : ℕ} {s t u : Store} → Keeps v c s t → Keeps v c t u → Keeps v c s u
Keeps-trans h k = record { sound = k.sound; same_pieces = k.same_pieces ∙ h.same_pieces }

-- Soundness and the pieces are read off the business tables.
pub IsSound-frame : {c : ℕ} {s t : Store} → SameBusiness s t → IsSound c s → IsSound c t
IsSound-frame same h = record {
  order_keys = rw same.orders h.order_keys;
  variant_keys = rw same.variants h.variant_keys;
  coupon_keys = rw same.coupons h.coupon_keys;
  none_deleted = rw same.orders h.none_deleted;
  balanced = rw (same.orders, same.coupons) h.balanced;
}

pub Keeps-frame : (v : ℕ) {c : ℕ} {s t : Store} → SameBusiness s t → IsSound c s → Keeps v c s t
Keeps-frame v same h = record {
  sound = IsSound-frame same h;
  same_pieces = rw (same.orders, same.variants);
}

module _ (v c : ℕ) where
  -- Actions that keep the books, one after the other.
  abbrev pub KeepsBooks : {A : Type 0} → M A → Type 0
  KeepsBooks m = (s : Store) → IsSound c s → Ensures (λ _ t. Keeps v c s t) (m s)

  pub KeepsBooks-bind :
      {A B : Type 0} (m : M A) (f : A → M B)
      → KeepsBooks m
      → ((a : A) → KeepsBooks (f a))
      → KeepsBooks (m >>= f)
  KeepsBooks-bind m f h k s sound =
      Ensures-bind _ _ (m s) f (h s sound)
        (λ a t kept. Ensures-map _ _ (f a t) (k a t kept.sound) (λ b u. Keeps-trans kept))

  pub KeepsBooks-frame : {A : Type 0} (m : M A) → Frames m → KeepsBooks m
  KeepsBooks-frame m h s sound = Ensures-always (Keeps v c s) (m s) (Keeps-frame v (h s) sound)

  pub KeepsBooks-if :
      {A : Type 0} (b : Bool) (m n : M A)
      → KeepsBooks m
      → KeepsBooks n
      → KeepsBooks (if b then m else n)
  KeepsBooks-if true m n h k = h
  KeepsBooks-if false m n h k = k

  -- A transaction keeps the books whether it commits or rolls back.
  pub transaction-keeps :
      {A : Type 0} (m : M A)
      → KeepsBooks m
      → (s : Store) → IsSound c s
      → Keeps v c s (transaction m s).1
  transaction-keeps m h s sound =
      settle-keeps (Keeps v c s) s (m s) (Keeps-refl v sound) (h s sound)
