-- ===== src/Orders/Privacy.antt =====
-- What `findOne` and `trackOrder` of src/orders/orders.service.ts tell to whom.
use rive_backend.Base.{
  ℕ, ◌≤◌, ◌≡◌, suc, ◌>>=◌, ◌>>◌, pure, throw_if, modify, length-keep-le, refl, ap, sym, subst, Bool,
  true, false, ◌&&◌, Option, none, some, List, [], ◌∷◌, ◌++◌, arith, Result, ok, err, is_some,
  Bool-cases, inl, inr, Failure, keep, length, if◌then◌else◌, leb,
}
use rive_backend.Base.Text.{Text, text_eq, text_eq_refl, eq_of_text_eq}
use rive_backend.Db.{Prisma}
use rive_backend.Schema.{Order}
use rive_backend.Store.{Store, World, M}
use rive_backend.Util.Phone.{normalize_egyptian_phone}
use rive_backend.Util.Ownership.{
  Caller, is_order_owned_by_actor, is_admin, timing_safe_string_equal,
}
use rive_backend.Audit.{record_audit}
use rive_backend.Orders.Admin.{
  find_by_number, find_one, match_tracked, track_order, check_order_track_rate_limit, attempts_of,
  set_attempts, is_recent, tracked, TrackedOrder, normalized, or_dummy, answer_tracked,
}

-- To a caller who is neither an administrator nor the owner, `findOne` answers for an order that
-- exists exactly as for one that does not.
pub find_one-hides :
    (db : Prisma) (w : World) (number : Text) (caller : Caller) (s : Store) (o : Order)
    → find_by_number db w number s ≡ some o
    → is_admin caller ≡ false
    → is_order_owned_by_actor o.user_id o.guest_access_token caller ≡ false
    → (t : Store) → find_by_number db w number t ≡ none
    → (find_one db w number caller s).0 ≡ (find_one db w number caller t).0
unfolding find_one
find_one-hides db w number caller s o found a b t missing = rw (found, missing, a, b)

-- The two phones have the same normal form.
abbrev pub SamePhone : Text → Option Text → Type 0
SamePhone phone own =
    (q : Text) × ((normalize_egyptian_phone phone ≡ some q) × (normalized own ≡ some q))

test_passed :
    (b : Bool) (p o : Order) → (if b then some p else none) ≡ some o → (p ≡ o) × (b ≡ true)
test_passed true p o h = (cc, refl)
test_passed false p o h = cc

compare_lem :
    (input own : Option Text) (p o : Order)
    → (if is_some own && (is_some input && timing_safe_string_equal input (some (or_dummy own)))
        then some p
        else none)
      ≡ some o
    → (p ≡ o) × ((q : Text) × ((input ≡ some q) × (own ≡ some q)))
unfolding timing_safe_string_equal
compare_lem none none p o h = cc
compare_lem none (some t) p o h = cc
compare_lem (some s) none p o h = cc
compare_lem (some []) (some t) p o h = cc
compare_lem (some (c ∷ s)) (some []) p o h = cc
compare_lem (some (c ∷ s)) (some (d ∷ t)) p o h =
    let (same, e) = test_passed (text_eq (c ∷ s) (d ∷ t)) p o h in
    (same, (c ∷ s, (refl, ap some (sym (eq_of_text_eq (c ∷ s) (d ∷ t) e)))))

-- What `matchTracked` lets through is the order itself, whose stored phone has the normal form of
-- the phone that was given.
match_tracked-SamePhone :
    (db : Prisma) (w : World) (phone : Text) (found : Option Order) (o : Order)
    → match_tracked db w phone found ≡ some o
    → (found ≡ some o) × (SamePhone phone o.shipping_phone)
unfolding match_tracked
match_tracked-SamePhone db w phone none o h = cc
match_tracked-SamePhone db w phone (some p) o h =
    let (same, known) =
      compare_lem (normalize_egyptian_phone phone) (normalized p.shipping_phone) p o h in
    (ap some same, subst (λ (x : Order). SamePhone phone x.shipping_phone) same known)

tracked_in : TrackedOrder → Result TrackedOrder → TrackedOrder
tracked_in a (ok r) = r
tracked_in a (err e) = a

told : (a r : TrackedOrder) (s t : Store) → pure a s ≡ (ok r, t) → a ≡ r
unfolding tracked_in
told a r s t h = ap (λ (x : Result TrackedOrder × Store). tracked_in a x.0) h

passed :
    {A : Type 0} (b : Bool) (e : Failure) (f : Store → Store) (k : Unit {0} → M A) (s t : Store)
    (r : A)
    → ((throw_if b e >> modify f) >>= k) s ≡ (ok r, t)
    → k tt (f s) ≡ (ok r, t)
passed true e f k s t r h = cc
passed false e f k s t r h = h

tell_found :
    (db : Prisma) (w : World) (number phone : Text) (o : Option Order) (s t : Store)
    (r : TrackedOrder)
    → answer_tracked db w number phone o s ≡ (ok r, t)
    → (p : Order) × ((o ≡ some p) × (tracked db w s.variants p ≡ r))
unfolding answer_tracked record_audit
tell_found db w number phone none s t r h = cc
tell_found db w number phone (some p) s t r h =
    (p, (refl, told (tracked db w s.variants p) r s t h))

-- An order is told of by `trackOrder`, with its items, only for its own number and to a caller who
-- knows its phone number, in some spelling: both have the same normal form.
pub track_order-knows_phone :
    (db : Prisma) (w : World) (number phone : Text) (s t : Store) (r : TrackedOrder)
    → track_order db w number phone s ≡ (ok r, t)
    → (o : Order) × ((find_by_number db w number s ≡ some o)
        × (tracked db w s.variants o ≡ r)
        × (SamePhone phone o.shipping_phone))
unfolding track_order check_order_track_rate_limit find_by_number
track_order-knows_phone db w number phone s t r h =
    let answered =
      passed (leb 3 (length (keep (is_recent w.now) (attempts_of number s.track_attempts)))) _ _ _ s
        t r h in
    let (p, (matched, e)) =
      tell_found db w number phone (match_tracked db w phone (find_by_number db w number s)) _ t r
        answered in
    let (found, known) =
      match_tracked-SamePhone db w phone (find_by_number db w number s) p matched in
    (p, (found, e, known))

at_most_two : (n : ℕ) → leb 3 n ≡ false → n ≤ 2
at_most_two n h = ground arith

length-append_one : (xs : List ℕ) (x : ℕ) → length (xs ++ x ∷ []) ≡ suc (length xs)
length-append_one [] x = refl
length-append_one (y ∷ xs) x = omega (arith, length-append_one xs x)

attempts_of-set :
    (number : Text) (ts : List ℕ) (m : List (Text × List ℕ))
    → attempts_of number (set_attempts number ts m) ≡ ts
unfolding attempts_of set_attempts
attempts_of-set number ts [] = rw (text_eq_refl number)
attempts_of-set number ts ((k, us) ∷ m) = elim (Bool-cases (text_eq k number)) [
  | inl e ↦ rw (e, e)
  | inr e ↦ rw (e, e) (attempts_of-set number ts m)
]

attempts_of-set_other :
    (number other : Text) (ts : List ℕ) (m : List (Text × List ℕ))
    → text_eq number other ≡ false
    → attempts_of other (set_attempts number ts m) ≡ attempts_of other m
unfolding attempts_of set_attempts
attempts_of-set_other number other ts [] h = rw h
attempts_of-set_other number other ts ((k, us) ∷ m) h = elim (Bool-cases (text_eq k number)) [
  | inl e ↦
      let differs : text_eq k other ≡ false =
        subst (λ t. text_eq t other ≡ false) (sym (eq_of_text_eq k number e)) h in
      rw (e, differs)
  | inr e ↦
      rw e (ap (λ x. if text_eq k other then us else x) (attempts_of-set_other number other ts m h))
]

-- Where at most three attempts within the last minute are recorded for an order number, there are
-- at most three after another check of it, and the check leaves the attempts of all other numbers
-- alone.
pub check_order_track_rate_limit-bound :
    (db : Prisma) (w : World) (number : Text) (s : Store)
    → length (keep (is_recent w.now) (attempts_of number s.track_attempts)) ≤ 3
    → let after = check_order_track_rate_limit db w number s in
      (length (keep (is_recent w.now) (attempts_of number after.1.track_attempts)) ≤ 3)
      × ((other : Text)
          → text_eq number other ≡ false
          → attempts_of other after.1.track_attempts ≡ attempts_of other s.track_attempts)
unfolding check_order_track_rate_limit
check_order_track_rate_limit-bound db w number s h =
    let recent = keep (is_recent w.now) (attempts_of number s.track_attempts) in
    let next = recent ++ w.now ∷ [] in
    let few = length-keep-le (is_recent w.now) next in
    elim (Bool-cases (leb 3 (length recent))) [
      | inl e ↦ rw e (h, λ other d. refl)
      | inr e ↦
          rw (e, attempts_of-set number next s.track_attempts)
            (
              omega (arith, few, length-append_one recent w.now, at_most_two (length recent) e),
              λ other d. attempts_of-set_other number other next s.track_attempts d,
            )
    ]
