-- ===== src/Db/Keys.antt =====
-- Tables with a primary key: an update whose `where` fixes the key changes one row at most.
use rive_backend.Base.{
  ℕ, ◌+◌, ◌≡◌, refl, subst, ap, ◌∙◌, Option, if◌then◌else◌, Bool, true, false, ◌&&◌, not, none,
  some, List, [], ◌∷◌, ◌++◌, arith, ◌==◌, any, find, keep, length, sum_by, Bool-cases, inl, inr,
  ◌≤◌,
}
use rive_backend.Db.{update_where}

module _ {Row : Type 0} (key : Row → ℕ) where
  abbrev pub has_key : ℕ → List Row → Bool
  has_key k t = any (λ r. key r == k) t

  -- No two rows have the same key.
  abbrev pub IsUnique : List Row → Type 0
  IsUnique [] = Unit
  IsUnique (r ∷ t) = (has_key (key r) t ≡ false) × IsUnique t

module _ {Row : Type 0} where
  -- An update that matches nothing changes nothing.
  pub update_where-none :
      (p : Row → Bool) (g : Row → Row) (t : List Row)
      → length (keep p t) ≡ 0
      → update_where p g t ≡ t
  update_where-none p g [] h = refl
  update_where-none p g (r ∷ t) h = ground (arith, update_where-none p g t)

  pub find_of_match :
      (p : Row → Bool) (t : List Row)
      → (length (keep p t) == 0) ≡ false
      → (r : Row) × (find p t ≡ some r)
  find_of_match p [] h = ground arith
  find_of_match p (r ∷ t) h = elim (Bool-cases (p r)) [
    | inl e ↦ (r, rw e)
    | inr e ↦ rw e (find_of_match p t (ground arith))
  ]

  pub find-holds : (p : Row → Bool) (t : List Row) (r : Row) → find p t ≡ some r → p r ≡ true
  find-holds p [] r h = cc
  find-holds p (q ∷ t) r h = ground (arith, find-holds p t r)

module _ {Row : Type 0} (key : Row → ℕ) (p : Row → Bool) (g : Row → Row) where
  -- The update keeps the keys, so it keeps them unique.
  pub has_key-update :
      (k : ℕ) (t : List Row)
      → ((r : Row) → key (g r) ≡ key r)
      → has_key key k (update_where p g t) ≡ has_key key k t
  has_key-update k [] same = refl
  has_key-update k (r ∷ t) same = ground (arith, same r, has_key-update k t same)

  pub update_where-IsUnique :
      (t : List Row)
      → ((r : Row) → key (g r) ≡ key r)
      → IsUnique key t
      → IsUnique key (update_where p g t)
  update_where-IsUnique [] same u = tt
  update_where-IsUnique (r ∷ t) same u = ground (
    arith,
    same r,
    has_key-update (key r) t same,
    has_key-update (key (g r)) t same,
    update_where-IsUnique t same u.1,
  )

  -- Where the key is not there, a `where` that fixes it matches nothing.
  pub keep-absent :
      (k : ℕ) (t : List Row)
      → ((r : Row) → p r ≡ true → key r ≡ k)
      → has_key key k t ≡ false
      → length (keep p t) ≡ 0
  keep-absent k [] fixes h = refl
  keep-absent k (r ∷ t) fixes h = ground (arith, fixes r, keep-absent k t fixes)

  pub find-absent :
      (k : ℕ) (t : List Row)
      → ((r : Row) → p r ≡ true → key r ≡ k)
      → has_key key k t ≡ false
      → find p t ≡ none
  find-absent k [] fixes h = refl
  find-absent k (r ∷ t) fixes h = ground (arith, fixes r, find-absent k t fixes)

  -- An update of the one row that matches moves a sum over the table by that row's change.
  pub sum_by-update :
      (m : Row → ℕ) (k : ℕ) (t : List Row) (r : Row)
      → ((r : Row) → p r ≡ true → key r ≡ k)
      → IsUnique key t
      → find p t ≡ some r
      → sum_by m (update_where p g t) + m r ≡ sum_by m t + m (g r)
  sum_by-update m k [] r fixes u h = ground arith
  sum_by-update m k (q ∷ t) r fixes u h = elim (Bool-cases (p q)) [
    | inl e ↦ ground (arith, fixes q e, keep-absent k t fixes, update_where-none p g t)
    | inr e ↦ ground (arith, sum_by-update m k t r fixes u.1)
  ]

  -- The updated row is what a search by its key finds then.
  pub find-update :
      (k : ℕ) (t : List Row) (r : Row)
      → ((r : Row) → p r ≡ true → key r ≡ k)
      → ((r : Row) → key (g r) ≡ key r)
      → IsUnique key t
      → find p t ≡ some r
      → find (λ x. key x == k) (update_where p g t) ≡ some (g r)
  find-update k [] r fixes same u h = ground arith
  find-update k (q ∷ t) r fixes same u h = elim (Bool-cases (p q)) [
    | inl e ↦ ground (arith, fixes q e, same q)
    | inr e ↦ ground (arith, find-absent k t fixes, find-update k t r fixes same u.1)
  ]

module _ {Row : Type 0} (p : Row → Bool) where
  -- A row that is found is one term of a sum.
  pub term-le_sum : (m : Row → ℕ) (t : List Row) (r : Row) → find p t ≡ some r → m r ≤ sum_by m t
  term-le_sum m [] r h = ground arith
  term-le_sum m (q ∷ t) r h = elim (Bool-cases (p q)) [
    | inl e ↦ ground arith
    | inr e ↦ ground (arith, term-le_sum m t r)
  ]

  -- An update keeps what it does not write.
  pub any-update :
      (q : Row → Bool) (g : Row → Row) (t : List Row)
      → ((r : Row) → q (g r) ≡ q r)
      → any q (update_where p g t) ≡ any q t
  any-update q g [] same = refl
  any-update q g (r ∷ t) same = ground (arith, same r, any-update q g t same)

  -- A filter that excludes no row of the table.
  pub find-and_not :
      (q : Row → Bool) (t : List Row) → any q t ≡ false → find (λ r. p r && not (q r)) t ≡ find p t
  find-and_not q [] h = refl
  find-and_not q (r ∷ t) h = ground (arith, find-and_not q t)

  pub sum_by-zero :
      (m : Row → ℕ) (t : List Row)
      → ((r : Row) → p r ≡ false → m r ≡ 0)
      → length (keep p t) ≡ 0
      → sum_by m t ≡ 0
  sum_by-zero m [] zero_at h = refl
  sum_by-zero m (r ∷ t) zero_at h = ground (arith, zero_at r, sum_by-zero m t zero_at)

-- The row that a `where` with the key selects is the row of that key.
pub find-by_key :
    {Row : Type 0} (key : Row → ℕ) (p : Row → Bool) (k : ℕ) (t : List Row) (r : Row)
    → ((r : Row) → p r ≡ true → key r ≡ k)
    → IsUnique key t
    → find p t ≡ some r
    → find (λ x. key x == k) t ≡ some r
find-by_key key p k [] r fixes u h = h
find-by_key key p k (q ∷ t) r fixes u h = elim (Bool-cases (p q)) [
  | inl e ↦ ground (arith, fixes q e)
  | inr e ↦ ground (arith, find-absent key p (λ x. x) k t fixes, find-by_key key p k t r fixes u.1)
]

module _ {Row : Type 0} (key : Row → ℕ) where
  has_key-append :
      (k : ℕ) (t : List Row) (r : Row)
      → has_key key k t ≡ false
      → (key r == k) ≡ false
      → has_key key k (t ++ r ∷ []) ≡ false
  has_key-append k [] r h e = ground arith
  has_key-append k (q ∷ t) r h e = ground (arith, has_key-append k t r)

  -- An insert of a row with a new key.
  pub append-IsUnique :
      (t : List Row) (r : Row)
      → has_key key (key r) t ≡ false
      → IsUnique key t
      → IsUnique key (t ++ r ∷ [])
  append-IsUnique [] r h u = (refl, tt)
  append-IsUnique (q ∷ t) r h u = ground (arith, has_key-append (key q) t r, append-IsUnique t r)

pub any-append_one :
    {Row : Type 0} (q : Row → Bool) (t : List Row) (r : Row)
    → any q t ≡ false
    → q r ≡ false
    → any q (t ++ r ∷ []) ≡ false
any-append_one q [] r h e = ground arith
any-append_one q (x ∷ t) r h e = ground (arith, any-append_one q t r)

abbrev or_row : {Row : Type 0} → Row → Option Row → Row
or_row r none = r
or_row r (some x) = x

-- The row that an update leaves, where the search does not depend on what it writes.
pub find-changed :
    {Row : Type 0} (p hit : Row → Bool) (f : Row → Row) (t : List Row) (r : Row)
    → ((x : Row) → p (f x) ≡ p x)
    → find p t ≡ some r
    → hit r ≡ true
    → find p (update_where hit f t) ≡ some (f r)
find-changed p hit f [] r same found h = ground arith
find-changed p hit f (x ∷ t) r same found h = elim (Bool-cases (p x)) [
  | inl e ↦
      let first : some x ≡ some r =
        subst (λ b. (if b then some x else find p t) ≡ some r) e found in
      let is_r : x ≡ r = ap (or_row r) first in
      let hit_x : hit x ≡ true = ap hit is_r ∙ h in
      rw (hit_x, same x, e) (ap (λ y. some (f y)) is_r)
  | inr e ↦
      let rest =
        find-changed p hit f t r same
          (subst (λ b. (if b then some x else find p t) ≡ some r) e found) h in
      elim (Bool-cases (hit x)) [ inl g ↦ rw (g, same x, e) rest | inr g ↦ rw (g, e) rest ]
]
