-- ===== src/Db.antt =====
-- The database client. Prisma and PostgreSQL are not part of the repository: the queries that the
-- services make are the fields of a parameter `db`, and what the services rely on is `IsPrisma db`.
-- A table is the list of its rows, in the order in which the database returns them. A `where`
-- clause is a Boolean function of a row, a `data` clause a function from the old row to the new.
pub mod Keys
use rive_backend.Base.{
  ℕ, ◌+◌, ◌*◌, ◌/◌, ◌≡◌, refl, sym, subst, Bool, Option, List, [], ◌∷◌, ◌++◌, if◌then◌else◌, find,
  keep, not, length,
}

pub record Prisma : Type 1 where
  -- `findUnique` and `findFirst`
  pub find_first : {Row : Type 0} → (Row → Bool) → List Row → Option Row
  pub find_many : {Row : Type 0} → (Row → Bool) → List Row → List Row
  -- the count that `count`, `updateMany` and `deleteMany` return
  pub matched : {Row : Type 0} → (Row → Bool) → List Row → ℕ
  pub update_many : {Row : Type 0} → (Row → Bool) → (Row → Row) → List Row → List Row
  pub create : {Row : Type 0} → Row → List Row → List Row
  pub delete_many : {Row : Type 0} → (Row → Bool) → List Row → List Row
  -- what a column of the type `Decimal(10, 2)` keeps of an amount
  pub to_decimal : ℕ → ℕ

-- The nearest amount with two decimals, upwards from the middle, in millionths.
abbrev pub round_decimal : ℕ → ℕ
round_decimal n = (n + 5000) / 10000 * 10000

abbrev pub update_where : {Row : Type 0} → (Row → Bool) → (Row → Row) → List Row → List Row
update_where p f [] = []
update_where p f (r ∷ t) = (if p r then f r else r) ∷ update_where p f t

-- The documented meaning of the queries: an update changes exactly the rows that match, by its
-- data; a search returns the matching rows; an insert adds the row; a decimal column rounds.
pub record IsPrisma (db : Prisma) : Type 1 where
  pub find_first_lem : {Row : Type 0} (p : Row → Bool) (t : List Row) → db.find_first p t ≡ find p t
  pub find_many_lem : {Row : Type 0} (p : Row → Bool) (t : List Row) → db.find_many p t ≡ keep p t
  pub matched_lem :
      {Row : Type 0} (p : Row → Bool) (t : List Row) → db.matched p t ≡ length (keep p t)
  pub update_many_lem :
      {Row : Type 0} (p : Row → Bool) (f : Row → Row) (t : List Row)
      → db.update_many p f t ≡ update_where p f t
  pub create_lem : {Row : Type 0} (r : Row) (t : List Row) → db.create r t ≡ t ++ r ∷ []
  pub delete_many_lem :
      {Row : Type 0} (p : Row → Bool) (t : List Row) → db.delete_many p t ≡ keep (λ r. not (p r)) t
  pub to_decimal_lem : (n : ℕ) → db.to_decimal n ≡ round_decimal n

-- The lists themselves are such a database.
abbrev pub tables : Prisma
tables = record {
  find_first = λ p t. find p t;
  find_many = λ p t. keep p t;
  matched = λ p t. length (keep p t);
  update_many = λ p f t. update_where p f t;
  create = λ r t. t ++ r ∷ [];
  delete_many = λ p t. keep (λ r. not (p r)) t;
  to_decimal = round_decimal;
}

pub tables-IsPrisma : IsPrisma tables
tables-IsPrisma = record {
  find_first_lem = λ p t. refl;
  find_many_lem = λ p t. refl;
  matched_lem = λ p t. refl;
  update_many_lem = λ p f t. refl;
  create_lem = λ r t. refl;
  delete_many_lem = λ p t. refl;
  to_decimal_lem = λ n. refl;
}

tables-eq : (db : Prisma) → IsPrisma db → tables ≡ db
tables-eq db h = λ i. record {
  find_first = λ p t. sym (h.find_first_lem p t) i;
  find_many = λ p t. sym (h.find_many_lem p t) i;
  matched = λ p t. sym (h.matched_lem p t) i;
  update_many = λ p f t. sym (h.update_many_lem p f t) i;
  create = λ r t. sym (h.create_lem r t) i;
  delete_many = λ p t. sym (h.delete_many_lem p t) i;
  to_decimal = λ n. sym (h.to_decimal_lem n) i;
}

-- What holds over the lists holds over every database that keeps to the documentation.
pub on_every_db {ℓ} : (P : Prisma → Type ℓ) → P tables → (db : Prisma) → IsPrisma db → P db
on_every_db P proved db h = subst P (tables-eq db h) proved
