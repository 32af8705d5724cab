-- ===== src/Util/Pagination.antt =====
-- src/common/utils/pagination.ts. Pages and limits are positive, as the query DTOs demand, so
-- the offset `(page - 1) * limit` is not negative.
pub mod Pages
use rive_backend.Base.{ℕ, ◌+◌, ◌-◌, ◌*◌, ◌/◌, Option, none, some}

pub record PaginationParams : Type 0 where
  pub page : ℕ
  pub limit : ℕ
  pub skip : ℕ
  pub take : ℕ

pub record PaginationMeta : Type 0 where
  pub page : ℕ
  pub limit : ℕ
  pub total : ℕ
  pub total_pages : ℕ

abbrev or_default : Option ℕ → ℕ → ℕ
or_default none d = d
or_default (some n) d = n

unfoldable pub resolve_pagination : Option ℕ → Option ℕ → ℕ → PaginationParams
resolve_pagination page limit default_limit =
    let p = or_default page 1 in
    let l = or_default limit default_limit in
    record { page = p; limit = l; skip = (p - 1) * l; take = l }

-- `Math.ceil(total / limit)`
unfoldable pub build_pagination_meta : ℕ → ℕ → ℕ → PaginationMeta
build_pagination_meta page limit total = record {
  page = page;
  limit = limit;
  total = total;
  total_pages = (total + limit - 1) / limit;
}
