-- ===== src/Util/Pagination/Pages.antt =====
-- The pages of a list: `resolvePagination` and `buildPaginationMeta` together.
use native.Mathlib.Nat.{le-div_iff_mul-le}
use rive_backend.Base.{ℕ, zero, suc, ◌+◌, ◌-◌, ◌*◌, ◌≤◌, ◌<◌, ◌≡◌, some, arith}
use rive_backend.Util.Pagination.{resolve_pagination, build_pagination_meta}

rows_before : (q l : ℕ) → suc q * l ≡ (suc q - 1) * l + l
rows_before q l = grind arith

-- A page, counted from one, has a row to show exactly if it is among the total number of pages
-- that is reported.
pub resolve_pagination-build_pagination_meta :
    (page limit default_limit total : ℕ)
    → 1 ≤ page
    → 1 ≤ limit
    → let here = resolve_pagination (some page) (some limit) default_limit in
      (here.skip < total → page ≤ (build_pagination_meta here.page here.limit total).total_pages)
      × (page ≤ (build_pagination_meta here.page here.limit total).total_pages → here.skip < total)
unfolding resolve_pagination build_pagination_meta
resolve_pagination-build_pagination_meta (suc q) limit d total h k =
    let (product, quotient) = le-div_iff_mul-le {k = limit} {x = suc q} {y = total + limit - 1} k in
    let rows = rows_before q limit in
    (
      λ shown. quotient (omega (arith, rows, shown, k)),
      λ within. omega (arith, rows, product within, k),
    )
resolve_pagination-build_pagination_meta zero limit d total h k =
    (λ shown. omega arith, λ within. omega arith)
