-- ===== src/Util.antt =====
-- The shared helpers of src/common/utils.
pub mod Phone
pub mod Ownership
pub mod Pagination
