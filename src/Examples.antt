-- ===== src/Examples.antt =====
-- A small shop, and witnesses: the theorems at concrete inputs.
mod Shop
mod Orders
mod Agent
mod Util
mod Payment
mod Auth
mod Automation
mod Referrals
