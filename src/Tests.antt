-- ===== src/Tests.antt =====
-- The theorems at concrete inputs.
mod Integers
mod Alerts
mod Wire
mod Payloads
mod Migrations
mod Stores
mod Windows
mod Collectors
mod Imports
mod Requests
