-- ===== src/Tests.antt =====
-- The theorems at concrete values: whole numbers in place of the floating point ones, so one clock
-- tick is a second.
mod Pacing
mod Queues
mod Health
mod Keys
mod Stores
mod Floods
mod Life
mod Calls
mod Bots
mod Locks
