-- ===== src/RateGuard.antt =====
-- internal/rateguard: the pacing of outbound calls. A method that changes a bucket or a guard
-- returns the new one; the clock (nowMono) is read once for each call, and is an argument.
pub mod Method
pub mod Bucket
pub mod Guard
pub mod MtGuard
