-- ===== src/Store/Idempotency.antt =====
-- The table idempotency_keys: IdempotencyClaim, IdempotencyFinish and IdempotencyFail of
-- internal/store/gateway.go, the same methods of internal/store/mt.go, whose statements are the
-- same, and IdempotencyCleanup. A Boolean argument says whether the engine let a statement through.
pub mod Laws
pub mod Window
pub mod Steps
pub mod Contract
pub mod Retry
use tg_session_gateway.Prelude.{
  pos, Bool, true, false, not, ◌&&◌, Option, none, some, List, String, find, put, remove,
  pair_has_eq, if◌then◌else◌, keep,
}
use tg_session_gateway.Float64.{Float64, ltf}

pub data KeyState : Type 0 where
  pending done : KeyState

pub record KeyRow (F : Type 0) : Type 0 where
  pub state : KeyState
  pub seen_at : F

-- The rows by their primary key (alias, key).
abbrev pub Keys : Type 0 → Type 0
Keys F = List ((String × String) × KeyRow F)

pub data Claim : Type 0 where
  claimed reclaimed replay : Claim

-- What the engine lets through in one claim.
pub record ClaimFaults : Type 0 where
  pub delete_ok : Bool
  pub insert_ok : Bool
  pub update_ok : Bool

-- The caller goes on with the send.
abbrev pub proceeds : Claim → Bool
proceeds claimed = true
proceeds reclaimed = true
proceeds replay = false

abbrev pub is_pending : KeyState → Bool
is_pending pending = true
is_pending done = false

module _ ⦃N : Float64⦄ where
  open N use {F, leb, sub, of_int}

  abbrev pub idempotency_ttl : F
  idempotency_ttl = of_int (pos 300)

  abbrev pub stale_pending_s : F
  stale_pending_s = of_int (pos 60)

  abbrev pub seen_before : F → Option (KeyRow F) → Bool
  seen_before cutoff none = false
  seen_before cutoff (some r) = ltf r.seen_at cutoff

  -- DELETE ... WHERE alias = ? AND key = ? AND seen_at < ?
  unfoldable pub delete_expired_key : F → String × String → Keys F → Keys F
  delete_expired_key cutoff k t = if seen_before cutoff (find k t) then remove k t else t

  -- The UPDATE, on the row of the key if there is one.
  unfoldable pub reclaim : F → String × String → Option (KeyRow F) → Keys F → Claim × Keys F
  reclaim now k none t = (replay, t)
  reclaim now k (some r) t =
      if is_pending r.state && ltf r.seen_at (sub now stale_pending_s)
      then (reclaimed, put k (record { state = pending; seen_at = now }) t)
      else (replay, t)

  -- The INSERT ... ON CONFLICT DO NOTHING, and the UPDATE if no row was inserted.
  unfoldable pub claim_row :
      ClaimFaults → F → String × String → Option (KeyRow F) → Keys F → Claim × Keys F
  claim_row f now k none t =
      if f.insert_ok
      then (claimed, put k (record { state = pending; seen_at = now }) t)
      else (replay, t)
  claim_row f now k (some r) t = if f.update_ok then reclaim now k (some r) t else (replay, t)

  -- IdempotencyClaim
  unfoldable pub idempotency_claim : ClaimFaults → F → String × String → Keys F → Claim × Keys F
  idempotency_claim f now k t =
      let t' = if f.delete_ok then delete_expired_key (sub now idempotency_ttl) k t else t in
      claim_row f now k (find k t') t'

  -- IdempotencyFinish
  unfoldable pub finish_row : F → String × String → Option (KeyRow F) → Keys F → Keys F
  finish_row now k none t = t
  finish_row now k (some r) t = put k (record { state = done; seen_at = now }) t

  unfoldable pub idempotency_finish : Bool → F → String × String → Keys F → Keys F
  idempotency_finish ok now k t = if ok then finish_row now k (find k t) t else t

  -- IdempotencyFail
  unfoldable pub fail_row : String × String → Option (KeyRow F) → Keys F → Keys F
  fail_row k none t = t
  fail_row k (some r) t = if is_pending r.state then remove k t else t

  unfoldable pub idempotency_fail : Bool → String × String → Keys F → Keys F
  idempotency_fail ok k t = if ok then fail_row k (find k t) t else t

  -- IdempotencyCleanup
  unfoldable pub delete_seen_before : F → Keys F → Keys F
  delete_seen_before cutoff = keep (λ row. not (ltf row.1.seen_at cutoff))

  unfoldable pub idempotency_cleanup : Bool → F → Keys F → Keys F
  idempotency_cleanup ok now t = if ok then delete_seen_before (sub now idempotency_ttl) t else t
