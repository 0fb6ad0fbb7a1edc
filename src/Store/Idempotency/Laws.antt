-- ===== src/Store/Idempotency/Laws.antt =====
-- What one statement group of the idempotency table in internal/store/gateway.go and
-- internal/store/mt.go does to the key it is called with, and that it leaves every other key alone.
use tg_session_gateway.Prelude.{
  ◌≡◌, refl, sym, Bool, true, false, ◌&&◌, Option, none, some, String, find, remove, find-put_self,
  find-remove, pair_has_eq, =?_refl, if◌then◌else◌, arith,
}
use tg_session_gateway.Float64.{Float64, ltf}
use tg_session_gateway.Store.Idempotency.{
  pending, done, KeyRow, Keys, Claim, claimed, reclaimed, replay, ClaimFaults, is_pending,
  idempotency_ttl, stale_pending_s, seen_before, delete_expired_key, reclaim, claim_row,
  idempotency_claim, finish_row, idempotency_finish,
}

module _ ⦃N : Float64⦄ where
  open N use {F, leb, sub, of_int, leb_refl, leb_trans, leb_total}

  pub find-remove_self : (k : String × String) (t : Keys F) → find k (remove k t) ≡ none
  find-remove_self k t = rw (find-remove k k t, =?_refl k)

  -- The row of a key that a claim looks at: none if it is too old.
  abbrev pub fresh_row : Bool → F → Option (KeyRow F) → Option (KeyRow F)
  fresh_row delete_ok now row =
      if delete_ok && seen_before (sub now idempotency_ttl) row then none else row

  delete_expired_key_lem :
      (cutoff : F) (k : String × String) (t : Keys F)
      → find k (delete_expired_key cutoff k t)
        ≡ (if seen_before cutoff (find k t) then none else find k t)
  unfolding delete_expired_key
  delete_expired_key_lem cutoff k t = ground (arith, find-remove_self k t)

  pub claim_looks :
      (ok : Bool) (now : F) (k : String × String) (t : Keys F)
      → find k (if ok then delete_expired_key (sub now idempotency_ttl) k t else t)
        ≡ fresh_row ok now (find k t)
  claim_looks true now k t = delete_expired_key_lem (sub now idempotency_ttl) k t
  claim_looks false now k t = refl

  -- A claim's answer, read off the row of the key.
  abbrev pub answer : ClaimFaults → F → Option (KeyRow F) → Claim
  answer f now none = if f.insert_ok then claimed else replay
  answer f now (some r) =
      if f.update_ok && (is_pending r.state && ltf r.seen_at (sub now stale_pending_s))
      then reclaimed
      else replay

  -- The row of the key after a claim.
  abbrev pub row_after : F → Claim → Option (KeyRow F) → Option (KeyRow F)
  row_after now replay row = row
  row_after now claimed row = some (record { state = pending; seen_at = now })
  row_after now reclaimed row = some (record { state = pending; seen_at = now })

  claim_row_lem :
      (f : ClaimFaults) (now : F) (k : String × String) (row : Option (KeyRow F)) (t : Keys F)
      → find k t ≡ row
      → ((claim_row f now k row t).0 ≡ answer f now row)
        × (find k (claim_row f now k row t).1 ≡ row_after now (answer f now row) row)
  unfolding claim_row reclaim
  claim_row_lem f now k none t e =
      ground (arith, find-put_self k (record { state = pending; seen_at = now }) t)
  claim_row_lem f now k (some r) t e =
      ground (arith, find-put_self k (record { state = pending; seen_at = now }) t)

  -- IdempotencyClaim answers by the row of the key alone: none, or one older than the TTL, is
  -- claimed; a pending one older than a minute is reclaimed; any other is a replay. The row
  -- afterwards is a new pending one if the caller proceeds, and the old one, if it was not too old,
  -- otherwise.
  pub idempotency_claim_lem :
      (f : ClaimFaults) (now : F) (k : String × String) (t : Keys F)
      → let row = fresh_row f.delete_ok now (find k t) in
        ((idempotency_claim f now k t).0 ≡ answer f now row)
        × (find k (idempotency_claim f now k t).1 ≡ row_after now (answer f now row) row)
  unfolding idempotency_claim
  idempotency_claim_lem f now k t =
      let t' = if f.delete_ok then delete_expired_key (sub now idempotency_ttl) k t else t in
      rw (sym (claim_looks f.delete_ok now k t)) (claim_row_lem f now k (find k t') t' refl)

  pub idempotency_finish_lem :
      (now : F) (k : String × String) (r : KeyRow F) (t : Keys F)
      → find k t ≡ some r
      → find k (idempotency_finish true now k t) ≡ some (record { state = done; seen_at = now })
  unfolding idempotency_finish finish_row
  idempotency_finish_lem now k r t e =
      rw e (find-put_self k (record { state = done; seen_at = now }) t)
