-- ===== src/Store/Idempotency/Retry.antt =====
-- When the idempotency table in internal/store/gateway.go and internal/store/mt.go lets a send be
-- tried again.
use tg_session_gateway.Prelude.{
  ◌≡◌, sym, ◌∙◌, true, Option, none, some, String, find, pair_has_eq, arith, ap,
}
use tg_session_gateway.Float64.{Float64, ltf}
use tg_session_gateway.Store.Idempotency.{
  pending, KeyRow, Keys, claimed, ClaimFaults, proceeds, stale_pending_s, idempotency_claim,
  fail_row, idempotency_fail,
}
use tg_session_gateway.Store.Idempotency.Laws.{
  fresh_row, answer, row_after, idempotency_claim_lem, find-remove_self,
}

module _ ⦃N : Float64⦄ where
  open N use {F, leb, sub, of_int, leb_refl, leb_trans, leb_total}

  row_of_proceeds :
      (f : ClaimFaults) (start : F) (row : Option (KeyRow F))
      → proceeds (answer f start row) ≡ true
      → row_after start (answer f start row) row
        ≡ some (record { state = pending; seen_at = start })
  row_of_proceeds f start none h = ground arith
  row_of_proceeds f start (some r) h = ground arith

  pub row_of_claim :
      (f : ClaimFaults) (start : F) (k : String × String) (t : Keys F)
      → proceeds (idempotency_claim f start k t).0 ≡ true
      → find k (idempotency_claim f start k t).1
        ≡ some (record { state = pending; seen_at = start })
  row_of_claim f start k t h =
      let (a, b) = idempotency_claim_lem f start k t in
      b ∙ row_of_proceeds f start (fresh_row f.delete_ok start (find k t)) (ap proceeds (sym a) ∙ h)

  fail_pending :
      (k : String × String) (start : F) (t : Keys F)
      → find k t ≡ some (record { state = pending; seen_at = start })
      → find k (idempotency_fail true k t) ≡ none
  unfolding idempotency_fail fail_row
  fail_pending k start t e = rw e (find-remove_self k t)

  -- A send that fails gives its key back: if the failure and the INSERT of the next claim reach the
  -- table, that claim is a new one, at any time.
  pub claim-fail-claim :
      (f g : ClaimFaults) (start at : F) (k : String × String) (t : Keys F)
      → proceeds (idempotency_claim f start k t).0 ≡ true
      → g.insert_ok ≡ true
      → (idempotency_claim g at k (idempotency_fail true k (idempotency_claim f start k t).1)).0
        ≡ claimed
  claim-fail-claim f g start at k t h i =
      let t1 = idempotency_fail true k (idempotency_claim f start k t).1 in
      let none_left =
        fail_pending k start (idempotency_claim f start k t).1 (row_of_claim f start k t h) in
      (idempotency_claim_lem g at k t1).0
      ∙ ap (λ row. answer g at (fresh_row g.delete_ok at row)) none_left
      ∙ ground (arith, i)

  answer_stale :
      (g : ClaimFaults) (start at : F)
      → ltf start (sub at stale_pending_s) ≡ true
      → g.insert_ok ≡ true
      → g.update_ok ≡ true
      → proceeds (
          answer g at
            (fresh_row g.delete_ok at (some (record { state = pending; seen_at = start }))))
        ≡ true
  answer_stale g start at h i u = ground arith

  -- A sender that died does not block its key: a claim more than a minute after the one that went
  -- through goes through as well, if its statements reach the table.
  pub claim-claim_stale :
      (f g : ClaimFaults) (start at : F) (k : String × String) (t : Keys F)
      → proceeds (idempotency_claim f start k t).0 ≡ true
      → ltf start (sub at stale_pending_s) ≡ true
      → g.insert_ok ≡ true
      → g.update_ok ≡ true
      → proceeds (idempotency_claim g at k (idempotency_claim f start k t).1).0 ≡ true
  claim-claim_stale f g start at k t h s i u =
      let t1 = (idempotency_claim f start k t).1 in
      ap proceeds ((idempotency_claim_lem g at k t1).0)
      ∙ ap (λ row. proceeds (answer g at (fresh_row g.delete_ok at row)))
          (row_of_claim f start k t h)
      ∙ answer_stale g start at s i u
