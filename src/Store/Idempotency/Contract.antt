-- ===== src/Store/Idempotency/Contract.antt =====
-- The send contract of the idempotency table in internal/store/gateway.go and
-- internal/store/mt.go: who may send after whom.
use tg_session_gateway.Prelude.{
  ◌≡◌, refl, sym, ◌∙◌, true, false, Option, none, some, List, [], ◌∷◌, String, find, pair_has_eq,
  All, arith, ap, subst,
}
use tg_session_gateway.Float64.{Float64}
use tg_session_gateway.Store.Idempotency.{
  KeyRow, Keys, replay, ClaimFaults, proceeds, idempotency_claim, idempotency_finish,
}
use tg_session_gateway.Store.Idempotency.Laws.{
  fresh_row, answer, row_after, idempotency_claim_lem, idempotency_finish_lem,
}
use tg_session_gateway.Store.Idempotency.Window.{
  KeyOp, key_step, key_run, at_time, gives_up, WithinTtl, WithinMinute, Seen, SeenDone,
}
use tg_session_gateway.Store.Idempotency.Steps.{
  replay-WithinMinute, replay-WithinTtl, Seen-step, SeenDone-step,
}

module _ ⦃N : Float64⦄ where
  open N use {F, leb, sub, of_int, leb_refl, leb_trans, leb_total}

  Seen-run :
      (start : F) (k : String × String) (ops : List (KeyOp F)) (t : Keys F)
      → Seen start (find k t)
      → All (λ op. WithinMinute start (at_time op) × (gives_up k op ≡ false)) ops
      → Seen start (find k (key_run ops t))
  unfolding key_run
  Seen-run start k [] t s a = s
  Seen-run start k (op ∷ ops) t s a =
      Seen-run start k ops (key_step op t) (Seen-step start k op t s a.0.0 a.0.1) a.1

  SeenDone-run :
      (start : F) (k : String × String) (ops : List (KeyOp F)) (t : Keys F)
      → SeenDone start (find k t)
      → All (λ op. WithinTtl start (at_time op)) ops
      → SeenDone start (find k (key_run ops t))
  unfolding key_run
  SeenDone-run start k [] t s a = s
  SeenDone-run start k (op ∷ ops) t s a =
      SeenDone-run start k ops (key_step op t) (SeenDone-step start k op t s a.0) a.1

  Seen-answer :
      (f : ClaimFaults) (start : F) (row : Option (KeyRow F))
      → proceeds (answer f start row) ≡ true
      → Seen start (row_after start (answer f start row) row)
  Seen-answer f start none h = ground (arith, leb_refl start)
  Seen-answer f start (some r) h = ground (arith, leb_refl start)

  pub Seen-proceeds :
      (f : ClaimFaults) (start : F) (k : String × String) (t : Keys F)
      → proceeds (idempotency_claim f start k t).0 ≡ true
      → Seen start (find k (idempotency_claim f start k t).1)
  Seen-proceeds f start k t h =
      let (a, b) = idempotency_claim_lem f start k t in
      let row = fresh_row f.delete_ok start (find k t) in
      subst (Seen start) (sym b) (Seen-answer f start row (ap proceeds (sym a) ∙ h))

  -- Of two claims of one key within a minute the second is a replay when the first went through,
  -- whatever claims, finishes and cleanups of any keys, and failures of other keys, ran between
  -- them in that minute, and whichever statements the engine let through.
  pub claim-key_run-claim :
      (f g : ClaimFaults) (start at : F) (k : String × String) (ops : List (KeyOp F)) (t : Keys F)
      → proceeds (idempotency_claim f start k t).0 ≡ true
      → All (λ op. WithinMinute start (at_time op) × (gives_up k op ≡ false)) ops
      → WithinMinute start at
      → (idempotency_claim g at k (key_run ops (idempotency_claim f start k t).1)).0 ≡ replay
  claim-key_run-claim f g start at k ops t h a w =
      (replay-WithinMinute start at g k _ (Seen-run start k ops _ (Seen-proceeds f start k t h) a)
        w).0

  -- After a key is finished, every claim of it until the TTL is over is a replay, whatever
  -- operations on any keys ran in that time, failures of this key included.
  pub finish-key_run-claim :
      (g : ClaimFaults) (start at : F) (k : String × String) (r : KeyRow F) (ops : List (KeyOp F))
      (t : Keys F)
      → find k t ≡ some r
      → All (λ op. WithinTtl start (at_time op)) ops
      → WithinTtl start at
      → (idempotency_claim g at k (key_run ops (idempotency_finish true start k t))).0 ≡ replay
  finish-key_run-claim g start at k r ops t e a w =
      (replay-WithinTtl start at g k _
        (SeenDone-run start k ops _
          (rw (idempotency_finish_lem start k r t e) (leb_refl start, refl)) a)
        w).0
