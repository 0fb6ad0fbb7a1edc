-- ===== src/Tests/Keys.antt =====
-- The idempotency keys of internal/store/gateway.go at concrete values.
use tg_session_gateway.Prelude.{
  ℤ, pos, ◌-ℤ◌, ◌≡◌, refl, true, false, some, List, [], ◌∷◌, String, find, pair_has_eq,
}
use tg_session_gateway.Float64.{integral}
use tg_session_gateway.Store.Idempotency.{
  pending, Keys, ClaimFaults, replay, proceeds, idempotency_claim, idempotency_finish, claim_row,
  delete_expired_key,
}
use tg_session_gateway.Store.Idempotency.Window.{KeyOp, claim, fail, cleanup, key_run}
use tg_session_gateway.Store.Idempotency.Contract.{claim-key_run-claim, finish-key_run-claim}

abbrev fine : ClaimFaults
fine = record { delete_ok = true; insert_ok = true; update_ok = true }

abbrev deaf : ClaimFaults
deaf = record { delete_ok = false; insert_ok = false; update_ok = true }

abbrev key : String × String
key = ("shop", "order-1")

abbrev other : String × String
other = ("shop", "order-2")

abbrev ops : List (KeyOp ℤ)
ops =
    claim fine (pos 1003) key
    ∷ claim fine (pos 1004) other
    ∷ fail true (pos 1005) other
    ∷ cleanup true (pos 1006)
    ∷ []

abbrev sent : Keys ℤ
sent = (key, record { state = pending; seen_at = pos 1000 }) ∷ []

first_proceeds : proceeds (idempotency_claim fine (pos 1000) key []).0 ≡ true
unfolding idempotency_claim claim_row delete_expired_key find
first_proceeds = refl

claim-key_run-claim_example :
    (idempotency_claim deaf
      (pos 1010)
      key
      (key_run ops (idempotency_claim fine (pos 1000) key []).1)).0
    ≡ replay
unfolding ◌-ℤ◌
claim-key_run-claim_example =
    claim-key_run-claim fine deaf (pos 1000) (pos 1010) key ops [] first_proceeds
      (
        (((refl, refl), refl), refl),
        (
          (((refl, refl), refl), refl),
          ((((refl, refl), refl), refl), ((((refl, refl), refl), refl), tt)),
        ),
      )
      ((refl, refl), refl)

held : find key sent ≡ some (record { state = pending; seen_at = pos 1000 })
unfolding find
held = refl

finish-key_run-claim_example :
    (idempotency_claim fine
      (pos 1200)
      key
      (key_run (fail true (pos 1100) key ∷ []) (idempotency_finish true (pos 1001) key sent))).0
    ≡ replay
unfolding ◌-ℤ◌
finish-key_run-claim_example =
    finish-key_run-claim fine (pos 1001) (pos 1200) key
      (record { state = pending; seen_at = pos 1000 }) (fail true (pos 1100) key ∷ []) sent held
      ((refl, refl), tt) (refl, refl)
