-- ===== src/Tests/Stores.antt =====
-- The tables of internal/store/gateway.go and internal/store/mt.go at concrete values.
use tg_session_gateway.Prelude.{ℤ, pos, ◌≡◌, refl, true, [], ◌∷◌, String, string_has_eq}
use tg_session_gateway.Float64.{integral}
use tg_session_gateway.Store.Queue.Table.{Row}
use tg_session_gateway.Store.Mt.{queue_pull_raw, queue_ack}
use tg_session_gateway.Store.Mt.Queues.{queue_pull_raw-queue_ack}

abbrev row : String → ℤ → Row ℤ
row name k = record { bot_alias = name; update_id = k; update_json = "{}"; enqueued_at = pos 50 }

queue_pull_raw-queue_ack_example :
    queue_pull_raw "shop"
      (pos 4)
      (pos 10)
      (queue_ack true "shop" (pos 4) (row "shop" (pos 4) ∷ row "shop" (pos 5) ∷ []))
    ≡ queue_pull_raw "shop" (pos 4) (pos 10) (row "shop" (pos 4) ∷ row "shop" (pos 5) ∷ [])
queue_pull_raw-queue_ack_example =
    queue_pull_raw-queue_ack true "shop" "shop" (pos 4) (pos 4) (pos 10)
      (row "shop" (pos 4) ∷ row "shop" (pos 5) ∷ []) refl
