-- ===== src/Store/Mt/Queues.antt =====
-- Deliveries from the update_queue of internal/store/mt.go: QueuePullRaw, QueueAck, QueueDepth and
-- QueueTTLCleanup together.
use tg_session_gateway.Prelude.{
  ℤ, ltb_ℤ, ◌+◌, ◌≡◌, refl, sym, ◌∙◌, ap, keep-keep, Bool, true, false, not, ◌&&◌, List, [], ◌∷◌,
  String, string_has_eq, ◌=?◌, keep, length, take, map, arith,
}
use tg_session_gateway.Float64.{Float64, ltf}
use tg_session_gateway.Store.Queue.{pull_limit}
use tg_session_gateway.Store.Queue.Table.{Row, delete_acked, delete_expired, is_acked, order_by_id}
use tg_session_gateway.Store.Mt.{
  is_after, raw_of, queue_pull_raw, queue_ack, queue_depth, queue_ttl_cleanup,
}

module _ ⦃N : Float64⦄ where
  open N use {F, leb}

  same_name : (a b c : String) → (a =? b) ≡ true → (a =? c) ≡ true → (b =? c) ≡ true
  same_name a b c h k =
      (string_has_eq.beq_iff b c).1
        (sym ((string_has_eq.beq_iff a b).0 h) ∙ (string_has_eq.beq_iff a c).0 k)

  not_acked :
      (name other : String) (offset last_seen : ℤ)
      → (((name =? other) && ltb_ℤ offset last_seen) ≡ false)
      → (r : Row F) → is_after name offset r ≡ true
      → not (is_acked other last_seen r) ≡ true
  not_acked name other offset last_seen h r a = ground (arith, same_name r.bot_alias name other)

  after_acked :
      (name other : String) (offset last_seen : ℤ) (rows : List (Row F))
      → (((name =? other) && ltb_ℤ offset last_seen) ≡ false)
      → keep (is_after name offset) (delete_acked other last_seen rows)
        ≡ keep (is_after name offset) rows
  unfolding delete_acked
  after_acked name other offset last_seen rows h =
      keep-keep (is_after name offset) (λ r. not (is_acked other last_seen r)) rows
        (not_acked name other offset last_seen h)

  -- An Ack takes no update away that is still asked for: a pull of another alias, or of this one
  -- from the acknowledged id on, gives the same before and after it, if the DELETE went through or
  -- not.
  pub queue_pull_raw-queue_ack :
      (ok : Bool) (name other : String) (offset last_seen limit : ℤ) (rows : List (Row F))
      → (((name =? other) && ltb_ℤ offset last_seen) ≡ false)
      → queue_pull_raw name offset limit (queue_ack ok other last_seen rows)
        ≡ queue_pull_raw name offset limit rows
  unfolding queue_pull_raw queue_ack
  queue_pull_raw-queue_ack true name other offset last_seen limit rows h =
      ap
        (λ rs.
          map raw_of
            (keep (λ r. not (r.update_json =? "")) (take (pull_limit limit) (order_by_id rs))))
        (after_acked name other offset last_seen rows h)
  queue_pull_raw-queue_ack false name other offset last_seen limit rows h = refl

  length-delete_expired :
      (name : String) (cutoff : F) (rows : List (Row F))
      → length (keep (λ r. r.bot_alias =? name) (delete_expired name cutoff rows))
          + length (keep (λ r. r.bot_alias =? name && ltf r.enqueued_at cutoff) rows)
        ≡ length (keep (λ r. r.bot_alias =? name) rows)
  unfolding delete_expired
  length-delete_expired name cutoff [] = refl
  length-delete_expired name cutoff (r ∷ rows) =
      ground (arith, length-delete_expired name cutoff rows)

  -- QueueTTLCleanup reports what it has taken off the depth of the alias.
  pub queue_depth-queue_ttl_cleanup :
      (ok : Bool) (name : String) (cutoff : F) (rows : List (Row F))
      → let (rows', deleted) = queue_ttl_cleanup ok name cutoff rows in
        queue_depth name rows' + deleted ≡ queue_depth name rows
  unfolding queue_ttl_cleanup queue_depth
  queue_depth-queue_ttl_cleanup true name cutoff rows = length-delete_expired name cutoff rows
  queue_depth-queue_ttl_cleanup false name cutoff rows = ground arith
