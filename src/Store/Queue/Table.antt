-- ===== src/Store/Queue/Table.antt =====
-- The tables update_queue and consumer_offsets of internal/store/queue.go, and the statements that
-- the code runs on them.
use tg_session_gateway.Prelude.{
  ℤ, pos, negsuc, leb_ℤ, ltb_ℤ, Bool, false, not, ◌&&◌, ◌||◌, List, [], ◌∷◌, ◌++◌, String,
  int_has_eq, string_has_eq, ◌=?◌, if◌then◌else◌, take, keep,
}
use tg_session_gateway.Float64.{Float64, ltf}

pub record Row (F : Type 0) : Type 0 where
  pub bot_alias : String
  pub update_id : ℤ
  pub update_json : String
  pub enqueued_at : F

pub record Tables (F : Type 0) : Type 0 where
  pub update_queue : List (Row F)
  pub consumer_offsets : List (String × ℤ)

module _ ⦃N : Float64⦄ where
  open N use {F, leb}

  -- bot_alias = ? AND update_id <= ?
  abbrev pub is_acked : String → ℤ → Row F → Bool
  is_acked name last r = r.bot_alias =? name && leb_ℤ r.update_id last

  -- DELETE FROM update_queue WHERE bot_alias = ? AND update_id <= ?
  unfoldable pub delete_acked : String → ℤ → List (Row F) → List (Row F)
  delete_acked name last = keep (λ r. not (is_acked name last r))

  -- DELETE FROM update_queue WHERE bot_alias = ? AND enqueued_at < ?
  unfoldable pub delete_expired : String → F → List (Row F) → List (Row F)
  delete_expired name cutoff = keep (λ r. not (r.bot_alias =? name && ltf r.enqueued_at cutoff))

  abbrev pub has_key : String → ℤ → List (Row F) → Bool
  has_key name uid [] = false
  has_key name uid (r ∷ rs) = (r.bot_alias =? name && r.update_id =? uid) || has_key name uid rs

  -- INSERT OR IGNORE INTO update_queue: the primary key is (bot_alias, update_id).
  unfoldable pub insert_or_ignore : Row F → List (Row F) → List (Row F)
  insert_or_ignore r rows = if has_key r.bot_alias r.update_id rows then rows else rows ++ r ∷ []

  -- ORDER BY update_id
  unfoldable pub insert_by_id : Row F → List (Row F) → List (Row F)
  insert_by_id r [] = r ∷ []
  insert_by_id r (s ∷ rows) =
      if leb_ℤ r.update_id s.update_id then r ∷ s ∷ rows else s ∷ insert_by_id r rows

  unfoldable pub order_by_id : List (Row F) → List (Row F)
  order_by_id [] = []
  order_by_id (r ∷ rows) = insert_by_id r (order_by_id rows)

  -- LIMIT n: none, if n is negative.
  unfoldable pub limit_rows : ℤ → List (Row F) → List (Row F)
  limit_rows (pos n) rows = take n rows
  limit_rows (negsuc n) rows = rows

  -- The SELECT of loadFromDB.
  abbrev pub is_unacked : String → ℤ → F → Row F → Bool
  is_unacked name offset cutoff r =
      r.bot_alias =? name && (ltb_ℤ offset r.update_id && ltf cutoff r.enqueued_at)

  unfoldable pub select_unacked : String → ℤ → F → ℤ → List (Row F) → List (Row F)
  unfolding order_by_id limit_rows
  select_unacked name offset cutoff maxsize rows =
      limit_rows maxsize (order_by_id (keep (is_unacked name offset cutoff) rows))
