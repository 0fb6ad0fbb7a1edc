-- ===== src/Store/Mt.antt =====
-- internal/store/mt.go: the tables of the MTProto plane, and the statements that its methods run on
-- them. A Boolean argument says whether the engine let a statement through; time is an argument.
-- Tokens are sealed by the box of internal/cryptoutil, which is a parameter. The rows of
-- update_queue are those of Store/Queue/Table, with the alias for the bot's.
pub mod Queues
pub mod Rows
use tg_session_gateway.Prelude.{
  ℤ, pos, ltb_ℤ, ℕ, Bool, false, not, ◌&&◌, if◌then◌else◌, Option, none, some, is_some, List, map,
  String, string_has_eq, int_has_eq, ◌=?◌, find, put, remove, length, take, keep,
}
use tg_session_gateway.Float64.{Float64, ltf}
use tg_session_gateway.Store.Queue.{pull_limit}
use tg_session_gateway.Store.Queue.Table.{Row, delete_acked, delete_expired, order_by_id}

-- MTState
pub record MtState : Type 0 where
  pub pts : ℤ
  pub qts : ℤ
  pub date : ℤ
  pub seq : ℤ

-- A row of sessions, by its alias; created_at and phone_or_token, which only the list shows, are
-- left out.
pub record SessionRow : Type 0 where
  pub token_enc : String
  pub state : MtState
  pub paused : Bool

abbrev pub no_state : MtState
no_state = record { pts = pos 0; qts = pos 0; date = pos 0; seq = pos 0 }

abbrev pub Sessions : Type 0
Sessions = List (String × SessionRow)

-- RawUpdate
pub record RawUpdate : Type 0 where
  pub id : ℤ
  pub json : String

-- Register: the INSERT, and on a conflict the UPDATE of the token only.
unfoldable pub upsert : String → String → Option SessionRow → Sessions → Sessions
upsert name enc none t = put name (record { token_enc = enc; state = no_state; paused = false }) t
upsert name enc (some r) t = put name (record r { token_enc = enc }) t

-- The UPDATEs of one row.
unfoldable pub update_row :
    String → (SessionRow → SessionRow) → Option SessionRow → Sessions → Sessions
update_row name f none t = t
update_row name f (some r) t = put name (f r) t

-- SetPaused
unfoldable pub set_paused : Bool → String → Bool → Sessions → Sessions
set_paused ok name paused t =
    if ok then update_row name (λ r. record r { paused = paused }) (find name t) t else t

-- SaveState
unfoldable pub save_state : Bool → String → MtState → Sessions → Sessions
save_state ok name st t =
    if ok then update_row name (λ r. record r { state = st }) (find name t) t else t

abbrev pub state_of : Option SessionRow → MtState
state_of none = no_state
state_of (some r) = r.state

-- GetState
unfoldable pub get_state : String → Sessions → MtState
get_state name t = state_of (find name t)

-- Delete, and whether there was a row. foreign_keys is on, so the updates of the session go with it.
unfoldable pub delete_session :
    {F : Type 0} → Bool → String → Sessions → List (Row F) → (Sessions × List (Row F)) × Bool
delete_session ok name t rows =
    if ok
    then ((remove name t, keep (λ r. not (r.bot_alias =? name)) rows), is_some (find name t))
    else ((t, rows), false)

module _ (seal : String → Option String) (open_token : String → Option String) where
  abbrev pub register_sealed : Bool → String → Option String → Sessions → Sessions
  register_sealed ok name none t = t
  register_sealed ok name (some enc) t = if ok then upsert name enc (find name t) t else t

  -- Register
  unfoldable pub register : Bool → String → String → Sessions → Sessions
  register ok name token t = register_sealed ok name (seal token) t

  abbrev pub token_of : Option SessionRow → Option String
  token_of none = none
  token_of (some r) = open_token r.token_enc

  -- GetToken
  unfoldable pub get_token : String → Sessions → Option String
  get_token name t = token_of (find name t)

  -- VerifyTokens: the aliases whose token does not open.
  unfoldable pub verify_tokens : List String → Sessions → List String
  verify_tokens names t = keep (λ name. not (is_some (get_token name t))) names

module _ ⦃N : Float64⦄ where
  open N use {F, leb, sub}

  -- WHERE alias = ? AND update_id > ?
  abbrev pub is_after : String → ℤ → Row F → Bool
  is_after name offset r = r.bot_alias =? name && ltb_ℤ offset r.update_id

  abbrev pub raw_of : Row F → RawUpdate
  raw_of r = record { id = r.update_id; json = r.update_json }

  -- QueuePullRaw: rows without a payload are passed over after the LIMIT.
  unfoldable pub queue_pull_raw : String → ℤ → ℤ → List (Row F) → List RawUpdate
  queue_pull_raw name offset limit rows = map raw_of (
      keep (λ r. not (r.update_json =? ""))
        (take (pull_limit limit) (order_by_id (keep (is_after name offset) rows))))

  -- QueueAck
  unfoldable pub queue_ack : Bool → String → ℤ → List (Row F) → List (Row F)
  queue_ack ok name last_seen rows = if ok then delete_acked name last_seen rows else rows

  -- QueueDepth
  unfoldable pub queue_depth : String → List (Row F) → ℕ
  queue_depth name rows = length (keep (λ r. r.bot_alias =? name) rows)

  -- QueueTTLCleanup, and how many rows it deleted.
  unfoldable pub queue_ttl_cleanup : Bool → String → F → List (Row F) → List (Row F) × ℕ
  queue_ttl_cleanup ok name cutoff rows =
      if ok
      then (
        delete_expired name cutoff rows,
        length (keep (λ r. r.bot_alias =? name && ltf r.enqueued_at cutoff) rows),
      )
      else (rows, 0)
