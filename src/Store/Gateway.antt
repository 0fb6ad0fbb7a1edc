-- ===== src/Store/Gateway.antt =====
-- internal/store/gateway.go: the tables bots and chat_backoff of the Bot API plane, and the
-- statements that its methods run on them. A Boolean argument says whether the engine let a
-- statement through; time is an argument. Tokens are sealed by the box of internal/cryptoutil,
-- which is a parameter.
pub mod Bots
pub mod Backoffs
use tg_session_gateway.Prelude.{
  ℤ, pos, Bool, false, not, ◌&&◌, if◌then◌else◌, Option, none, some, is_some, List, [], ◌∷◌, map,
  String, string_has_eq, int_has_eq, ◌=?◌, find, put, remove, keep,
}
use tg_session_gateway.Float64.{Float64}

-- A row of bots, by its alias.
pub record BotRow : Type 0 where
  pub token_enc : String
  pub telegram_offset : ℤ
  pub paused : Bool

abbrev pub Bots : Type 0
Bots = List (String × BotRow)

-- RegisterBot: the INSERT, and on a conflict the UPDATE of the token only.
unfoldable pub upsert_bot : String → String → Option BotRow → Bots → Bots
upsert_bot name enc none t =
    put name (record { token_enc = enc; telegram_offset = pos 0; paused = false }) t
upsert_bot name enc (some r) t = put name (record r { token_enc = enc }) t

unfoldable pub update_bot : String → (BotRow → BotRow) → Option BotRow → Bots → Bots
update_bot name f none t = t
update_bot name f (some r) t = put name (f r) t

-- DeleteBot, and whether there was a row.
unfoldable pub delete_bot : Bool → String → Bots → Bots × Bool
delete_bot ok name t = if ok then (remove name t, is_some (find name t)) else (t, false)

-- SetPaused
unfoldable pub set_paused : Bool → String → Bool → Bots → Bots
set_paused ok name paused t =
    if ok then update_bot name (λ r. record r { paused = paused }) (find name t) t else t

abbrev pub offset_of : Option BotRow → ℤ
offset_of none = pos 0
offset_of (some r) = r.telegram_offset

-- GetOffset, if the row can be read.
unfoldable pub get_offset : Bool → String → Bots → ℤ
get_offset ok name t = if ok then offset_of (find name t) else pos 0

-- SaveOffset
unfoldable pub save_offset : Bool → String → ℤ → Bots → Bots
save_offset ok name offset t =
    if ok then update_bot name (λ r. record r { telegram_offset = offset }) (find name t) t else t

module _ (seal : String → Option String) (open_token : String → Option String) where
  abbrev pub register_sealed : Bool → String → Option String → Bots → Bots
  register_sealed ok name none t = t
  register_sealed ok name (some enc) t = if ok then upsert_bot name enc (find name t) t else t

  -- RegisterBot
  unfoldable pub register_bot : Bool → String → String → Bots → Bots
  register_bot ok name token t = register_sealed ok name (seal token) t

  abbrev pub token_of : Option BotRow → Option String
  token_of none = none
  token_of (some r) = open_token r.token_enc

  -- GetToken
  unfoldable pub get_token : String → Bots → Option String
  get_token name t = token_of (find name t)

-- A row of chat_backoff.
pub record BackoffRow (F : Type 0) : Type 0 where
  pub name : String
  pub chat_id : ℤ
  pub paused_until : F

module _ ⦃N : Float64⦄ where
  open N use {F, leb}

  abbrev pub is_row : String → ℤ → BackoffRow F → Bool
  is_row name chat r = r.name =? name && r.chat_id =? chat

  -- The upsert on the primary key (alias, chat_id).
  unfoldable pub put_backoff : BackoffRow F → List (BackoffRow F) → List (BackoffRow F)
  put_backoff b [] = b ∷ []
  put_backoff b (r ∷ rows) = if is_row b.name b.chat_id r then b ∷ rows else r ∷ put_backoff b rows

  -- The well-known row of a pause of the whole bot.
  abbrev pub chat_or_zero : Option ℤ → ℤ
  chat_or_zero none = pos 0
  chat_or_zero (some chat) = chat

  -- SaveBackoff
  unfoldable pub save_backoff :
      Bool → String → Option ℤ → F → List (BackoffRow F) → List (BackoffRow F)
  save_backoff ok name chat until rows =
      if ok
      then put_backoff (record { name = name; chat_id = chat_or_zero chat; paused_until = until })
          rows
      else rows

  -- DELETE ... WHERE alias = ? AND paused_until <= ?
  unfoldable pub delete_over : String → F → List (BackoffRow F) → List (BackoffRow F)
  delete_over name now = keep (λ r. not (r.name =? name && leb r.paused_until now))

  -- LoadBackoffs: the table, and the chats of the alias with their times.
  unfoldable pub load_backoffs :
      Bool → Bool → String → F → List (BackoffRow F) → List (BackoffRow F) × List (ℤ × F)
  load_backoffs delete_ok select_ok name now rows =
      let left = if delete_ok then delete_over name now rows else rows in
      (
        left,
        if select_ok
            then map (λ r. (r.chat_id, r.paused_until)) (keep (λ r. r.name =? name) left)
            else [],
      )
