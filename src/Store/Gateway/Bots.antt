-- ===== src/Store/Gateway/Bots.antt =====
-- The table bots of internal/store/gateway.go: what the reads give after the writes.
use tg_session_gateway.Prelude.{
  Bool, pos, ap, if◌then◌else◌, ◌≡◌, refl, true, Option, none, some, String, string_has_eq, find,
  find-put_self,
}
use tg_session_gateway.Store.Gateway.{
  BotRow, Bots, upsert_bot, offset_of, get_offset, register_bot, get_token,
}

upsert_bot_row :
    (name enc : String) (row : Option BotRow) (t : Bots)
    → ((r : BotRow) × ((find name (upsert_bot name enc row t) ≡ some r)
          × ((r.token_enc ≡ enc) × (r.telegram_offset ≡ offset_of row))))
unfolding upsert_bot
upsert_bot_row name enc none t = (_, (find-put_self name _ t, (refl, refl)))
upsert_bot_row name enc (some r) t = (_, (find-put_self name _ t, (refl, refl)))

module _ (seal open_token : String → Option String) where
  -- After a registration that went through the token is read back, if the box opens what it sealed,
  -- and the poll offset is as it was: a rotated token makes no update come twice.
  pub get_token-register_bot :
      (ok : Bool) (name token enc : String) (t : Bots)
      → seal token ≡ some enc
      → open_token enc ≡ some token
      → (get_token seal open_token name (register_bot seal open_token true name token t)
          ≡ some token)
        × (get_offset ok name (register_bot seal open_token true name token t)
            ≡ get_offset ok name t)
  unfolding register_bot get_token get_offset
  get_token-register_bot ok name token enc t s o =
      let (r, (e, (k, p))) = upsert_bot_row name enc (find name t) t in
      rw (s, e, k) (o, ap (λ n. if ok then n else pos 0) p)
