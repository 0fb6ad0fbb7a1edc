-- ===== src/Store/Gateway/Backoffs.antt =====
-- The table chat_backoff of internal/store/gateway.go: pauses that outlive the process.
use tg_session_gateway.Prelude.{
  ℤ, ◌≡◌, Bool, true, false, ◌&&◌, ◌||◌, if◌then◌else◌, Option, List, [], ◌∷◌, map, String,
  string_has_eq, int_has_eq, eq_ℤ_iff, ◌=?◌, =?_refl, keep, arith,
}
use tg_session_gateway.Float64.{Float64, ltf, ltf_of_ltf_of_le}
use tg_session_gateway.Store.Gateway.{
  BackoffRow, is_row, put_backoff, chat_or_zero, save_backoff, delete_over, load_backoffs,
}

module _ ⦃N : Float64⦄ where
  open N use {F, leb, leb_refl}

  -- Some pause of the chat lasts at least until `until`.
  abbrev pub is_paused : ℤ → F → List (ℤ × F) → Bool
  is_paused chat until [] = false
  is_paused chat until (p ∷ ps) = (p.0 =? chat && leb until p.1) || is_paused chat until ps

  abbrev found : String → ℤ → F → List (BackoffRow F) → Bool
  found name chat until [] = false
  found name chat until (r ∷ rows) =
      (is_row name chat r && leb until r.paused_until) || found name chat until rows

  is_row_self :
      (name : String) (chat : ℤ) (until : F)
      → is_row name chat (record { name = name; chat_id = chat; paused_until = until }) ≡ true
  is_row_self name chat until = ground (arith, =?_refl name, eq_ℤ_iff chat chat)

  found-put_backoff :
      (name : String) (chat : ℤ) (until : F) (rows : List (BackoffRow F))
      → found name chat until
          (put_backoff (record { name = name; chat_id = chat; paused_until = until }) rows)
        ≡ true
  unfolding put_backoff
  found-put_backoff name chat until [] = ground (arith, is_row_self name chat until, leb_refl until)
  found-put_backoff name chat until (r ∷ rows) =
      ground
        (arith, found-put_backoff name chat until rows, is_row_self name chat until, leb_refl until)

  found-delete_over :
      (name : String) (chat : ℤ) (until now : F) (rows : List (BackoffRow F))
      → ltf now until ≡ true
      → found name chat until rows ≡ true
      → found name chat until (delete_over name now rows) ≡ true
  unfolding delete_over
  found-delete_over name chat until now [] h f = f
  found-delete_over name chat until now (r ∷ rows) h f = ground (
    arith,
    found-delete_over name chat until now rows h,
    ltf_of_ltf_of_le now until r.paused_until h,
  )

  is_paused-map :
      (name : String) (chat : ℤ) (until : F) (rows : List (BackoffRow F))
      → found name chat until rows ≡ true
      → is_paused chat until
          (map (λ r. (r.chat_id, r.paused_until)) (keep (λ r. r.name =? name) rows))
        ≡ true
  is_paused-map name chat until [] f = f
  is_paused-map name chat until (r ∷ rows) f = ground (arith, is_paused-map name chat until rows)

  over_left :
      (ok : Bool) (name : String) (chat : ℤ) (until now : F) (rows : List (BackoffRow F))
      → ltf now until ≡ true
      → found name chat until rows ≡ true
      → found name chat until (if ok then delete_over name now rows else rows) ≡ true
  over_left true name chat until now rows h f = found-delete_over name chat until now rows h f
  over_left false name chat until now rows h f = f

  -- A pause that was saved is loaded again after a restart until it is over, of a chat or, as chat
  -- 0, of the whole bot, whether or not the DELETE of the old rows goes through.
  pub load_backoffs-save_backoff :
      (delete_ok : Bool) (name : String) (chat : Option ℤ) (until now : F)
      (rows : List (BackoffRow F))
      → ltf now until ≡ true
      → is_paused
          (chat_or_zero chat)
          until
          (load_backoffs delete_ok true name now (save_backoff true name chat until rows)).1
        ≡ true
  unfolding load_backoffs save_backoff
  load_backoffs-save_backoff delete_ok name chat until now rows h =
      let k = chat_or_zero chat in
      let saved = put_backoff (record { name = name; chat_id = k; paused_until = until }) rows in
      is_paused-map name k until (if delete_ok then delete_over name now saved else saved)
        (over_left delete_ok name k until now saved h (found-put_backoff name k until rows))
