-- ===== src/Store/Mt/Rows.antt =====
-- The table sessions of internal/store/mt.go: Register, Delete, SetPaused, SaveState and what the
-- reads then give.
use tg_session_gateway.Prelude.{
  ◌≡◌, refl, ap, true, false, Option, none, some, String, string_has_eq, ◌=?◌, find, find-put,
  find-put_self, arith,
}
use tg_session_gateway.Store.Mt.{
  MtState, SessionRow, Sessions, upsert, update_row, save_state, state_of, get_state, register,
  get_token,
}

update_row_lem :
    (name other : String) (f : SessionRow → SessionRow) (row : Option SessionRow) (t : Sessions)
    → find name t ≡ row
    → (other =? name) ≡ false
    → find other (update_row name f row t) ≡ find other t
unfolding update_row
update_row_lem name other f none t e h = refl
update_row_lem name other f (some r) t e h = ground (
  arith,
  find-put name other (f r) t,
  string_has_eq.beq_iff name other,
  string_has_eq.beq_iff other name,
)

upsert_row :
    (name enc : String) (row : Option SessionRow) (t : Sessions)
    → ((r : SessionRow) × ((find name (upsert name enc row t) ≡ some r)
          × ((r.token_enc ≡ enc) × (r.state ≡ state_of row))))
unfolding upsert
upsert_row name enc none t = (_, (find-put_self name _ t, (refl, refl)))
upsert_row name enc (some r) t = (_, (find-put_self name _ t, (refl, refl)))

module _ (seal open_token : String → Option String) where
  -- After a registration that went through the token is read back, if the box opens what it sealed,
  -- and the update state is as it was: a rotated token does not reset pts, qts, date and seq.
  pub get_token-register :
      (name token enc : String) (t : Sessions)
      → seal token ≡ some enc
      → open_token enc ≡ some token
      → (get_token seal open_token name (register seal open_token true name token t) ≡ some token)
        × (get_state name (register seal open_token true name token t) ≡ get_state name t)
  unfolding register get_token get_state
  get_token-register name token enc t s o =
      let (r, (e, (k, p))) = upsert_row name enc (find name t) t in rw (s, e, k) (o, p)

save_state_row :
    (name : String) (st : MtState) (r : SessionRow) (t : Sessions)
    → find name t ≡ some r
    → find name (save_state true name st t) ≡ some (record r { state = st })
unfolding save_state update_row
save_state_row name st r t e = rw e (find-put_self name _ t)

-- The saved update state of a session is read back, and no other session's changes.
pub get_state-save_state :
    (name other : String) (st : MtState) (r : SessionRow) (t : Sessions)
    → find name t ≡ some r
    → (other =? name) ≡ false
    → (get_state name (save_state true name st t) ≡ st)
      × (get_state other (save_state true name st t) ≡ get_state other t)
unfolding get_state save_state
get_state-save_state name other st r t e h = (
  ap state_of (save_state_row name st r t e),
  ap state_of (update_row_lem name other _ (find name t) t refl h),
)
