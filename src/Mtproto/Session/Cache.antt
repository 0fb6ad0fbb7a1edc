-- ===== src/Mtproto/Session/Cache.antt =====
-- The idempotency of a session, internal/mtproto/sessions.go: CheckIdempotency and
-- NoteIdempotencyDone, a map in memory before the table of internal/store/mt.go.
use tg_session_gateway.Prelude.{
  pos, ◌≡◌, refl, Bool, true, false, not, if◌then◌else◌, Option, none, some, List, [], ◌∷◌, String,
  string_has_eq, find, put, find-put_self, keep, arith, ℕ, ◌+◌,
}
use tg_session_gateway.Float64.{Float64, ltf}
use tg_session_gateway.Store.Idempotency.{
  Keys, Claim, claimed, reclaimed, replay, ClaimFaults, idempotency_claim,
}

pub record IdempotencyCache (F : Type 0) : Type 0 where
  pub seen_idem_keys : List (String × F)
  pub idempotency_claims : ℕ

module _ ⦃N : Float64⦄ where
  open N use {
    F, leb, sub, of_int, zero, leb_refl, leb_trans, leb_total, sub_le, zero_le_one, of_int_le,
  }

  abbrev pub cache_ttl : F
  cache_ttl = of_int (pos 300)

  -- `now - ts < 300` for the key's entry.
  abbrev pub is_cached : F → Option F → Bool
  is_cached now none = false
  is_cached now (some ts) = ltf (sub now ts) cache_ttl

  -- The loop that drops the old entries.
  unfoldable pub drop_old : F → List (String × F) → List (String × F)
  drop_old cutoff = keep (λ entry. not (ltf entry.1 cutoff))

  -- What CheckIdempotency keeps of the store's verdict.
  unfoldable pub note_verdict : F → String → Claim → IdempotencyCache F → IdempotencyCache F
  note_verdict now key replay s = record s { seen_idem_keys = put key now s.seen_idem_keys }
  note_verdict now key claimed s = record s { idempotency_claims = s.idempotency_claims + 1 }
  note_verdict now key reclaimed s = record s { idempotency_claims = s.idempotency_claims + 1 }

  -- CheckIdempotency on the session `alias`: the map, and else the table, whose claim reads the
  -- clock again, at `at`.
  unfoldable pub check_idempotency :
      ClaimFaults
      → F
      → F
      → String
      → String
      → IdempotencyCache F
      → Keys F
      → Claim × (IdempotencyCache F × Keys F)
  check_idempotency f now at name key s t =
      let (verdict, t') = idempotency_claim f at (name, key) t in
      let noted = note_verdict now key verdict s in
      let swept = record noted {
        seen_idem_keys = drop_old (sub now cache_ttl) noted.seen_idem_keys;
      } in
      if is_cached now (find key s.seen_idem_keys) then (replay, (s, t)) else (verdict, (swept, t'))

  -- NoteIdempotencyDone
  unfoldable pub note_idempotency_done : F → String → IdempotencyCache F → IdempotencyCache F
  note_idempotency_done wall key s = record s { seen_idem_keys = put key wall s.seen_idem_keys }

  -- A key that a send has finished is answered from memory for 300 seconds, whatever the table
  -- holds or lets through: it is a replay, and neither the map nor the table changes.
  pub check_idempotency-note_idempotency_done :
      (f : ClaimFaults) (wall now at : F) (name key : String) (s : IdempotencyCache F) (t : Keys F)
      → ltf (sub now wall) cache_ttl ≡ true
      → let s' = note_idempotency_done wall key s in
        check_idempotency f now at name key s' t ≡ (replay, (s', t))
  unfolding check_idempotency note_idempotency_done
  check_idempotency-note_idempotency_done f wall now at name key s t h =
      rw (find-put_self key wall s.seen_idem_keys, h) refl

  find-drop_old :
      (cutoff at : F) (key : String) (m : List (String × F))
      → find key m ≡ some at
      → leb cutoff at ≡ true
      → find key (drop_old cutoff m) ≡ some at
  unfolding drop_old find
  find-drop_old cutoff at key [] e h = ground arith
  find-drop_old cutoff at key ((k, a) ∷ m) e h = ground (arith, find-drop_old cutoff at key m)

  ttl_back : (now : F) → leb (sub now cache_ttl) now ≡ true
  ttl_back now =
      sub_le now cache_ttl
        (leb_trans zero (of_int (pos 1)) cache_ttl zero_le_one (of_int_le (pos 1) (pos 300) refl))

  -- A replay that the table answered is remembered for 300 seconds as if the send had been made:
  -- until then the key is a replay again, whatever has become of the table meanwhile, also if the
  -- send that held the key has failed and given it back there.
  pub check_idempotency-check_idempotency :
      (f g : ClaimFaults) (now at later at' : F) (name key : String) (s : IdempotencyCache F)
      (t t' : Keys F)
      → is_cached now (find key s.seen_idem_keys) ≡ false
      → (idempotency_claim f at (name, key) t).0 ≡ replay
      → ltf (sub later now) cache_ttl ≡ true
      → (check_idempotency g later at' name key (check_idempotency f now at name key s t).1.0 t').0
        ≡ replay
  unfolding check_idempotency note_verdict
  check_idempotency-check_idempotency f g now at later at' name key s t t' c v h =
      let m = put key now s.seen_idem_keys in
      rw
        (
          c,
          v,
          find-drop_old (sub now cache_ttl) now key m (find-put_self key now s.seen_idem_keys)
              (ttl_back now),
          h,
        )
        refl
