-- ===== src/Store/Idempotency/Window.antt =====
-- Runs of the operations of the idempotency table in internal/store/gateway.go and
-- internal/store/mt.go, in any order and on any keys, and what leaves the row of a key alone.
use tg_session_gateway.Prelude.{
  ◌≡◌, refl, ◌∙◌, Bool, true, false, Option, none, some, List, [], ◌∷◌, String, find, find-put,
  find-remove, pair_has_eq, ◌=?◌, if◌then◌else◌, arith,
}
use tg_session_gateway.Float64.{Float64}
use tg_session_gateway.Store.Idempotency.{
  pending, done, KeyRow, Keys, ClaimFaults, idempotency_ttl, stale_pending_s, delete_expired_key,
  reclaim, claim_row, idempotency_claim, finish_row, idempotency_finish, fail_row, idempotency_fail,
  delete_seen_before, idempotency_cleanup,
}

-- An operation of the table, with the clock reading that it makes.
pub data KeyOp (F : Type 0) : Type 0 where
  claim : ClaimFaults → F → String × String → KeyOp F
  finish : Bool → F → String × String → KeyOp F
  fail : Bool → F → String × String → KeyOp F
  cleanup : Bool → F → KeyOp F

module _ ⦃N : Float64⦄ where
  open N use {F, leb, sub, of_int, leb_refl, leb_trans, leb_total}

  unfoldable pub key_step : KeyOp F → Keys F → Keys F
  key_step (claim f at k) t = (idempotency_claim f at k t).1
  key_step (finish ok at k) t = idempotency_finish ok at k t
  key_step (fail ok at k) t = idempotency_fail ok k t
  key_step (cleanup ok at) t = idempotency_cleanup ok at t

  unfoldable pub key_run : List (KeyOp F) → Keys F → Keys F
  key_run [] t = t
  key_run (op ∷ ops) t = key_run ops (key_step op t)

  abbrev pub at_time : KeyOp F → F
  at_time (claim f at k) = at
  at_time (finish ok at k) = at
  at_time (fail ok at k) = at
  at_time (cleanup ok at) = at

  -- The operation gives the key up.
  abbrev pub gives_up : String × String → KeyOp F → Bool
  gives_up k (fail ok at j) = j =? k
  gives_up k op = false

  -- From `start` until the TTL is over, and until a pending claim counts as dead.
  abbrev pub WithinTtl : F → F → Type 0
  WithinTtl start at = (leb start at ≡ true) × (leb (sub at idempotency_ttl) start ≡ true)

  abbrev pub WithinMinute : F → F → Type 0
  WithinMinute start at = WithinTtl start at × (leb (sub at stale_pending_s) start ≡ true)

  -- A row that was seen at `start` or later.
  abbrev pub Seen : F → Option (KeyRow F) → Type 0
  Seen start none = ⊥
  Seen start (some r) = leb start r.seen_at ≡ true

  abbrev pub SeenDone : F → Option (KeyRow F) → Type 0
  SeenDone start none = ⊥
  SeenDone start (some r) = (leb start r.seen_at ≡ true) × (r.state ≡ done)

  -- Operations on another key leave the row of this one.
  find-delete_expired_key :
      (cutoff : F) (j k : String × String) (t : Keys F)
      → (j =? k) ≡ false
      → find k (delete_expired_key cutoff j t) ≡ find k t
  unfolding delete_expired_key
  find-delete_expired_key cutoff j k t h = ground (arith, find-remove j k t)

  find-claim_row :
      (f : ClaimFaults) (now : F) (j k : String × String) (row : Option (KeyRow F)) (t : Keys F)
      → (j =? k) ≡ false
      → find k (claim_row f now j row t).1 ≡ find k t
  unfolding claim_row reclaim
  find-claim_row f now j k none t h =
      ground (arith, find-put j k (record { state = pending; seen_at = now }) t)
  find-claim_row f now j k (some r) t h =
      ground (arith, find-put j k (record { state = pending; seen_at = now }) t)

  pub find-claim :
      (f : ClaimFaults) (now : F) (j k : String × String) (t : Keys F)
      → (j =? k) ≡ false
      → find k (idempotency_claim f now j t).1 ≡ find k t
  unfolding idempotency_claim
  find-claim f now j k t h =
      let t' = if f.delete_ok then delete_expired_key (sub now idempotency_ttl) j t else t in
      find-claim_row f now j k (find j t') t' h
      ∙ ground (arith, find-delete_expired_key (sub now idempotency_ttl) j k t h)

  pub find-finish_row :
      (now : F) (j k : String × String) (row : Option (KeyRow F)) (t : Keys F)
      → (j =? k) ≡ false
      → find k (finish_row now j row t) ≡ find k t
  unfolding finish_row
  find-finish_row now j k none t h = refl
  find-finish_row now j k (some r) t h =
      ground (arith, find-put j k (record { state = done; seen_at = now }) t)

  pub find-fail_row :
      (j k : String × String) (row : Option (KeyRow F)) (t : Keys F)
      → (j =? k) ≡ false
      → find k (fail_row j row t) ≡ find k t
  unfolding fail_row
  find-fail_row j k none t h = refl
  find-fail_row j k (some r) t h = ground (arith, find-remove j k t)

  pub find-delete_seen_before :
      (cutoff : F) (k : String × String) (r : KeyRow F) (t : Keys F)
      → find k t ≡ some r
      → leb cutoff r.seen_at ≡ true
      → find k (delete_seen_before cutoff t) ≡ some r
  unfolding delete_seen_before find
  find-delete_seen_before cutoff k r [] e h = ground arith
  find-delete_seen_before cutoff k r ((j, s) ∷ t) e h =
      ground (arith, find-delete_seen_before cutoff k r t)
