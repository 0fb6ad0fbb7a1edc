-- ===== src/Store/Idempotency/Steps.antt =====
-- What one operation of the idempotency table in internal/store/gateway.go and internal/store/mt.go
-- leaves of a key that is held or finished.
use tg_session_gateway.Prelude.{
  ◌≡◌, refl, sym, ◌∙◌, true, false, Option, none, some, String, find, find-put_self, pair_has_eq,
  pair_eq_iff, ◌=?◌, if◌then◌else◌, arith, Bool-cases, inl, inr, subst,
}
use tg_session_gateway.Float64.{Float64}
use tg_session_gateway.Store.Idempotency.{
  done, KeyRow, Keys, replay, ClaimFaults, idempotency_ttl, stale_pending_s, idempotency_claim,
  finish_row, idempotency_finish, fail_row, idempotency_fail, delete_seen_before,
  idempotency_cleanup,
}
use tg_session_gateway.Store.Idempotency.Laws.{fresh_row, answer, row_after, idempotency_claim_lem}
use tg_session_gateway.Store.Idempotency.Window.{
  KeyOp, claim, finish, fail, cleanup, key_step, at_time, gives_up, WithinTtl, WithinMinute, Seen,
  SeenDone, find-claim, find-finish_row, find-fail_row, find-delete_seen_before,
}

module _ ⦃N : Float64⦄ where
  open N use {F, leb, sub, of_int, leb_refl, leb_trans, leb_total}

  Seen-claim :
      (start at : F) (f : ClaimFaults) (row : Option (KeyRow F))
      → Seen start row
      → WithinMinute start at
      → (answer f at (fresh_row f.delete_ok at row) ≡ replay)
        × (row_after at (answer f at (fresh_row f.delete_ok at row)) (fresh_row f.delete_ok at row)
            ≡ row)
  Seen-claim start at f none s w = ground arith
  Seen-claim start at f (some r) s w = ground (
    arith,
    leb_trans (sub at idempotency_ttl) start r.seen_at,
    leb_trans (sub at stale_pending_s) start r.seen_at,
  )

  SeenDone-claim :
      (start at : F) (f : ClaimFaults) (row : Option (KeyRow F))
      → SeenDone start row
      → WithinTtl start at
      → (answer f at (fresh_row f.delete_ok at row) ≡ replay)
        × (row_after at (answer f at (fresh_row f.delete_ok at row)) (fresh_row f.delete_ok at row)
            ≡ row)
  SeenDone-claim start at f none s w = ground arith
  SeenDone-claim start at f (some r) s w =
      ground (arith, leb_trans (sub at idempotency_ttl) start r.seen_at)

  pub replay-WithinMinute :
      (start at : F) (f : ClaimFaults) (k : String × String) (t : Keys F)
      → Seen start (find k t)
      → WithinMinute start at
      → ((idempotency_claim f at k t).0 ≡ replay)
        × (find k (idempotency_claim f at k t).1 ≡ find k t)
  replay-WithinMinute start at f k t s w =
      let (a, b) = idempotency_claim_lem f at k t in
      let (c, d) = Seen-claim start at f (find k t) s w in (a ∙ c, b ∙ d)

  pub replay-WithinTtl :
      (start at : F) (f : ClaimFaults) (k : String × String) (t : Keys F)
      → SeenDone start (find k t)
      → WithinTtl start at
      → ((idempotency_claim f at k t).0 ≡ replay)
        × (find k (idempotency_claim f at k t).1 ≡ find k t)
  replay-WithinTtl start at f k t s w =
      let (a, b) = idempotency_claim_lem f at k t in
      let (c, d) = SeenDone-claim start at f (find k t) s w in (a ∙ c, b ∙ d)

  Seen-finish_row :
      (start at : F) (k : String × String) (row : Option (KeyRow F)) (t : Keys F)
      → find k t ≡ row
      → Seen start row
      → leb start at ≡ true
      → SeenDone start (find k (finish_row at k row t))
  unfolding finish_row
  Seen-finish_row start at k none t e s w = ground arith
  Seen-finish_row start at k (some r) t e s w =
      rw (find-put_self k (record { state = done; seen_at = at }) t) (w, refl)

  pub Seen-of_SeenDone : (start : F) (row : Option (KeyRow F)) → SeenDone start row → Seen start row
  Seen-of_SeenDone start none s = s
  Seen-of_SeenDone start (some r) s = s.0

  Seen-cleanup :
      (start at : F) (k : String × String) (row : Option (KeyRow F)) (t : Keys F)
      → find k t ≡ row
      → Seen start row
      → leb (sub at idempotency_ttl) start ≡ true
      → find k (delete_seen_before (sub at idempotency_ttl) t) ≡ row
  Seen-cleanup start at k none t e s w = ground arith
  Seen-cleanup start at k (some r) t e s w =
      find-delete_seen_before (sub at idempotency_ttl) k r t e
        (leb_trans (sub at idempotency_ttl) start r.seen_at w s)

  -- A finished key stays finished, whatever the operation.
  SeenDone-fail_row :
      (start : F) (k : String × String) (row : Option (KeyRow F)) (t : Keys F)
      → find k t ≡ row
      → SeenDone start row
      → find k (fail_row k row t) ≡ row
  unfolding fail_row
  SeenDone-fail_row start k none t e s = ground arith
  SeenDone-fail_row start k (some r) t e s = ground arith

  pub Seen-step :
      (start : F) (k : String × String) (op : KeyOp F) (t : Keys F)
      → Seen start (find k t)
      → WithinMinute start (at_time op)
      → gives_up k op ≡ false
      → Seen start (find k (key_step op t))
  unfolding key_step idempotency_finish idempotency_fail idempotency_cleanup
  Seen-step start k (claim f at j) t s w g = elim (Bool-cases (j =? k)) [
    | inl e ↦
        let same = (pair_eq_iff j k).0 e in
        subst (λ i. Seen start (find k (idempotency_claim f at i t).1)) (sym same)
          (subst (Seen start) (sym (replay-WithinMinute start at f k t s w).1) s)
    | inr e ↦ subst (Seen start) (sym (find-claim f at j k t e)) s
  ]
  Seen-step start k (finish ok at j) t s w g = elim (Bool-cases (j =? k)) [
    | inl e ↦
        let same = (pair_eq_iff j k).0 e in
        subst (λ i. Seen start (find k (if ok then finish_row at i (find i t) t else t))) (sym same)
          (elim (Bool-cases ok) [
            | inl y ↦
                rw y
                  (Seen-of_SeenDone start _ (Seen-finish_row start at k (find k t) t refl s w.0.0))
            | inr n ↦ rw n s
          ])
    | inr e ↦ elim (Bool-cases ok) [
      | inl y ↦ rw (y, find-finish_row at j k (find j t) t e) s
      | inr n ↦ rw n s
    ]
  ]
  Seen-step start k (fail ok at j) t s w g = elim (Bool-cases ok) [
    | inl y ↦ rw (y, find-fail_row j k (find j t) t g) s
    | inr n ↦ rw n s
  ]
  Seen-step start k (cleanup ok at) t s w g = elim (Bool-cases ok) [
    | inl y ↦ rw (y, Seen-cleanup start at k (find k t) t refl s w.0.1) s
    | inr n ↦ rw n s
  ]

  pub SeenDone-step :
      (start : F) (k : String × String) (op : KeyOp F) (t : Keys F)
      → SeenDone start (find k t)
      → WithinTtl start (at_time op)
      → SeenDone start (find k (key_step op t))
  unfolding key_step idempotency_finish idempotency_fail idempotency_cleanup
  SeenDone-step start k (claim f at j) t s w = elim (Bool-cases (j =? k)) [
    | inl e ↦
        subst (λ i. SeenDone start (find k (idempotency_claim f at i t).1))
          (sym ((pair_eq_iff j k).0 e))
          (subst (SeenDone start) (sym (replay-WithinTtl start at f k t s w).1) s)
    | inr e ↦ subst (SeenDone start) (sym (find-claim f at j k t e)) s
  ]
  SeenDone-step start k (finish ok at j) t s w = elim (Bool-cases ok) [
    | inr n ↦ rw n s
    | inl y ↦ elim (Bool-cases (j =? k)) [
      | inl e ↦
          let seen = Seen-of_SeenDone start (find k t) s in
          rw y (
            subst (λ i. SeenDone start (find k (finish_row at i (find i t) t)))
              (sym ((pair_eq_iff j k).0 e)) (Seen-finish_row start at k (find k t) t refl seen w.0))
      | inr e ↦ rw (y, find-finish_row at j k (find j t) t e) s
    ]
  ]
  SeenDone-step start k (fail ok at j) t s w = elim (Bool-cases ok) [
    | inr n ↦ rw n s
    | inl y ↦ elim (Bool-cases (j =? k)) [
      | inl e ↦ rw y (
          subst (λ i. SeenDone start (find k (fail_row i (find i t) t)))
            (sym ((pair_eq_iff j k).0 e))
            (subst (SeenDone start) (sym (SeenDone-fail_row start k (find k t) t refl s)) s))
      | inr e ↦ rw (y, find-fail_row j k (find j t) t e) s
    ]
  ]
  SeenDone-step start k (cleanup ok at) t s w = elim (Bool-cases ok) [
    | inl y ↦ rw (y, Seen-cleanup start at k (find k t) t refl (Seen-of_SeenDone start _ s) (w.1)) s
    | inr n ↦ rw n s
  ]
