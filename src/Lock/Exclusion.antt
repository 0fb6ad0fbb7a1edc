-- ===== src/Lock/Exclusion.antt =====
-- Who holds the lock of internal/lock/lock.go through any acquisitions and releases.
use tg_session_gateway.Prelude.{
  ℕ, ◌+◌, ◌≡◌, sym, ap, subst, Bool, true, false, Bool-cases, inl, inr, ◌&&◌, Option, none, some,
  List, [], ◌∷◌, find, put, find-put, nat_has_eq, ◌==◌, ==_iff, if◌then◌else◌, if_both, arith,
}
use tg_session_gateway.Float64.{Float64}
use tg_session_gateway.RateGuard.Method.{Text}
use tg_session_gateway.Lock.{
  Lock, Attempt, LockFile, or_no_lock, lock_of, release, python_holder_fresh, acquire,
}

pub data Op : Type 0 where
  acquiring : ℕ → Attempt → Op
  releasing : ℕ → Op

-- Whoever holds the lock has the flock.
abbrev pub Exclusive : LockFile → Type 0
Exclusive f = (i : ℕ) → (lock_of i f).held ≡ true → f.owner ≡ some i

-- What flock promises: it is granted only if nobody has it.
abbrev pub Grants : LockFile → Op → Type 0
Grants f (acquiring i a) = a.flocked ≡ true → f.owner ≡ none
Grants f (releasing i) = Unit

none_held : (i : ℕ) (f : LockFile) → f.owner ≡ none → Exclusive f → (lock_of i f).held ≡ false
none_held i f o e = elim (Bool-cases (lock_of i f).held) [
  | inl h ↦ absurd (ground (arith, o, e i h))
  | inr h ↦ h
]

lock_of-put :
    (i j : ℕ) (l : Lock) (f : LockFile)
    → or_no_lock (find j (put i l f.locks)) ≡ (if i == j then l else lock_of j f)
lock_of-put i j l f = ground (arith, find-put i j l f.locks)

same_owner : (i j : ℕ) (o : Option ℕ) → o ≡ some i → o ≡ some j → (i == j) ≡ true
same_owner i j o h k = ground (arith, h, k)

released-Exclusive :
    (i : ℕ) (f : LockFile)
    → (lock_of i f).held ≡ true
    → Exclusive f
    → Exclusive
        (record f { locks = put i (record (lock_of i f) { held = false }) f.locks; owner = none })
released-Exclusive i f h e j k = elim (Bool-cases (i == j)) [
  | inl same ↦
      absurd (
        ground (arith, (rw (lock_of-put i j (record (lock_of i f) { held = false }) f, same) at k)))
  | inr other ↦
      let l : (lock_of j f).held ≡ true =
        rw (lock_of-put i j (record (lock_of i f) { held = false }) f, other) at k in
      absurd (ground (arith, other, same_owner i j f.owner (e i h) (e j l)))
]

release-Exclusive : (i : ℕ) (f : LockFile) → Exclusive f → Exclusive (release i f)
unfolding release
release-Exclusive i f e = elim (Bool-cases (lock_of i f).held) [
  | inl h ↦
      subst
        (λ b. Exclusive (
          if b
          then record f {
            locks = put i (record (lock_of i f) { held = false }) f.locks;
            owner = none;
          }
          else f))
        (sym h) (released-Exclusive i f h e)
  | inr h ↦
      subst
        (λ b. Exclusive (
          if b
          then record f {
            locks = put i (record (lock_of i f) { held = false }) f.locks;
            owner = none;
          }
          else f))
        (sym h) e
]

taken-Exclusive :
    (i n : ℕ) (content : Text) (f : LockFile)
    → f.owner ≡ none
    → Exclusive f
    → Exclusive (record {
      locks = put i (record { held = true; token = n }) f.locks;
      owner = some i;
      content = content;
      token_counter = n;
    })
taken-Exclusive i n content f o e j k = elim (Bool-cases (i == j)) [
  | inl same ↦ ap some ((==_iff i j).0 same)
  | inr other ↦
      let l : (lock_of j f).held ≡ true =
        rw (lock_of-put i j (record { held = true; token = n }) f, other) at k in
      absurd (ground (arith, l, none_held j f o e))
]

freed-Exclusive :
    (f : LockFile) → f.owner ≡ none → Exclusive f → Exclusive (record f { owner = none })
freed-Exclusive f o e j k = absurd (ground (arith, k, none_held j f o e))

module _ ⦃N : Float64⦄ where
  open N use {F}

  module _ (read_time : Text → Option F) (since : F → F) where
    abbrev pub step : Op → LockFile → LockFile
    step (acquiring i a) f = (acquire read_time since i a f).0
    step (releasing i) f = release i f

    unfoldable pub run : List Op → LockFile → LockFile
    run [] f = f
    run (o ∷ os) f = run os (step o f)

    -- Every grant of a run is one that flock may make.
    abbrev pub AllGrant : List Op → LockFile → Type 0
    AllGrant [] f = Unit
    AllGrant (o ∷ os) f = Grants f o × AllGrant os (step o f)

    acquire-Exclusive :
        (i : ℕ) (a : Attempt) (f : LockFile)
        → (a.flocked ≡ true → f.owner ≡ none)
        → Exclusive f
        → Exclusive (acquire read_time since i a f).0
    unfolding acquire
    acquire-Exclusive i a f g e = elim (Bool-cases (a.opened && a.flocked)) [
      | inl h ↦
          let o = g (ground (arith, h)) in
          rw h (
            if_both (λ (r : LockFile × Bool). Exclusive r.0)
              (python_holder_fresh read_time since a.content) _ _ (freed-Exclusive f o e)
              (taken-Exclusive i (f.token_counter + 1) a.written f o e))
      | inr h ↦ rw h e
    ]

    run-Exclusive :
        (os : List Op) (f : LockFile) → AllGrant os f → Exclusive f → Exclusive (run os f)
    unfolding run
    run-Exclusive [] f g e = e
    run-Exclusive (acquiring i a ∷ os) f g e =
        run-Exclusive os _ g.1 (acquire-Exclusive i a f g.0 e)
    run-Exclusive (releasing i ∷ os) f g e = run-Exclusive os _ g.1 (release-Exclusive i f e)

    -- Through any acquisitions and releases by any number of holders, in any order, while one of
    -- them holds the lock no other does, if flock is granted only when nobody has it.
    pub run-held :
        (os : List Op) (f : LockFile) (i j : ℕ)
        → AllGrant os f
        → Exclusive f
        → (i == j) ≡ false
        → (lock_of i (run os f)).held ≡ true
        → (lock_of j (run os f)).held ≡ false
    run-held os f i j g e n h =
        let x = run-Exclusive os f g e in
        elim (Bool-cases (lock_of j (run os f)).held) [
          | inl k ↦ absurd (ground (arith, n, same_owner i j (run os f).owner (x i h) (x j k)))
          | inr k ↦ k
        ]
