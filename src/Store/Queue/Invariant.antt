-- ===== src/Store/Queue/Invariant.antt =====
-- The invariant of the queue of queue.go: bounded, no update twice, and `seen` mirrors the items.
use tg_session_gateway.Prelude.{
  ℤ, pos, leb_ℤ, ltb_ℤ, ◌≤ℤ◌, suc, ◌+◌, ◌≡◌, refl, sym, subst, ◌∙◌, Bool, true, false, not, ◌&&◌,
  ◌||◌, Option, some, List, [], ◌∷◌, ◌++◌, String, put, remove, find-put, find-remove, int_has_eq,
  string_has_eq, eq_ℤ_iff, ◌=?◌, length, length-append, arith, Bool-cases, Option-cases, inl, inr,
}
use tg_session_gateway.Float64.{Float64, ltf}
use tg_session_gateway.Store.Queue.{
  Queue, QueuedUpdate, Update, Batch, Outcome, and_then, more, overflow, panic, is_seen, drop_front,
  prune_items, prune_expired, id_of, accept, make_room, push_one, push_each, push_all, ack_items,
  ack,
}

is_seen-put : (j k : ℤ) (m : List (ℤ × Bool)) → is_seen k (put j true m) ≡ ((j =? k) || is_seen k m)
is_seen-put j k m = ground (arith, find-put j k true m)

is_seen-remove :
    (j k : ℤ) (m : List (ℤ × Bool)) → is_seen k (remove j m) ≡ (not (j =? k) && is_seen k m)
is_seen-remove j k m = ground (arith, find-remove j k m)

module _ {F : Type 0} where
  abbrev pub has_id : ℤ → List (QueuedUpdate F) → Bool
  has_id k [] = false
  has_id k (x ∷ xs) = (x.update_id =? k) || has_id k xs

  abbrev pub Distinct : List (QueuedUpdate F) → Type 0
  Distinct [] = Unit {0}
  Distinct (x ∷ xs) = (has_id x.update_id xs ≡ false) × Distinct xs

  has_id-append :
      (k : ℤ) (xs ys : List (QueuedUpdate F)) → has_id k (xs ++ ys) ≡ (has_id k xs || has_id k ys)
  has_id-append k [] ys = refl
  has_id-append k (x ∷ xs) ys = ground (arith, has_id-append k xs ys)

  Distinct-snoc :
      (xs : List (QueuedUpdate F)) (x : QueuedUpdate F)
      → has_id x.update_id xs ≡ false
      → Distinct xs
      → Distinct (xs ++ x ∷ [])
  Distinct-snoc [] x h d = (refl, tt)
  Distinct-snoc (y ∷ xs) x h d = (
    ground (
      arith,
      has_id-append y.update_id xs (x ∷ []),
      eq_ℤ_iff y.update_id x.update_id,
      eq_ℤ_iff x.update_id y.update_id,
    ),
    Distinct-snoc xs x (ground arith) d.1,
  )

  -- `seen` holds the ids of the items.
  abbrev pub Mirrors : List (ℤ × Bool) → List (QueuedUpdate F) → Type 0
  Mirrors seen items = (k : ℤ) → is_seen k seen ≡ has_id k items

  pub record Fits (maxsize : ℤ) (items : List (QueuedUpdate F)) (seen : List (ℤ × Bool))
      : Type 0 where
    pub bounded : pos (length items) ≤ℤ maxsize
    pub distinct : Distinct items
    pub mirrored : Mirrors seen items

  abbrev pub IsValid : Queue F → Type 0
  IsValid q = Fits q.maxsize q.items q.seen

  Mirrors-remove :
      (x : QueuedUpdate F) (xs : List (QueuedUpdate F)) (seen : List (ℤ × Bool))
      → Distinct (x ∷ xs)
      → Mirrors seen (x ∷ xs)
      → Mirrors (remove x.update_id seen) xs
  Mirrors-remove x xs seen d m k =
      ground (arith, is_seen-remove x.update_id k seen, m k, eq_ℤ_iff x.update_id k, d.0)

  Mirrors-put :
      (x : QueuedUpdate F) (xs : List (QueuedUpdate F)) (seen : List (ℤ × Bool))
      → Mirrors seen xs
      → Mirrors (put x.update_id true seen) (xs ++ x ∷ [])
  Mirrors-put x xs seen m k =
      ground (arith, is_seen-put x.update_id k seen, m k, has_id-append k xs (x ∷ []))

  Fits-drop :
      (n : ℤ) (x : QueuedUpdate F) (xs : List (QueuedUpdate F)) (seen : List (ℤ × Bool))
      → Fits n (x ∷ xs) seen
      → Fits n xs (remove x.update_id seen)
  Fits-drop n x xs seen v = record {
    bounded = omega (arith, v.bounded);
    distinct = v.distinct.1;
    mirrored = Mirrors-remove x xs seen v.distinct v.mirrored;
  }

  Fits-append :
      (n : ℤ) (x : QueuedUpdate F) (xs : List (QueuedUpdate F)) (seen : List (ℤ × Bool))
      → leb_ℤ n (pos (length xs)) ≡ false
      → is_seen x.update_id seen ≡ false
      → Fits n xs seen
      → Fits n (xs ++ x ∷ []) (put x.update_id true seen)
  Fits-append n x xs seen room fresh v = record {
    bounded = ground (arith, length-append xs (x ∷ []));
    distinct = Distinct-snoc xs x (sym (v.mirrored x.update_id) ∙ fresh) v.distinct;
    mirrored = Mirrors-put x xs seen v.mirrored;
  }

module _ ⦃N : Float64⦄ where
  open N use {F, leb, zero, sub}

  prune_items-IsValid :
      (cutoff : F) (xs : List (QueuedUpdate F)) (q : Queue F)
      → q.items ≡ xs
      → IsValid q
      → IsValid (prune_items cutoff xs q) × ((prune_items cutoff xs q).maxsize ≡ q.maxsize)
  unfolding prune_items
  prune_items-IsValid cutoff [] q e v = (v, refl)
  prune_items-IsValid cutoff (x ∷ xs) q e v = elim (Bool-cases (ltf cutoff x.enqueued)) [
    | inl young ↦ rw young (v, refl)
    | inr old ↦ rw old (
        prune_items-IsValid cutoff xs
          (record q { items = xs; seen = remove x.update_id q.seen; expired = q.expired + 1 }) refl
          (Fits-drop q.maxsize x xs q.seen (rw e at v)))
  ]

  pub prune_expired-IsValid :
      (now : F) (q : Queue F)
      → IsValid q
      → IsValid (prune_expired now q) × ((prune_expired now q).maxsize ≡ q.maxsize)
  unfolding prune_expired
  prune_expired-IsValid now q v = elim (Bool-cases (leb q.ttl zero)) [
    | inl e ↦ rw e (v, refl)
    | inr e ↦ rw e (prune_items-IsValid (sub now q.ttl) q.items q refl v)
  ]

  -- A push that succeeds or overflows leaves a valid queue of the same size; none panics.
  abbrev pub OutcomeFits : ℤ → Outcome F → Type 0
  OutcomeFits n (more b) = IsValid b.queue × (b.queue.maxsize ≡ n)
  OutcomeFits n (overflow b) = IsValid b.queue × (b.queue.maxsize ≡ n)
  OutcomeFits n panic = ⊥

  module _ (marshal : Update → Option String) where
    accept-Fits :
        (x : QueuedUpdate F) (rows : List (ℤ × String)) (q : Queue F)
        → leb_ℤ q.maxsize (pos (length q.items)) ≡ false
        → is_seen x.update_id q.seen ≡ false
        → IsValid q
        → OutcomeFits q.maxsize (accept marshal x rows q)
    unfolding accept
    accept-Fits x rows q room fresh v =
        let w = Fits-append q.maxsize x q.items q.seen room fresh v in
        elim (Option-cases (marshal x.update)) [
          | inl e ↦ rw (e, accept) (w, refl)
          | inr (json, e) ↦ rw (e, accept) (w, refl)
        ]

    make_room-Fits :
        (x : QueuedUpdate F) (rows : List (ℤ × String)) (q : Queue F)
        (items : List (QueuedUpdate F))
        → q.items ≡ items
        → pos 1 ≤ℤ q.maxsize
        → leb_ℤ q.maxsize (pos (length q.items)) ≡ true
        → is_seen x.update_id q.seen ≡ false
        → IsValid q
        → OutcomeFits q.maxsize (make_room marshal x rows q items)
    unfolding make_room
    make_room-Fits x rows q [] e some' full fresh v = absurd (ground arith)
    make_room-Fits x rows q (old ∷ rest) e some' full fresh v =
        let v' = rw e at v in
        let w = Fits-drop q.maxsize old rest q.seen v' in
        let bound : pos (suc (length rest)) ≤ℤ q.maxsize = v'.bounded in
        elim (Bool-cases (q.overflow =? "reject_new")) [
          | inl reject ↦ rw reject (v, refl)
          | inr drop' ↦ rw drop' (
              accept-Fits x rows
                (record q {
                  items = rest;
                  seen = remove old.update_id q.seen;
                  dropped = q.dropped + 1;
                })
                (ground arith) (ground (arith, is_seen-remove old.update_id x.update_id q.seen)) w)
        ]

    push_one-Fits :
        (u : Update) (now : F) (b : Batch F)
        → pos 1 ≤ℤ b.queue.maxsize
        → IsValid b.queue
        → OutcomeFits b.queue.maxsize (push_one marshal u now b)
    unfolding push_one
    push_one-Fits u now b some' v =
        let q = b.queue in
        let uid = id_of u q in
        let x : QueuedUpdate F = record {
          update_id = uid;
          update = record u { update_id = some uid };
          enqueued = now;
        } in
        elim (Bool-cases (is_seen uid q.seen)) [
          | inl known ↦ rw known (v, refl)
          | inr fresh ↦ elim (Bool-cases (leb_ℤ q.maxsize (pos (length q.items)))) [
            | inl full ↦
                rw (fresh, full) (make_room-Fits x b.rows q q.items refl some' full fresh v)
            | inr room ↦ rw (fresh, room) (accept-Fits x b.rows q room fresh v)
          ]
        ]

    and_then-Fits :
        (n : ℤ) (o : Outcome F) (k : Batch F → Outcome F)
        → OutcomeFits n o
        → ((b : Batch F) → IsValid b.queue → b.queue.maxsize ≡ n → OutcomeFits n (k b))
        → OutcomeFits n (and_then o k)
    and_then-Fits n (more b) k h next = next b h.0 h.1
    and_then-Fits n (overflow b) k h next = h
    and_then-Fits n panic k h next = h

    push_each-Fits :
        (n : ℤ) (us : List (Update × F)) (b : Batch F)
        → pos 1 ≤ℤ n
        → b.queue.maxsize ≡ n
        → IsValid b.queue
        → OutcomeFits n (push_each marshal us b)
    unfolding push_each
    push_each-Fits n [] b some' e v = (v, e)
    push_each-Fits n ((u, now) ∷ us) b some' e v =
        and_then-Fits n (push_one marshal u now b) (push_each marshal us)
          (subst (λ m. OutcomeFits m (push_one marshal u now b)) e
            (push_one-Fits u now b (subst (λ m. pos 1 ≤ℤ m) (sym e) some') v))
          (λ b' v' e'. push_each-Fits n us b' some' e' v')

    -- PushAll keeps the queue within its size, without duplicates and mirrored by `seen`, also when
    -- it ends in an overflow, and it never removes from an empty list, if there is room for one
    -- update at least.
    pub push_all-IsValid :
        (now : F) (us : List (Update × F)) (q : Queue F)
        → pos 1 ≤ℤ q.maxsize
        → IsValid q
        → OutcomeFits q.maxsize (push_all marshal now us q)
    unfolding push_all
    push_all-IsValid now us q some' v =
        let (v', e) = prune_expired-IsValid now q v in push_each-Fits q.maxsize us _ some' e v'

  ack_items-IsValid :
      (xs : List (QueuedUpdate F)) (q : Queue F)
      → q.items ≡ xs
      → IsValid q
      → IsValid (ack_items xs q)
  unfolding ack_items
  ack_items-IsValid [] q e v = v
  ack_items-IsValid (x ∷ xs) q e v = elim (Bool-cases (ltb_ℤ q.consumer_offset x.update_id)) [
    | inl above ↦ rw above v
    | inr acked ↦ rw acked (
        ack_items-IsValid xs (drop_front x xs q) refl (Fits-drop q.maxsize x xs q.seen (rw e at v)))
  ]

  -- Ack keeps the invariant.
  pub ack-IsValid : (last_seen : ℤ) (q : Queue F) → IsValid q → IsValid (ack last_seen q)
  unfolding ack
  ack-IsValid last_seen q v = elim (Bool-cases (ltb_ℤ q.consumer_offset last_seen)) [
    | inl on ↦ rw on (ack_items-IsValid q.items (record q { consumer_offset = last_seen }) refl v)
    | inr back ↦ rw back (ack_items-IsValid q.items q refl v)
  ]

  ack_items_maxsize :
      (xs : List (QueuedUpdate F)) (q : Queue F) → (ack_items xs q).maxsize ≡ q.maxsize
  unfolding ack_items
  ack_items_maxsize [] q = refl
  ack_items_maxsize (x ∷ xs) q = ground (arith, ack_items_maxsize xs (drop_front x xs q))

  pub ack_maxsize : (last_seen : ℤ) (q : Queue F) → (ack last_seen q).maxsize ≡ q.maxsize
  unfolding ack
  ack_maxsize last_seen q = ground (
    arith,
    ack_items_maxsize q.items (record q { consumer_offset = last_seen }),
    ack_items_maxsize q.items q,
  )
