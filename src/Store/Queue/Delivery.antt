-- ===== src/Store/Queue/Delivery.antt =====
-- What a consumer of queue.go gets: Ack and Pull.
use tg_session_gateway.Prelude.{
  Every, none, ℤ, pos, negsuc, ◌-ℤ◌, -ℤ_parts, ltb_ℤ, ◌≤ℤ◌, ◌<ℤ◌, ℕ, zero, suc, ◌≡◌, refl, ◌∙◌, ap,
  subst, Option, none, some, List, [], ◌∷◌, if◌then◌else◌, length, take, keep, All, length-take-le,
  ◌≤◌, ◌<◌, arith, Bool-cases, inl, inr, ◌⊎◌, ◌≢◌,
}
use tg_session_gateway.Float64.{Float64}
use tg_session_gateway.Store.Queue.{
  Queue, QueuedUpdate, Wake, pushed, timer, done, wrap64, offer, drop_front, ack_items, ack,
  pending, pull_limit, visible, pull_wait, pull,
}

module _ ⦃N : Float64⦄ where
  open N use {F}

  -- The items with an id above a bound.
  abbrev pub above : ℤ → List (QueuedUpdate F) → List (QueuedUpdate F)
  above k = keep (λ x. ltb_ℤ k x.update_id)

  ack_items-pending :
      (xs : List (QueuedUpdate F)) (q : Queue F)
      → q.items ≡ xs
      → (pending (ack_items xs q) ≡ above q.consumer_offset xs)
        × ((ack_items xs q).consumer_offset ≡ q.consumer_offset)
  unfolding ack_items
  ack_items-pending [] q e = (rw e, refl)
  ack_items-pending (x ∷ xs) q e = elim (Bool-cases (ltb_ℤ q.consumer_offset x.update_id)) [
    | inl new ↦ rw new (rw (e, new), refl)
    | inr old ↦ rw old (ack_items-pending xs (drop_front x xs q) refl)
  ]

  abbrev pub max_ℤ : ℤ → ℤ → ℤ
  max_ℤ a b = if ltb_ℤ a b then b else a

  -- Ack moves the offset up to lastSeen, never down, and hides exactly the updates up to it: those
  -- above stay, in order, also when the ids in the queue are not sorted.
  pub ack-pending :
      (last_seen : ℤ) (q : Queue F)
      → ((ack last_seen q).consumer_offset ≡ max_ℤ q.consumer_offset last_seen)
        × (pending (ack last_seen q) ≡ above (max_ℤ q.consumer_offset last_seen) q.items)
  unfolding ack
  ack-pending last_seen q = elim (Bool-cases (ltb_ℤ q.consumer_offset last_seen)) [
    | inl on ↦
        let (p, o) = ack_items-pending q.items (record q { consumer_offset = last_seen }) refl in
        rw on (o, p)
    | inr back ↦ let (p, o) = ack_items-pending q.items q refl in rw back (o, p)
  ]

  All-above :
      (k o : ℤ) (xs : List (QueuedUpdate F)) → k ≤ℤ o → All (λ x. k <ℤ x.update_id) (above o xs)
  All-above k o [] h = tt
  All-above k o (x ∷ xs) h = ground (arith, All-above k o xs h)

  All-take :
      (P : QueuedUpdate F → Type 0) (n : ℕ) (xs : List (QueuedUpdate F))
      → All P xs
      → All P (take n xs)
  All-take P zero xs h = tt
  All-take P (suc n) [] h = tt
  All-take P (suc n) (x ∷ xs) h = (h.0, All-take P n xs h.1)

  -- A batch for a consumer that has acknowledged up to k.
  pub record IsBatch (k limit : ℤ) (xs : List (QueuedUpdate F)) : Type 0 where
    pub new : All (λ x. k <ℤ x.update_id) xs
    pub short : length xs ≤ pull_limit limit

  visible-IsBatch :
      (k limit : ℤ) (q : Queue F) → k ≤ℤ q.consumer_offset → IsBatch k limit (visible limit q)
  unfolding visible
  visible-IsBatch k limit q h = record {
    new = All-take _ (pull_limit limit) (pending q) (All-above k q.consumer_offset q.items h);
    short = length-take-le (pull_limit limit) (pending q);
  }

  -- Nothing that happens during the wait takes the offset back below k.
  abbrev pub WakesFrom : ℤ → List (Wake F) → Type 0
  WakesFrom k [] = Unit {0}
  WakesFrom k (pushed q ∷ ws) = (k ≤ℤ q.consumer_offset) × WakesFrom k ws
  WakesFrom k (timer ∷ ws) = Unit {0}
  WakesFrom k (done ∷ ws) = Unit {0}

  offer_cases :
      (xs ys : List (QueuedUpdate F)) (rest : Option (List (QueuedUpdate F)))
      → offer xs rest ≡ some ys
      → (xs ≡ ys) ⊎ (rest ≡ some ys)
  offer_cases [] ys rest e = inr e
  offer_cases (x ∷ xs) ys rest e = inl (cc)

  pull_wait-IsBatch :
      (k limit : ℤ) (ws : List (Wake F)) (q : Queue F) (xs : List (QueuedUpdate F))
      → k ≤ℤ q.consumer_offset
      → WakesFrom k ws
      → pull_wait limit ws q ≡ some xs
      → IsBatch k limit xs
  unfolding pull_wait
  pull_wait-IsBatch k limit [] q xs h w e = elim (offer_cases (visible limit q) xs none e) [
    | inl p ↦ subst (IsBatch k limit) p (visible-IsBatch k limit q h)
    | inr p ↦ cc
  ]
  pull_wait-IsBatch k limit (pushed q' ∷ ws) q xs h w e =
      elim (offer_cases (visible limit q) xs (pull_wait limit ws q') e) [
        | inl p ↦ subst (IsBatch k limit) p (visible-IsBatch k limit q h)
        | inr p ↦ pull_wait-IsBatch k limit ws q' xs w.0 w.1 p
      ]
  pull_wait-IsBatch k limit (timer ∷ ws) q xs h w e =
      let p : visible limit q ≡ xs = cc in subst (IsBatch k limit) p (visible-IsBatch k limit q h)
  pull_wait-IsBatch k limit (done ∷ ws) q xs h w e =
      let p : visible limit q ≡ xs = cc in subst (IsBatch k limit) p (visible-IsBatch k limit q h)

  -- An offset that the subtraction of 1 does not wrap.
  abbrev pub IsOffset : ℤ → Type 0
  IsOffset offset = (negsuc 0x7fff_ffff_ffff_ffff <ℤ offset) × (offset ≤ℤ pos 0x7fff_ffff_ffff_ffff)

  wrap64_sub : (offset : ℤ) → IsOffset offset → wrap64 (offset -ℤ pos 1) ≡ offset -ℤ pos 1
  unfolding wrap64
  wrap64_sub offset h = ground (arith, -ℤ_parts offset (pos 1))

  le_max : (a b : ℤ) → b ≤ℤ max_ℤ a b
  le_max a b = ground arith

  -- A Pull with an offset returns only updates from that offset on, and no more than its limit (100,
  -- if the limit is not positive), also if it has to wait, so long as nothing sets the consumer's
  -- offset back meanwhile.
  pub pull-IsBatch :
      (offset limit : ℤ) (ws : List (Wake F)) (q : Queue F) (xs : List (QueuedUpdate F))
      → IsOffset offset
      → WakesFrom (offset -ℤ pos 1) ws
      → pull (some offset) limit ws q ≡ some xs
      → IsBatch (offset -ℤ pos 1) limit xs
  unfolding pull
  pull-IsBatch offset limit ws q xs r w e =
      let k = offset -ℤ pos 1 in
      let reached : k ≤ℤ (ack (wrap64 k) q).consumer_offset =
        rw (wrap64_sub offset r, (ack-pending k q).0) (le_max q.consumer_offset k) in
      pull_wait-IsBatch k limit ws _ xs reached w e

  take-ne-nil : (n : ℕ) (xs : List (QueuedUpdate F)) → 0 < n → xs ≢ [] → take n xs ≢ []
  take-ne-nil zero xs h k = absurd (omega arith)
  take-ne-nil (suc n) [] h k = absurd (k refl)
  take-ne-nil (suc n) (x ∷ xs) h k = λ e. cc

  pull_limit_pos : (limit : ℤ) → 0 < pull_limit limit
  pull_limit_pos (pos zero) = omega arith
  pull_limit_pos (pos (suc n)) = omega arith
  pull_limit_pos (negsuc n) = omega arith

  offer-some :
      (xs : List (QueuedUpdate F)) (rest : Option (List (QueuedUpdate F)))
      → xs ≢ []
      → offer xs rest ≡ some xs
  offer-some [] rest h = absurd (h refl)
  offer-some (x ∷ xs) rest h = refl

  pull_wait-some :
      (limit : ℤ) (ws : List (Wake F)) (q : Queue F)
      → visible limit q ≢ []
      → pull_wait limit ws q ≡ some (visible limit q)
  unfolding pull_wait
  pull_wait-some limit [] q h = offer-some (visible limit q) none h
  pull_wait-some limit (pushed q' ∷ ws) q h = offer-some (visible limit q) (pull_wait limit ws q') h
  pull_wait-some limit (timer ∷ ws) q h = refl
  pull_wait-some limit (done ∷ ws) q h = refl

  visible-ack :
      (offset limit : ℤ) (q : Queue F)
      → IsOffset offset
      → visible limit (ack (wrap64 (offset -ℤ pos 1)) q)
        ≡ take (pull_limit limit) (above (max_ℤ q.consumer_offset (offset -ℤ pos 1)) q.items)
  unfolding visible
  visible-ack offset limit q r =
      rw (wrap64_sub offset r) (ap (take (pull_limit limit)) (ack-pending (offset -ℤ pos 1) q).1)

  -- The updates that a Pull is for: those above the offset that the queue is at, or that the offset
  -- of the Pull, if it has one, acknowledges up to.
  abbrev pub asked : Option ℤ → Queue F → List (QueuedUpdate F)
  asked none q = pending q
  asked (some offset) q = above (max_ℤ q.consumer_offset (offset -ℤ pos 1)) q.items

  -- If updates are pending, Pull does not wait: it returns the oldest of them, up to the limit. Its
  -- offset, if it has one, is an int64 above the least one.
  pub pull_at_once :
      (o : Option ℤ) (limit : ℤ) (ws : List (Wake F)) (q : Queue F)
      → Every IsOffset o
      → asked o q ≢ []
      → pull o limit ws q ≡ some (take (pull_limit limit) (asked o q))
  unfolding pull visible
  pull_at_once none limit ws q r h =
      pull_wait-some limit ws q (take-ne-nil (pull_limit limit) _ (pull_limit_pos limit) h)
  pull_at_once (some offset) limit ws q r h =
      let acked = ack (wrap64 (offset -ℤ pos 1)) q in
      let e = visible-ack offset limit q r in
      let some' : visible limit acked ≢ [] =
        rw e (take-ne-nil (pull_limit limit) _ (pull_limit_pos limit) h) in
      pull_wait-some limit ws acked some' ∙ ap some e
