-- ===== src/Store/Queue.antt =====
-- internal/store/queue.go: the bounded queue of updates between Telegram and the consumers of one
-- bot, in memory. A method that holds the mutex is one step; clock readings are arguments.
pub mod Table
pub mod Disk
pub mod Invariant
pub mod Delivery
pub mod Loaded
pub mod Restart
use tg_session_gateway.Prelude.{
  ℤ, pos, negsuc, ◌+ℤ◌, ◌-ℤ◌, leb_ℤ, ltb_ℤ, ℕ, suc, ◌+◌, Bool, true, false, Option, none, some,
  List, [], ◌∷◌, ◌++◌, String, find, put, remove, int_has_eq, string_has_eq, ◌=?◌, if◌then◌else◌,
  length, take, keep,
}
use tg_session_gateway.Float64.{Float64, ltf}

-- An update as the queue looks at it: what toInt64 reads from its field update_id, and the rest.
pub record Update : Type 0 where
  pub update_id : Option ℤ
  pub content : String

pub record QueuedUpdate (F : Type 0) : Type 0 where
  pub update_id : ℤ
  pub update : Update
  pub enqueued : F

-- The first item is the oldest. `seen` is the Go map from ids to true.
pub record Queue (F : Type 0) : Type 0 where
  pub maxsize : ℤ
  pub overflow : String
  pub ttl : F
  pub items : List (QueuedUpdate F)
  pub seen : List (ℤ × Bool)
  pub consumer_offset : ℤ
  pub dropped : ℕ
  pub expired : ℕ
  pub bot_alias : String
  pub persistent : Bool
  pub unloaded_backlog : ℤ

-- int64 arithmetic.
unfoldable pub wrap64 : ℤ → ℤ
wrap64 n =
    if ltb_ℤ (pos 0x7fff_ffff_ffff_ffff) n
    then n -ℤ pos 0x1_0000_0000_0000_0000
    else if ltb_ℤ n (negsuc 0x7fff_ffff_ffff_ffff)
    then n +ℤ pos 0x1_0000_0000_0000_0000
    else n

abbrev pub is_seen : ℤ → List (ℤ × Bool) → Bool
is_seen k m = elim (find k m) [ none ↦ false | some b ↦ b ]

abbrev pub last? {ℓ} : {A : Type ℓ} → List A → Option A
last? [] = none
last? (x ∷ []) = some x
last? (x ∷ y ∷ xs) = last? (y ∷ xs)

-- The state of the loop of PushAll: the queue, and the rows to persist.
pub record Batch (F : Type 0) : Type 0 where
  pub queue : Queue F
  pub rows : List (ℤ × String)

pub data Outcome (F : Type 0) : Type 0 where
  -- the loop goes on
  more : Batch F → Outcome F
  -- ErrQueueOverflow
  overflow : Batch F → Outcome F
  -- a nil element is removed
  panic : Outcome F

-- What the loop does with the outcome of a round.
abbrev pub and_then : {F : Type 0} → Outcome F → (Batch F → Outcome F) → Outcome F
and_then (more b) k = k b
and_then (overflow b) k = overflow b
and_then panic k = panic

-- What ends a wait of Pull: a push (with the queue as it then is), the deadline, the caller.
pub data Wake (F : Type 0) : Type 0 where
  pushed : Queue F → Wake F
  timer done : Wake F

-- What there is to deliver, or the rest of the wait.
abbrev pub offer {ℓ} : {A : Type ℓ} → List A → Option (List A) → Option (List A)
offer [] rest = rest
offer (x ∷ xs) rest = some (x ∷ xs)

-- `if limit <= 0 { limit = 100 }`
abbrev pub pull_limit : ℤ → ℕ
pull_limit (pos ℕ.zero) = 100
pull_limit (pos (suc n)) = suc n
pull_limit (negsuc n) = 100

pub record QueueStats : Type 0 where
  pub depth : ℕ
  pub dropped_oldest : ℕ
  pub expired_by_ttl : ℕ
  pub consumer_offset : ℤ
  pub persistent : Bool

module _ ⦃N : Float64⦄ where
  open N use {F, leb, zero, sub}

  -- The front of the list goes.
  abbrev pub drop_front : QueuedUpdate F → List (QueuedUpdate F) → Queue F → Queue F
  drop_front x xs q = record q { items = xs; seen = remove x.update_id q.seen }

  -- The loop of pruneExpiredLocked over the items.
  unfoldable pub prune_items : F → List (QueuedUpdate F) → Queue F → Queue F
  prune_items cutoff [] q = q
  prune_items cutoff (x ∷ xs) q =
      if ltf cutoff x.enqueued
      then q
      else prune_items cutoff xs
          (record q { items = xs; seen = remove x.update_id q.seen; expired = q.expired + 1 })

  unfoldable pub prune_expired : F → Queue F → Queue F
  prune_expired now q = if leb q.ttl zero then q else prune_items (sub now q.ttl) q.items q

  -- The id of an update, a new one if Telegram's is missing.
  unfoldable pub id_of : Update → Queue F → ℤ
  id_of u q = elim u.update_id [
    | some uid ↦ uid
    | none ↦ elim (last? q.items) [
      | some x ↦ wrap64 (x.update_id +ℤ pos 1)
      | none ↦ wrap64 (q.consumer_offset +ℤ pos 1)
    ]
  ]

  abbrev pub append_item : QueuedUpdate F → Queue F → Queue F
  append_item x q = record q { items = q.items ++ x ∷ []; seen = put x.update_id true q.seen }

  module _ (marshal : Update → Option String) where
    -- PushBack, and the row for the transaction.
    unfoldable pub accept : QueuedUpdate F → List (ℤ × String) → Queue F → Outcome F
    accept x rows q = elim (marshal x.update) [
      | none ↦ more (record { queue = append_item x q; rows = rows })
      | some json ↦
          more (record { queue = append_item x q; rows = rows ++ (x.update_id, json) ∷ [] })
    ]

    -- The overflow policy.
    unfoldable pub make_room :
        QueuedUpdate F → List (ℤ × String) → Queue F → List (QueuedUpdate F) → Outcome F
    make_room x rows q items =
        if q.overflow =? "reject_new"
        then overflow (record { queue = q; rows = rows })
        else elim items [
          | [] ↦ panic
          | old ∷ rest ↦ accept x rows (record (drop_front old rest q) { dropped = q.dropped + 1 })
        ]

    -- One round of the loop of PushAll; `now` is the time that the update is stamped with.
    unfoldable pub push_one : Update → F → Batch F → Outcome F
    push_one u now b =
        let q = b.queue in
        let uid = id_of u q in
        let x : QueuedUpdate F = record {
          update_id = uid;
          update = record u { update_id = some uid };
          enqueued = now;
        } in
        if is_seen uid q.seen
        then more b
        else if leb_ℤ q.maxsize (pos (length q.items))
        then make_room x b.rows q q.items
        else accept x b.rows q

    -- The loop; each update comes with its time.
    unfoldable pub push_each : List (Update × F) → Batch F → Outcome F
    push_each [] b = more b
    push_each ((u, now) ∷ us) b = and_then (push_one u now b) (push_each us)

    -- PushAll under the mutex.
    unfoldable pub push_all : F → List (Update × F) → Queue F → Outcome F
    push_all now us q = push_each us (record { queue = prune_expired now q; rows = [] })

  -- The loop of Ack over the items.
  unfoldable pub ack_items : List (QueuedUpdate F) → Queue F → Queue F
  ack_items [] q = q
  ack_items (x ∷ xs) q =
      if ltb_ℤ q.consumer_offset x.update_id then q else ack_items xs (drop_front x xs q)

  unfoldable pub ack : ℤ → Queue F → Queue F
  ack last_seen q =
      let q' =
        if ltb_ℤ q.consumer_offset last_seen then record q { consumer_offset = last_seen } else q in
      ack_items q'.items q'

  -- The scan of Pull: the first updates above the consumer's offset.
  abbrev pub pending : Queue F → List (QueuedUpdate F)
  pending q = keep (λ x. ltb_ℤ q.consumer_offset x.update_id) q.items

  unfoldable pub visible : ℤ → Queue F → List (QueuedUpdate F)
  visible limit q = take (pull_limit limit) (pending q)

  -- The wait of Pull, over what ends each wait. `none`: it still waits.
  unfoldable pub pull_wait : ℤ → List (Wake F) → Queue F → Option (List (QueuedUpdate F))
  pull_wait limit [] q = offer (visible limit q) none
  pull_wait limit (pushed q' ∷ ws) q = offer (visible limit q) (pull_wait limit ws q')
  pull_wait limit (timer ∷ ws) q = some (visible limit q)
  pull_wait limit (done ∷ ws) q = some (visible limit q)

  unfoldable pub pull : Option ℤ → ℤ → List (Wake F) → Queue F → Option (List (QueuedUpdate F))
  pull none limit ws q = pull_wait limit ws q
  pull (some offset) limit ws q = pull_wait limit ws (ack (wrap64 (offset -ℤ pos 1)) q)

  unfoldable pub depth : Queue F → ℕ
  depth q = length q.items

  unfoldable pub stats : Queue F → QueueStats
  stats q = record {
    depth = length q.items;
    dropped_oldest = q.dropped;
    expired_by_ttl = q.expired;
    consumer_offset = q.consumer_offset;
    persistent = q.persistent;
  }
