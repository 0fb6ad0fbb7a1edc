-- ===== src/Mtproto/Session/Feed.antt =====
-- The way of an update from Telegram to the consumers, internal/mtproto/sessions.go: pushUpdate and
-- PruneExpiredUpdates, and the backlog that startClient replays. The channel updateCh is the list
-- of what it holds, the oldest first, with its capacity. encoding/json is a parameter.
pub mod Belt
pub mod Numbers
use tg_session_gateway.Prelude.{
  ℤ, pos, ◌+ℤ◌, ltb_ℤ, ℕ, ◌+◌, ltb, Bool, false, not, if◌then◌else◌, Option, none, some, List, [],
  ◌∷◌, ◌++◌, String, length, keep,
}
use tg_session_gateway.Float64.{Float64, ltf}
use tg_session_gateway.Store.Queue.{wrap64}
use tg_session_gateway.Store.Queue.Table.{Row}

-- An update as pushUpdate numbers and stamps it: _gw_seq, _gw_enqueued_at, and the rest. Replayed
-- rows may lack the two.
pub record FeedUpdate (F : Type 0) : Type 0 where
  pub gw_seq : Option ℤ
  pub gw_enqueued_at : Option F
  pub content : String

pub record DeadLetter (F : Type 0) : Type 0 where
  pub name : String
  pub payload : String
  pub at : F

pub record Feed (F : Type 0) : Type 0 where
  pub name : String
  pub next_seq : ℤ
  pub last_update_at : F
  pub update_ch : List (FeedUpdate F)
  pub capacity : ℕ
  pub persist_failures : ℕ
  pub rows : List (Row F)
  pub dead_letters : List (DeadLetter F)

module _ ⦃N : Float64⦄ where
  open N use {F, leb, zero, sub}

  -- A send that does not block.
  unfoldable pub offer_update : ℕ → FeedUpdate F → List (FeedUpdate F) → List (FeedUpdate F)
  offer_update capacity u belt = if ltb (length belt) capacity then belt ++ u ∷ [] else belt

  abbrev pub drop_oldest : List (FeedUpdate F) → List (FeedUpdate F)
  drop_oldest [] = []
  drop_oldest (u ∷ belt) = belt

  -- The send, and if the channel is full a receive and the send again.
  unfoldable pub belt_push : ℕ → FeedUpdate F → List (FeedUpdate F) → List (FeedUpdate F)
  belt_push capacity u belt =
      if ltb (length belt) capacity
      then offer_update capacity u belt
      else offer_update capacity u (drop_oldest belt)

  -- QueuePush of internal/store/mt.go, and what is noted if it fails.
  unfoldable pub queue_push : Bool → ℤ → String → F → Feed F → Feed F
  queue_push ok seq json wall d =
      if ok
      then record d {
        rows =
            d.rows
            ++ record {
              bot_alias = d.name;
              update_id = seq;
              update_json = json;
              enqueued_at = wall;
            }
              ∷ [];
      }
      else record d { persist_failures = d.persist_failures + 1 }

  -- pushUpdate after the mutex: dead letters for what cannot be encoded, and else the row first and
  -- then the channel.
  unfoldable pub route :
      Bool → Bool → FeedUpdate F → ℤ → F → String → Option String → Feed F → Feed F
  route push_ok letter_ok u seq wall letter none d =
      if letter_ok
      then record d {
        dead_letters = d.dead_letters ++ record { name = d.name; payload = letter; at = wall } ∷ [];
      }
      else d
  route push_ok letter_ok u seq wall letter (some json) d =
      let d' = queue_push push_ok seq json wall d in
      record d' { update_ch = belt_push d.capacity u d.update_ch }

  abbrev pub numbered : ℤ → F → String → FeedUpdate F
  numbered seq wall content = record {
    gw_seq = some seq;
    gw_enqueued_at = some wall;
    content = content;
  }

  -- The part of pushUpdate that holds the mutex.
  abbrev pub stamp : F → Feed F → Feed F
  stamp wall d = record d { next_seq = wrap64 (d.next_seq +ℤ pos 1); last_update_at = wall }

  -- `printed` is what fmt makes of an update, cut to 10000 bytes.
  module _ (marshal : FeedUpdate F → Option String) (printed : FeedUpdate F → String) where
    -- pushUpdate, undisturbed: the mutex is free between `stamp` and `route`, where another call
    -- may come in between; that is a run of these two parts.
    unfoldable pub push_update : Bool → Bool → F → String → Feed F → Feed F
    push_update push_ok letter_ok wall content d =
        let d' = stamp wall d in
        let u = numbered d'.next_seq wall content in
        route push_ok letter_ok u d'.next_seq wall (printed u) (marshal u) d'

  -- The loops of startClient over the backlog.
  unfoldable pub raise_seq : ℤ → Option ℤ → ℤ
  raise_seq next none = next
  raise_seq next (some seq) = if ltb_ℤ next seq then seq else next

  unfoldable pub replay_seq : List (FeedUpdate F) → ℤ → ℤ
  replay_seq [] next = next
  replay_seq (u ∷ us) next = replay_seq us (raise_seq next u.gw_seq)

  unfoldable pub replay_belt : ℕ → List (FeedUpdate F) → List (FeedUpdate F) → List (FeedUpdate F)
  replay_belt capacity [] belt = belt
  replay_belt capacity (u ∷ us) belt = replay_belt capacity us (offer_update capacity u belt)

  unfoldable pub replay_backlog : List (FeedUpdate F) → Feed F → Feed F
  replay_backlog backlog d = record d {
    next_seq = replay_seq backlog d.next_seq;
    update_ch = replay_belt d.capacity backlog d.update_ch;
  }

  -- The test of PruneExpiredUpdates.
  abbrev pub is_expired : F → Option F → Bool
  is_expired cutoff none = false
  is_expired cutoff (some at) = ltf at cutoff

  -- PruneExpiredUpdates: everything is received, and the rest sent again.
  unfoldable pub prune_expired_updates : F → F → Feed F → Feed F
  prune_expired_updates ttl wall d = if leb ttl zero then d else record d {
    update_ch =
        replay_belt d.capacity
          (keep (λ u. not (is_expired (sub wall ttl) u.gw_enqueued_at)) d.update_ch) [];
  }
