-- ===== src/Tests/Queues.antt =====
-- The queue of internal/store/queue.go at concrete values.
use tg_session_gateway.Prelude.{
  ℤ, pos, ◌-ℤ◌, ◌≡◌, refl, ◌≢◌, true, false, Option, none, some, [], ◌∷◌, String, take,
  string_has_eq, int_has_eq, arith, find,
}
use tg_session_gateway.Float64.{integral}
use tg_session_gateway.Store.Queue.{
  Queue, QueuedUpdate, Update, push_all, ack, pull, pending, is_seen,
}
use tg_session_gateway.Store.Queue.Table.{Row}
use tg_session_gateway.Store.Queue.Disk.{Durable, LoadFaults, ack_durable, load_from_db}
use tg_session_gateway.Store.Queue.Invariant.{has_id, IsValid, OutcomeFits, push_all-IsValid}
use tg_session_gateway.Store.Queue.Delivery.{above, max_ℤ, ack-pending, pull_at_once}
use tg_session_gateway.Store.Queue.Loaded.{ItemsAbove}
use tg_session_gateway.Store.Queue.Restart.{fresh, load-ack}

abbrev update : ℤ → Update
update k = record { update_id = some k; content = "hello" }

abbrev item : ℤ → QueuedUpdate ℤ
item k = record { update_id = k; update = update k; enqueued = pos 50 }

abbrev queue : Queue ℤ
queue = record {
  maxsize = pos 2;
  overflow = "drop_oldest";
  ttl = pos 0;
  items = item (pos 5) ∷ item (pos 6) ∷ [];
  seen = (pos 5, true) ∷ (pos 6, true) ∷ [];
  consumer_offset = pos 4;
  dropped = 0;
  expired = 0;
  bot_alias = "shop";
  persistent = true;
  unloaded_backlog = pos 0;
}

-- The payload as its own encoding.
abbrev marshal : Update → Option String
marshal u = some (u.content)

abbrev unmarshal : String → Option Update
unmarshal s = some (record { update_id = none; content = s })

abbrev row : ℤ → Row ℤ
row k = record { bot_alias = "shop"; update_id = k; update_json = "hello"; enqueued_at = pos 50 }

abbrev disk : Durable ℤ
disk = record {
  queue = queue;
  tables = record {
    update_queue = row (pos 5) ∷ row (pos 6) ∷ [];
    consumer_offsets = ("shop", pos 4) ∷ [];
  };
  persist_failures = 0;
  corrupt_rows = 0;
}

ids_mirrored : (k : ℤ) → is_seen k queue.seen ≡ has_id k queue.items
unfolding find
ids_mirrored k = ground arith

queue-IsValid : IsValid queue
queue-IsValid = record {
  bounded = omega arith;
  distinct = (refl, (refl, tt));
  mirrored = ids_mirrored;
}

push_all-IsValid_example :
    OutcomeFits (pos 2) (push_all marshal (pos 60) ((update (pos 7), pos 60) ∷ []) queue)
push_all-IsValid_example =
    push_all-IsValid marshal (pos 60) ((update (pos 7), pos 60) ∷ []) queue (omega arith)
      queue-IsValid

ack-pending_example :
    ((ack (pos 5) queue).consumer_offset ≡ pos 5)
    × (pending (ack (pos 5) queue) ≡ item (pos 6) ∷ [])
ack-pending_example = ack-pending (pos 5) queue

some_above : above (max_ℤ (pos 4) (pos 6 -ℤ pos 1)) queue.items ≢ []
unfolding ◌-ℤ◌
some_above h = ground arith

pull_at_once_example :
    pull (some (pos 6)) (pos 10) [] queue
    ≡ some (take 10 (above (max_ℤ (pos 4) (pos 6 -ℤ pos 1)) queue.items))
pull_at_once_example =
    pull_at_once (some (pos 6)) (pos 10) [] queue (omega arith, omega arith) some_above

-- The rows end after one, and the DELETE and the COUNT fail.
abbrev failing : LoadFaults
failing = record {
  offset_ok = true;
  select_ok = true;
  fetch_ends = some 1;
  scan_ok = λ k. true;
  delete_ok = false;
  count_ok = false;
}

load-ack_example :
    ((load_from_db unmarshal failing
        (pos 1)
        (pos 60)
        (fresh queue (ack_durable true true (pos 5) disk))).queue.consumer_offset
      ≡ (ack (pos 5) queue).consumer_offset)
    × ItemsAbove
        (ack (pos 5) queue).consumer_offset
        (load_from_db unmarshal failing
          (pos 1)
          (pos 60)
          (fresh queue (ack_durable true true (pos 5) disk))).queue.items
load-ack_example = load-ack unmarshal failing (pos 5) (pos 1) (pos 60) disk refl refl
