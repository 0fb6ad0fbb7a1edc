-- ===== src/Store/Queue/Disk.antt =====
-- The parts of internal/store/queue.go that read and write the database: PushAll after the mutex,
-- Ack, the prune, and loadFromDB after a restart.
use tg_session_gateway.Prelude.{
  ℤ, pos, ◌-ℤ◌, ltb_ℤ, ℕ, ◌+◌, Bool, true, not, ◌&&◌, List, [], ◌∷◌, ◌++◌, String, Option, none,
  some, int_has_eq, string_has_eq, find, put, ◌=?◌, if◌then◌else◌, length, keep, take,
}
use tg_session_gateway.Float64.{Float64, ltf}
use tg_session_gateway.Store.Queue.{Queue, Update, more, overflow, panic, push_all, ack}
use tg_session_gateway.Store.Queue.Table.{
  Tables, Row, delete_acked, delete_expired, insert_or_ignore, select_unacked,
}

-- A queue, its tables, and the counts of health.Storage that it changes.
pub record Durable (F : Type 0) : Type 0 where
  pub queue : Queue F
  pub tables : Tables F
  pub persist_failures : ℕ
  pub corrupt_rows : ℕ

-- What the engine lets through in one call of PushAll.
pub record PushFaults : Type 0 where
  pub prune_ok : Bool
  pub begin_ok : Bool
  pub prepare_ok : Bool
  pub insert_ok : ℤ → Bool
  pub commit_ok : Bool

-- What the engine lets through in one loadFromDB: the offset and the SELECT, how many rows
-- `rows.Next` gives before an error ends them, which rows can be scanned, the DELETE and the COUNT.
pub record LoadFaults : Type 0 where
  pub offset_ok : Bool
  pub select_ok : Bool
  pub fetch_ends : Option ℕ
  pub scan_ok : ℤ → Bool
  pub delete_ok : Bool
  pub count_ok : Bool

pub data PushResult (F : Type 0) : Type 0 where
  accepted : Durable F → PushResult F
  overflowed : Durable F → PushResult F
  panicked : PushResult F

module _ ⦃N : Float64⦄ where
  open N use {F, leb, zero, sub, add}

  abbrev pub note_failure : Durable F → Durable F
  note_failure d = record d { persist_failures = d.persist_failures + 1 }

  abbrev pub set_rows : List (Row F) → Durable F → Durable F
  set_rows rows d = record d { tables = record (d.tables) { update_queue = rows } }

  -- The statement of pruneExpiredLocked.
  unfoldable pub prune_rows : Bool → F → Durable F → Durable F
  prune_rows ok wall d =
      if leb d.queue.ttl zero
      then d
      else if d.queue.persistent && ok
      then set_rows (delete_expired d.queue.bot_alias (sub wall d.queue.ttl) d.tables.update_queue)
          d
      else d

  -- The INSERTs of the transaction.
  unfoldable pub insert_all :
      (ℤ → Bool) → String → F → List (ℤ × String) → List (Row F) → List (Row F)
  insert_all ok name wall [] rows = rows
  insert_all ok name wall ((uid, json) ∷ batch) rows = insert_all ok name wall batch (
      if ok uid
      then insert_or_ignore
          (record { bot_alias = name; update_id = uid; update_json = json; enqueued_at = wall })
          rows
      else rows)

  -- The transaction of PushAll.
  unfoldable pub persist_batch : PushFaults → F → List (ℤ × String) → Durable F → Durable F
  persist_batch f wall [] d = d
  persist_batch f wall (row ∷ batch) d =
      if not d.queue.persistent
      then d
      else if f.begin_ok && (f.prepare_ok && f.commit_ok)
      then set_rows
          (insert_all f.insert_ok d.queue.bot_alias wall (row ∷ batch) d.tables.update_queue) d
      else note_failure d

  -- PushAll. On an overflow it returns before it persists.
  unfoldable pub push_all_durable :
      (Update → Option String) → PushFaults → F → F → List (Update × F) → Durable F → PushResult F
  push_all_durable marshal f now wall us d =
      let d' = prune_rows f.prune_ok wall d in
      elim (push_all marshal now us d.queue) [
        | more b ↦ accepted (persist_batch f wall b.rows (record d' { queue = b.queue }))
        | overflow b ↦ overflowed (record d' { queue = b.queue })
        | panic ↦ panicked
      ]

  -- Ack: the DELETE, and the upsert of the offset if that went through.
  unfoldable pub ack_durable : Bool → Bool → ℤ → Durable F → Durable F
  ack_durable delete_ok upsert_ok last_seen d =
      let q = ack last_seen d.queue in
      let d' = record d { queue = q } in
      let deleted = delete_acked q.bot_alias q.consumer_offset d.tables.update_queue in
      if not q.persistent
      then d'
      else if delete_ok
      then (if upsert_ok
          then record d' {
            tables = record {
              update_queue = deleted;
              consumer_offsets = put q.bot_alias q.consumer_offset d.tables.consumer_offsets;
            };
          }
          else note_failure (set_rows deleted d'))
      else note_failure d'

  -- One selected row, its payload decoded or not; `enqueued` is the time that its age comes to.
  unfoldable pub load_row : (F → F) → Row F → Option Update → Durable F → Durable F
  load_row enqueued r none d = record d { corrupt_rows = d.corrupt_rows + 1 }
  load_row enqueued r (some u) d = record d {
    queue = record (d.queue) {
      items =
          d.queue.items
          ++ record { update_id = r.update_id; update = u; enqueued = enqueued r.enqueued_at } ∷ [];
      seen = put r.update_id true d.queue.seen;
    };
  }

  -- `rows.Next` until the rows end, or an error ends them early.
  abbrev pub until_error {ℓ} : {A : Type ℓ} → Option ℕ → List A → List A
  until_error none rows = rows
  until_error (some n) rows = take n rows

  -- The rows of the SELECT that are fetched and scanned.
  abbrev pub fetched : LoadFaults → List (Row F) → List (Row F)
  fetched f rows = keep (λ r. f.scan_ok r.update_id) (until_error f.fetch_ends rows)

  module _ (unmarshal : String → Option Update) where
    -- The loop over the selected rows.
    unfoldable pub load_rows : (F → F) → List (Row F) → Durable F → Durable F
    load_rows enqueued [] d = d
    load_rows enqueued (r ∷ rows) d =
        load_rows enqueued rows (load_row enqueued r (unmarshal r.update_json) d)

    -- The rows that a consumer has not acknowledged.
    abbrev pub count_unacked : String → ℤ → List (Row F) → ℕ
    count_unacked name offset rows =
        length (keep (λ r. r.bot_alias =? name && ltb_ℤ offset r.update_id) rows)

    abbrev pub clamp : ℤ → ℤ
    clamp n = if ltb_ℤ n (pos 0) then pos 0 else n

    abbrev pub restore_offset : Option ℤ → Durable F → Durable F
    restore_offset none d = d
    restore_offset (some offset) d = record d {
      queue = record (d.queue) { consumer_offset = offset };
    }

    -- loadFromDB from the SELECT of the rows on, which went through.
    unfoldable pub load_selected : LoadFaults → F → F → Durable F → Durable F
    load_selected f now wall d =
        let q = d.queue in
        let cutoff = if ltf zero q.ttl then sub wall q.ttl else zero in
        let chosen =
          select_unacked q.bot_alias q.consumer_offset cutoff q.maxsize d.tables.update_queue in
        let l = load_rows (λ at. add now (sub zero (sub wall at))) (fetched f chosen) d in
        let rows =
          if f.delete_ok
          then delete_acked q.bot_alias q.consumer_offset d.tables.update_queue
          else d.tables.update_queue in
        let total =
          if f.count_ok then pos (count_unacked q.bot_alias q.consumer_offset rows) else pos 0 in
        record l {
          tables = record (d.tables) { update_queue = rows };
          queue = record (l.queue) {
            unloaded_backlog = clamp (total -ℤ pos (length l.queue.items));
          };
        }

    -- loadFromDB after the offset: it returns if the SELECT of the rows fails. `now` and `wall` are
    -- the two clocks.
    unfoldable pub load_unacked : LoadFaults → F → F → Durable F → Durable F
    load_unacked f now wall d = if f.select_ok then load_selected f now wall d else d

    -- loadFromDB, on a queue that has just been made. The offset stays 0 if its row is not there or
    -- cannot be read.
    unfoldable pub load_from_db : LoadFaults → F → F → Durable F → Durable F
    load_from_db f now wall d = load_unacked f now wall (
        if f.offset_ok
        then restore_offset (find d.queue.bot_alias d.tables.consumer_offsets) d
        else d)
