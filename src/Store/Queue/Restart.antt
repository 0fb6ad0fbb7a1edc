-- ===== src/Store/Queue/Restart.antt =====
-- What queue.go finds again after a restart: loadFromDB on what PushAll and Ack left in the tables.
use tg_session_gateway.Prelude.{
  ℤ, pos, ◌≤ℤ◌, ◌≡◌, refl, sym, ◌∙◌, ap, subst, true, ◌||◌, Option, none, some, if_both, List, [],
  ◌∷◌, String, find, find-put_self, int_has_eq, string_has_eq, if◌then◌else◌, length, keep, arith,
}
use tg_session_gateway.Float64.{Float64, ltf}
use tg_session_gateway.Store.Queue.{Queue, QueuedUpdate, Update, drop_front, ack_items, ack}
use tg_session_gateway.Store.Queue.Invariant.{has_id}
use tg_session_gateway.Store.Queue.Table.{order_by_id, is_unacked, select_unacked, limit_rows}
use tg_session_gateway.Store.Queue.Disk.{
  Durable, LoadFaults, ack_durable, load_rows, load_selected, load_unacked, load_from_db,
}
use tg_session_gateway.Store.Queue.Loaded.{
  has_row, ItemsAbove, RowsAbove-select, RowsAbove-fetched, has_row-order, load_rows_above,
  load_rows_offset, load_rows_has, Readable, length-order_by_id, limit_rows_all,
}

module _ ⦃N : Float64⦄ where
  open N use {F, leb, zero as zero_f, sub, add}

  ack_items_same :
      (xs : List (QueuedUpdate F)) (q : Queue F)
      → ((ack_items xs q).bot_alias ≡ q.bot_alias) × ((ack_items xs q).persistent ≡ q.persistent)
  unfolding ack_items
  ack_items_same [] q = (refl, refl)
  ack_items_same (x ∷ xs) q = ground (arith, ack_items_same xs (drop_front x xs q))

  ack_same :
      (last_seen : ℤ) (q : Queue F)
      → ((ack last_seen q).bot_alias ≡ q.bot_alias) × ((ack last_seen q).persistent ≡ q.persistent)
  unfolding ack
  ack_same last_seen q = ground (
    arith,
    ack_items_same q.items (record q { consumer_offset = last_seen }),
    ack_items_same q.items q,
  )

  keep_all {ℓ} : {A : Type ℓ} (xs : List A) → keep (λ x. true) xs ≡ xs
  keep_all [] = refl
  keep_all (x ∷ xs) = ap (λ ys. x ∷ ys) (keep_all xs)

  -- A load in which nothing fails.
  abbrev pub no_fault : LoadFaults
  no_fault = record {
    offset_ok = true;
    select_ok = true;
    fetch_ends = none;
    scan_ok = λ k. true;
    delete_ok = true;
    count_ok = true;
  }

  -- A queue that has just been made for the alias of `q`, on the tables of `d`.
  abbrev pub fresh : Queue F → Durable F → Durable F
  fresh q d = record d {
    queue = record q {
      items = [];
      seen = [];
      consumer_offset = pos 0;
      dropped = 0;
      expired = 0;
      unloaded_backlog = pos 0;
    };
  }

  module _ (unmarshal : String → Option Update) where
    load_unacked_above :
        (f : LoadFaults) (now wall : F) (d : Durable F)
        → d.queue.items ≡ []
        → ((load_unacked unmarshal f now wall d).queue.consumer_offset ≡ d.queue.consumer_offset)
          × ItemsAbove d.queue.consumer_offset (load_unacked unmarshal f now wall d).queue.items
    unfolding load_unacked load_selected
    load_unacked_above f now wall d e =
        let k = d.queue.consumer_offset in
        if_both (λ r. (r.queue.consumer_offset ≡ k) × ItemsAbove k r.queue.items) f.select_ok
          (load_selected unmarshal f now wall d) d
          (
            load_rows_offset unmarshal _ _ d,
            load_rows_above unmarshal k _ _ d
                (RowsAbove-fetched k f _
                  (RowsAbove-select d.queue.bot_alias k _ d.queue.maxsize d.tables.update_queue))
                (rw e tt),
          )
          (refl, rw e tt)

    load_above :
        (f : LoadFaults) (now wall : F) (d : Durable F) (offset : ℤ)
        → f.offset_ok ≡ true
        → find d.queue.bot_alias d.tables.consumer_offsets ≡ some offset
        → d.queue.items ≡ []
        → ((load_from_db unmarshal f now wall d).queue.consumer_offset ≡ offset)
          × ItemsAbove offset (load_from_db unmarshal f now wall d).queue.items
    unfolding load_from_db load_unacked load_selected
    load_above f now wall d offset ok e i =
        rw (ok, e)
          (load_unacked_above f now wall
            (record d { queue = record (d.queue) { consumer_offset = offset } }) i)

    ack_offset_stored :
        (last_seen : ℤ) (d : Durable F)
        → d.queue.persistent ≡ true
        → find d.queue.bot_alias (ack_durable true true last_seen d).tables.consumer_offsets
          ≡ some (ack last_seen d.queue).consumer_offset
    unfolding ack_durable
    ack_offset_stored last_seen d p = ground (
      arith,
      ack_same last_seen d.queue,
      find-put_self d.queue.bot_alias (ack last_seen d.queue).consumer_offset
          d.tables.consumer_offsets,
    )

    -- After an Ack that reached the disk, a restart whose SELECT of the offset goes through brings
    -- the offset back, and no update up to it, whatever stands in the tables, however large the new
    -- queue is, and whatever else fails: the SELECT of the rows, their scans, the DELETE, the COUNT.
    pub load-ack :
        (f : LoadFaults) (last_seen : ℤ) (now wall : F) (d : Durable F)
        → d.queue.persistent ≡ true
        → f.offset_ok ≡ true
        → let offset = (ack last_seen d.queue).consumer_offset in
          let q =
            (load_from_db unmarshal f now wall
              (fresh d.queue (ack_durable true true last_seen d))).queue in
          (q.consumer_offset ≡ offset) × ItemsAbove offset q.items
    load-ack f last_seen now wall d p ok =
        load_above f now wall (fresh d.queue (ack_durable true true last_seen d))
          (ack last_seen d.queue).consumer_offset ok (ack_offset_stored last_seen d p) refl

    -- Every row of the alias that is not acknowledged and not too old is in the queue again after a
    -- restart in which nothing fails, if its size lets all of them in and their payloads can be read.
    pub load_unacked_has :
        (now wall : F) (d : Durable F) (k : ℤ)
        → let cutoff = if ltf zero_f d.queue.ttl then sub wall d.queue.ttl else zero_f in
          let rows =
            keep
              (is_unacked d.queue.bot_alias d.queue.consumer_offset cutoff)
              d.tables.update_queue in
          Readable unmarshal (order_by_id rows)
          → pos (length rows) ≤ℤ d.queue.maxsize
          → has_id k (load_unacked unmarshal no_fault now wall d).queue.items
            ≡ (has_id k d.queue.items || has_row k rows)
    unfolding load_unacked load_selected select_unacked
    load_unacked_has now wall d k readable room =
        let cutoff = if ltf zero_f d.queue.ttl then sub wall d.queue.ttl else zero_f in
        let rows =
          keep (is_unacked d.queue.bot_alias d.queue.consumer_offset cutoff)
            d.tables.update_queue in
        let sorted = order_by_id rows in
        let all =
          limit_rows_all d.queue.maxsize sorted
            (subst (λ m. pos m ≤ℤ d.queue.maxsize) (sym (length-order_by_id rows)) room) in
        rw (keep_all (limit_rows d.queue.maxsize sorted)) (
          ap
            (λ rs.
              has_id k
                (load_rows unmarshal (λ at. add now (sub zero_f (sub wall at))) rs d).queue.items)
            all
          ∙ load_rows_has unmarshal k _ sorted d readable
          ∙ ap (has_id k d.queue.items ||◌) (has_row-order k rows))
