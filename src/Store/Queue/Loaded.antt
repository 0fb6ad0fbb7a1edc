-- ===== src/Store/Queue/Loaded.antt =====
-- What the SELECT of loadFromDB gives and what its loop over the rows does, for internal/store/queue.go.
use tg_session_gateway.Prelude.{
  ℤ, pos, negsuc, ◌≤ℤ◌, ◌<ℤ◌, ℕ, zero, suc, ◌≡◌, refl, ◌∙◌, ap, Bool, true, false, ◌||◌, Option,
  none, some, List, [], ◌∷◌, ◌++◌, String, int_has_eq, string_has_eq, ◌=?◌, length, take, keep, All,
  arith, is_some,
}
use tg_session_gateway.Float64.{Float64}
use tg_session_gateway.Store.Queue.{QueuedUpdate, Update}
use tg_session_gateway.Store.Queue.Invariant.{has_id}
use tg_session_gateway.Store.Queue.Table.{
  Row, insert_by_id, order_by_id, limit_rows, is_unacked, select_unacked,
}
use tg_session_gateway.Store.Queue.Disk.{
  Durable, LoadFaults, until_error, fetched, load_row, load_rows,
}

module _ {F : Type 0} where
  abbrev pub has_row : ℤ → List (Row F) → Bool
  has_row k [] = false
  has_row k (r ∷ rs) = (r.update_id =? k) || has_row k rs

  pub has_row-append :
      (k : ℤ) (rs ss : List (Row F)) → has_row k (rs ++ ss) ≡ (has_row k rs || has_row k ss)
  has_row-append k [] ss = refl
  has_row-append k (r ∷ rs) ss = ground (arith, has_row-append k rs ss)

  pub has_id-snoc :
      (k : ℤ) (xs : List (QueuedUpdate F)) (x : QueuedUpdate F)
      → has_id k (xs ++ x ∷ []) ≡ (has_id k xs || (x.update_id =? k))
  has_id-snoc k [] x = ground arith
  has_id-snoc k (y ∷ xs) x = ground (arith, has_id-snoc k xs x)

take_all {ℓ} : {A : Type ℓ} (n : ℕ) (xs : List A) → pos (length xs) ≤ℤ pos n → take n xs ≡ xs
take_all zero [] h = refl
take_all zero (x ∷ xs) h = ground arith
take_all (suc n) [] h = refl
take_all (suc n) (x ∷ xs) h = ap (x ∷◌) (take_all n xs (ground arith))

module _ ⦃N : Float64⦄ where
  open N use {F, leb, zero as zero_f, sub, add}

  -- Above a bound.
  abbrev pub RowsAbove : ℤ → List (Row F) → Type 0
  RowsAbove k = All (λ r. k <ℤ r.update_id)

  abbrev pub ItemsAbove : ℤ → List (QueuedUpdate F) → Type 0
  ItemsAbove k = All (λ x. k <ℤ x.update_id)

  pub RowsAbove-unacked :
      (name : String) (offset : ℤ) (cutoff : F) (rs : List (Row F))
      → RowsAbove offset (keep (is_unacked name offset cutoff) rs)
  RowsAbove-unacked name offset cutoff [] = tt
  RowsAbove-unacked name offset cutoff (r ∷ rs) =
      ground (arith, RowsAbove-unacked name offset cutoff rs)

  pub RowsAbove-insert :
      (k : ℤ) (r : Row F) (rs : List (Row F))
      → k <ℤ r.update_id
      → RowsAbove k rs
      → RowsAbove k (insert_by_id r rs)
  unfolding insert_by_id
  RowsAbove-insert k r [] h a = (h, tt)
  RowsAbove-insert k r (s ∷ rs) h a = ground (arith, RowsAbove-insert k r rs h)

  pub RowsAbove-order : (k : ℤ) (rs : List (Row F)) → RowsAbove k rs → RowsAbove k (order_by_id rs)
  unfolding order_by_id
  RowsAbove-order k [] a = tt
  RowsAbove-order k (r ∷ rs) a =
      RowsAbove-insert k r (order_by_id rs) a.0 (RowsAbove-order k rs a.1)

  pub RowsAbove-take :
      (k : ℤ) (n : ℕ) (rs : List (Row F)) → RowsAbove k rs → RowsAbove k (take n rs)
  RowsAbove-take k zero rs a = tt
  RowsAbove-take k (suc n) [] a = tt
  RowsAbove-take k (suc n) (r ∷ rs) a = (a.0, RowsAbove-take k n rs a.1)

  pub RowsAbove-keep :
      (k : ℤ) (p : Row F → Bool) (rs : List (Row F)) → RowsAbove k rs → RowsAbove k (keep p rs)
  RowsAbove-keep k p [] a = tt
  RowsAbove-keep k p (r ∷ rs) a = ground (arith, RowsAbove-keep k p rs a.1, a.0)

  RowsAbove-until :
      (k : ℤ) (o : Option ℕ) (rs : List (Row F)) → RowsAbove k rs → RowsAbove k (until_error o rs)
  RowsAbove-until k none rs a = a
  RowsAbove-until k (some n) rs a = RowsAbove-take k n rs a

  pub RowsAbove-fetched :
      (k : ℤ) (f : LoadFaults) (rs : List (Row F)) → RowsAbove k rs → RowsAbove k (fetched f rs)
  RowsAbove-fetched k f rs a =
      RowsAbove-keep k (λ r. f.scan_ok r.update_id) (until_error f.fetch_ends rs)
        (RowsAbove-until k f.fetch_ends rs a)

  pub RowsAbove-limit :
      (k n : ℤ) (rs : List (Row F)) → RowsAbove k rs → RowsAbove k (limit_rows n rs)
  unfolding limit_rows
  RowsAbove-limit k (pos n) rs a = RowsAbove-take k n rs a
  RowsAbove-limit k (negsuc n) rs a = a

  pub RowsAbove-select :
      (name : String) (offset : ℤ) (cutoff : F) (n : ℤ) (rs : List (Row F))
      → RowsAbove offset (select_unacked name offset cutoff n rs)
  unfolding select_unacked
  RowsAbove-select name offset cutoff n rs =
      RowsAbove-limit offset n _
        (RowsAbove-order offset _ (RowsAbove-unacked name offset cutoff rs))

  pub has_row-insert :
      (k : ℤ) (r : Row F) (rs : List (Row F))
      → has_row k (insert_by_id r rs) ≡ ((r.update_id =? k) || has_row k rs)
  unfolding insert_by_id
  has_row-insert k r [] = refl
  has_row-insert k r (s ∷ rs) = ground (arith, has_row-insert k r rs)

  pub has_row-order : (k : ℤ) (rs : List (Row F)) → has_row k (order_by_id rs) ≡ has_row k rs
  unfolding order_by_id
  has_row-order k [] = refl
  has_row-order k (r ∷ rs) = ground (arith, has_row-insert k r (order_by_id rs), has_row-order k rs)

  pub ItemsAbove-snoc :
      (k : ℤ) (xs : List (QueuedUpdate F)) (x : QueuedUpdate F)
      → ItemsAbove k xs
      → k <ℤ x.update_id
      → ItemsAbove k (xs ++ x ∷ [])
  ItemsAbove-snoc k [] x a h = (h, tt)
  ItemsAbove-snoc k (y ∷ xs) x a h = (a.0, ItemsAbove-snoc k xs x a.1 h)

  pub load_row_above :
      (k : ℤ) (enqueued : F → F) (r : Row F) (o : Option Update) (d : Durable F)
      → k <ℤ r.update_id
      → ItemsAbove k d.queue.items
      → ItemsAbove k (load_row enqueued r o d).queue.items
  unfolding load_row
  load_row_above k enqueued r none d h a = a
  load_row_above k enqueued r (some u) d h a = ItemsAbove-snoc k d.queue.items _ a h

  pub load_row_offset :
      (enqueued : F → F) (r : Row F) (o : Option Update) (d : Durable F)
      → (load_row enqueued r o d).queue.consumer_offset ≡ d.queue.consumer_offset
  unfolding load_row
  load_row_offset enqueued r none d = refl
  load_row_offset enqueued r (some u) d = refl

  pub load_row_has :
      (k : ℤ) (enqueued : F → F) (r : Row F) (o : Option Update) (d : Durable F)
      → is_some o ≡ true
      → has_id k (load_row enqueued r o d).queue.items
        ≡ (has_id k d.queue.items || (r.update_id =? k))
  unfolding load_row
  load_row_has k enqueued r none d h = cc
  load_row_has k enqueued r (some u) d h = has_id-snoc k d.queue.items _

  length-insert_by_id :
      (r : Row F) (rs : List (Row F)) → length (insert_by_id r rs) ≡ suc (length rs)
  unfolding insert_by_id
  length-insert_by_id r [] = refl
  length-insert_by_id r (s ∷ rs) = ground (arith, length-insert_by_id r rs)

  pub length-order_by_id : (rs : List (Row F)) → length (order_by_id rs) ≡ length rs
  unfolding order_by_id
  length-order_by_id [] = refl
  length-order_by_id (r ∷ rs) =
      ground (arith, length-insert_by_id r (order_by_id rs), length-order_by_id rs)

  pub limit_rows_all : (n : ℤ) (rs : List (Row F)) → pos (length rs) ≤ℤ n → limit_rows n rs ≡ rs
  unfolding limit_rows
  limit_rows_all (pos n) rs h = take_all n rs h
  limit_rows_all (negsuc n) rs h = refl

  module _ (unmarshal : String → Option Update) where
    pub load_rows_above :
        (k : ℤ) (enqueued : F → F) (rs : List (Row F)) (d : Durable F)
        → RowsAbove k rs
        → ItemsAbove k d.queue.items
        → ItemsAbove k (load_rows unmarshal enqueued rs d).queue.items
    unfolding load_rows
    load_rows_above k enqueued [] d a b = b
    load_rows_above k enqueued (r ∷ rs) d a b =
        load_rows_above k enqueued rs _ a.1
          (load_row_above k enqueued r (unmarshal r.update_json) d a.0 b)

    pub load_rows_offset :
        (enqueued : F → F) (rs : List (Row F)) (d : Durable F)
        → (load_rows unmarshal enqueued rs d).queue.consumer_offset ≡ d.queue.consumer_offset
    unfolding load_rows
    load_rows_offset enqueued [] d = refl
    load_rows_offset enqueued (r ∷ rs) d =
        load_rows_offset enqueued rs _ ∙ load_row_offset enqueued r (unmarshal r.update_json) d

    -- The payload of every row can be read.
    abbrev pub Readable : List (Row F) → Type 0
    Readable = All (λ r. is_some (unmarshal r.update_json) ≡ true)

    pub load_rows_has :
        (k : ℤ) (enqueued : F → F) (rs : List (Row F)) (d : Durable F)
        → Readable rs
        → has_id k (load_rows unmarshal enqueued rs d).queue.items
          ≡ (has_id k d.queue.items || has_row k rs)
    unfolding load_rows
    load_rows_has k enqueued [] d a = ground arith
    load_rows_has k enqueued (r ∷ rs) d a =
        let o = unmarshal r.update_json in
        load_rows_has k enqueued rs (load_row enqueued r o d) a.1
        ∙ ground (arith, load_row_has k enqueued r o d a.0)
