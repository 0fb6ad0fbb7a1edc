-- ===== src/Mtproto/Session/Feed/Numbers.antt =====
-- The numbers that pushUpdate of internal/mtproto/sessions.go gives to updates, and the rows.
use tg_session_gateway.Prelude.{
  ℤ, pos, negsuc, ◌+ℤ◌, ◌≤ℤ◌, ◌<ℤ◌, +ℤ_parts, ◌≡◌, refl, Bool, true, false, Option, none, some,
  List, [], ◌∷◌, ◌++◌, String, All, arith,
}
use tg_session_gateway.Float64.{Float64}
use tg_session_gateway.Store.Queue.{wrap64}
use tg_session_gateway.Store.Queue.Table.{Row}
use tg_session_gateway.Mtproto.Session.Feed.{
  FeedUpdate, Feed, queue_push, route, numbered, push_update, raise_seq, replay_seq, replay_backlog,
}

module _ {F : Type 0} where
  abbrev pub RowsUpTo : ℤ → List (Row F) → Type 0
  RowsUpTo k = All (λ r. r.update_id ≤ℤ k)

  -- Each row has a higher number than the ones before it.
  abbrev pub Increasing : List (Row F) → Type 0
  Increasing [] = Unit {0}
  Increasing (r ∷ rs) = All (λ s. r.update_id <ℤ s.update_id) rs × Increasing rs

  RowsUpTo-snoc :
      (j k : ℤ) (r : Row F) (rs : List (Row F))
      → j ≤ℤ k
      → r.update_id ≤ℤ k
      → RowsUpTo j rs
      → RowsUpTo k (rs ++ r ∷ [])
  RowsUpTo-snoc j k r [] h i a = (i, tt)
  RowsUpTo-snoc j k r (s ∷ rs) h i a = ground (arith, RowsUpTo-snoc j k r rs h i)

  RowsUpTo-le : (j k : ℤ) (rs : List (Row F)) → j ≤ℤ k → RowsUpTo j rs → RowsUpTo k rs
  RowsUpTo-le j k [] h a = tt
  RowsUpTo-le j k (s ∷ rs) h a = ground (arith, RowsUpTo-le j k rs h)

  All-above-snoc :
      (k : ℤ) (r : Row F) (rs : List (Row F))
      → k <ℤ r.update_id
      → All (λ s. k <ℤ s.update_id) rs
      → All (λ s. k <ℤ s.update_id) (rs ++ r ∷ [])
  All-above-snoc k r [] h a = (h, tt)
  All-above-snoc k r (s ∷ rs) h a = (a.0, All-above-snoc k r rs h a.1)

  Increasing-snoc :
      (k : ℤ) (r : Row F) (rs : List (Row F))
      → k <ℤ r.update_id
      → RowsUpTo k rs
      → Increasing rs
      → Increasing (rs ++ r ∷ [])
  Increasing-snoc k r [] h a i = (tt, tt)
  Increasing-snoc k r (s ∷ rs) h a i =
      (All-above-snoc s.update_id r rs (ground arith) i.0, Increasing-snoc k r rs h a.1 i.1)

module _ ⦃N : Float64⦄ where
  open N use {F}

  -- The rows are in the order of their numbers, and the next number is above them.
  abbrev pub IsNumbered : Feed F → Type 0
  IsNumbered d = RowsUpTo d.next_seq d.rows × Increasing d.rows

  queue_push-IsNumbered :
      (ok : Bool) (k seq : ℤ) (json : String) (wall : F) (d : Feed F)
      → k <ℤ seq
      → d.next_seq ≡ seq
      → RowsUpTo k d.rows
      → Increasing d.rows
      → IsNumbered (queue_push ok seq json wall d)
  unfolding queue_push
  queue_push-IsNumbered true k seq json wall d h e a i = (
    RowsUpTo-snoc k d.next_seq _ d.rows (ground arith) (ground arith) a,
    Increasing-snoc k _ d.rows h a i,
  )
  queue_push-IsNumbered false k seq json wall d h e a i =
      (RowsUpTo-le k d.next_seq d.rows (ground arith) a, i)

  route-IsNumbered :
      (push_ok letter_ok : Bool) (u : FeedUpdate F) (k seq : ℤ) (wall : F) (letter : String)
      (json : Option String) (d : Feed F)
      → k <ℤ seq
      → d.next_seq ≡ seq
      → RowsUpTo k d.rows
      → Increasing d.rows
      → IsNumbered (route push_ok letter_ok u seq wall letter json d)
  unfolding route
  route-IsNumbered push_ok true u k seq wall letter none d h e a i =
      (RowsUpTo-le k d.next_seq d.rows (ground arith) a, i)
  route-IsNumbered push_ok false u k seq wall letter none d h e a i =
      (RowsUpTo-le k d.next_seq d.rows (ground arith) a, i)
  route-IsNumbered push_ok letter_ok u k seq wall letter (some json) d h e a i =
      queue_push-IsNumbered push_ok k seq json wall d h e a i

  next_number :
      (n : ℤ)
      → n <ℤ pos 0x7fff_ffff_ffff_ffff
      → negsuc 0x7fff_ffff_ffff_ffff ≤ℤ n
      → n <ℤ wrap64 (n +ℤ pos 1)
  unfolding wrap64
  next_number n h l = ground (arith, +ℤ_parts n (pos 1))

  -- pushUpdate keeps the rows in the order of their numbers and the next number above them, whether
  -- or not the update can be encoded and its row or dead letter written, while the numbers last.
  pub push_update-IsNumbered :
      (marshal : FeedUpdate F → Option String) (printed : FeedUpdate F → String)
      (push_ok letter_ok : Bool) (wall : F) (content : String) (d : Feed F)
      → pos 0 ≤ℤ d.next_seq
      → d.next_seq <ℤ pos 0x7fff_ffff_ffff_ffff
      → IsNumbered d
      → IsNumbered (push_update marshal printed push_ok letter_ok wall content d)
  unfolding push_update
  push_update-IsNumbered marshal printed push_ok letter_ok wall content d l h v =
      let seq = wrap64 (d.next_seq +ℤ pos 1) in
      let u = numbered seq wall content in
      route-IsNumbered push_ok letter_ok u d.next_seq seq wall (printed u) (marshal u)
        (record d { next_seq = seq; last_update_at = wall })
        (next_number d.next_seq h (ground arith)) refl v.0 v.1

  -- A number that is given is at most `k`.
  abbrev pub IsUpTo : ℤ → Option ℤ → Type 0
  IsUpTo k none = Unit {0}
  IsUpTo k (some seq) = seq ≤ℤ k

  raise_seq_lem : (n : ℤ) (o : Option ℤ) → (n ≤ℤ raise_seq n o) × IsUpTo (raise_seq n o) o
  unfolding raise_seq
  raise_seq_lem n none = (ground arith, tt)
  raise_seq_lem n (some seq) = ground arith

  IsUpTo-le : (j k : ℤ) (o : Option ℤ) → j ≤ℤ k → IsUpTo j o → IsUpTo k o
  IsUpTo-le j k none h i = tt
  IsUpTo-le j k (some seq) h i = ground arith

  replay_seq_lem :
      (us : List (FeedUpdate F)) (n : ℤ)
      → (n ≤ℤ replay_seq us n) × All (λ u. IsUpTo (replay_seq us n) u.gw_seq) us
  unfolding replay_seq
  replay_seq_lem [] n = (ground arith, tt)
  replay_seq_lem (u ∷ us) n =
      let (a, b) = raise_seq_lem n u.gw_seq in
      let (c, d) = replay_seq_lem us (raise_seq n u.gw_seq) in
      (ground (arith, a, c), (IsUpTo-le _ _ u.gw_seq c b, d))

  -- After the backlog is replayed the next update's number is above those of all that was
  -- replayed, and not below what it would have been.
  pub replay_backlog-IsUpTo :
      (us : List (FeedUpdate F)) (d : Feed F)
      → let d' = replay_backlog us d in
        (d.next_seq ≤ℤ d'.next_seq) × All (λ u. IsUpTo d'.next_seq u.gw_seq) us
  unfolding replay_backlog
  replay_backlog-IsUpTo us d = replay_seq_lem us d.next_seq
