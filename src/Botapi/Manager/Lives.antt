-- ===== src/Botapi/Manager/Lives.antt =====
-- Pause, Resume and Delete of internal/botapi/session.go on one alias.
use tg_session_gateway.Prelude.{
  sym, subst, Every, All, if_both, find-put, nat_has_eq, ℕ, ◌≡◌, refl, ◌∙◌, ap, Bool, true, false,
  not, Option, none, some, is_some, List, [], ◌∷◌, String, string_has_eq, ◌=?◌, =?_refl, find,
  find-put_self, find-remove, keep, length, arith,
}
use tg_session_gateway.Store.Gateway.{BotRow, Bots, delete_bot, update_bot, set_paused}
use tg_session_gateway.Botapi.Typing.{
  ActiveLoop, ChatKey, Typing, of_bot, mark, edit_found, edit, cancel_each, stop_all, active_count,
}
use tg_session_gateway.Botapi.Session.{live, paused, draining, Session}
use tg_session_gateway.Botapi.Manager.{
  Manager, get, pause_found, pause, resume_found, resume, delete_found, delete, cancelled_if,
  started_if_nil,
}

none_kept :
    (name : String) (es : List (ChatKey × ℕ))
    → length (keep (of_bot name) (keep (λ e. not (of_bot name e)) es)) ≡ 0
none_kept name [] = refl
none_kept name (e ∷ es) = ground (arith, none_kept name es)

pub active_count-stop_all :
    {F : Type 0} (name : String) (t : Typing F) → active_count name (stop_all name t) ≡ 0
unfolding active_count stop_all
active_count-stop_all name t = none_kept name t.active

-- The loop at an address, if there is one, has its context cancelled.
abbrev pub IsCancelled : {F : Type 0} → ℕ → List (ℕ × ActiveLoop F) → Type 0
IsCancelled p loops = Every (λ l. l.cancelled ≡ true) (find p loops)

edit_found-mark :
    {F : Type 0} (p : ℕ) (o : Option (ActiveLoop F)) (loops : List (ℕ × ActiveLoop F))
    → find p loops ≡ o
    → IsCancelled p (edit_found mark p o loops)
edit_found-mark p none loops e = rw e tt
edit_found-mark p (some r) loops e = rw (find-put_self p (mark r) loops) refl

edit_found-IsCancelled :
    {F : Type 0} (p q : ℕ) (o : Option (ActiveLoop F)) (loops : List (ℕ × ActiveLoop F))
    → IsCancelled p loops
    → IsCancelled p (edit_found mark q o loops)
edit_found-IsCancelled p q none loops h = h
edit_found-IsCancelled p q (some r) loops h =
    subst (Every (λ l. l.cancelled ≡ true)) (sym (find-put q p (mark r) loops))
      (if_both (Every (λ l. l.cancelled ≡ true)) (q =? p) (some (mark r)) (find p loops) refl h)

cancel_each-IsCancelled :
    {F : Type 0} (p : ℕ) (es : List (ChatKey × ℕ)) (loops : List (ℕ × ActiveLoop F))
    → IsCancelled p loops
    → IsCancelled p (cancel_each es loops)
unfolding cancel_each edit
cancel_each-IsCancelled p [] loops h = h
cancel_each-IsCancelled p (e ∷ es) loops h =
    cancel_each-IsCancelled p es _ (edit_found-IsCancelled p e.1 (find e.1 loops) loops h)

cancel_each-All :
    {F : Type 0} (es : List (ChatKey × ℕ)) (loops : List (ℕ × ActiveLoop F))
    → All (λ e. IsCancelled e.1 (cancel_each es loops)) es
unfolding cancel_each edit
cancel_each-All [] loops = tt
cancel_each-All (e ∷ es) loops = (
  cancel_each-IsCancelled e.1 es _ (edit_found-mark e.1 (find e.1 loops) loops refl),
  cancel_each-All es _,
)

pub stop_all-IsCancelled :
    {F : Type 0} (name : String) (t : Typing F)
    → All (λ e. IsCancelled e.1 (stop_all name t).loops) (keep (of_bot name) t.active)
unfolding stop_all
stop_all-IsCancelled name t = cancel_each-All (keep (of_bot name) t.active) t.loops

-- After Delete of a session there is no session of the alias, and no row of it, since the DELETE
-- goes through. Every typing loop that the bot had is cancelled, and none is counted any more. The
-- session itself is left draining, with the contexts of its poller and of its push health check
-- cancelled and its queue closed. The sessions of every other alias are as they were.
pub get-delete :
    {F : Type 0} (name other : String) (s : Session F) (m : Manager F)
    → get name m ≡ some s
    → (name =? other) ≡ false
    → let r = delete true name m in
      (r.1 ≡ true)
      × (get name r.0 ≡ none)
      × (find name r.0.bots ≡ none)
      × (active_count s.name r.0.typing ≡ 0)
      × All (λ e. IsCancelled e.1 r.0.typing.loops) (keep (of_bot s.name) m.typing.active)
      × (r.0.gone
          ≡ record s {
            state = draining;
            poll_cancelled = cancelled_if s.poll_cancelled;
            push_cancelled = cancelled_if s.push_cancelled;
            queue = record s.queue { persistent = false };
          }
            ∷ m.gone)
      × (get other r.0 ≡ get other m)
unfolding delete get delete_found delete_bot
get-delete name other s m h n = rw h (
  refl,
  rw (find-remove name name m.sessions, =?_refl name),
  rw (find-remove name name m.bots, =?_refl name),
  active_count-stop_all s.name m.typing,
  stop_all-IsCancelled s.name m.typing,
  refl,
  rw (find-remove name other m.sessions, n),
)

get-pause :
    {F : Type 0} (a : Bool) (name : String) (s : Session F) (m : Manager F)
    → get name m ≡ some s
    → get name (pause a name m).0
      ≡ some (record s { state = paused; poll_cancelled = cancelled_if s.poll_cancelled })
unfolding pause pause_found get
get-pause a name s m h = rw h (
    find-put_self name (record s { state = paused; poll_cancelled = cancelled_if s.poll_cancelled })
      m.sessions)

get-resume :
    {F : Type 0} (b : Bool) (name : String) (s : Session F) (m : Manager F)
    → get name m ≡ some s
    → get name (resume b name m).0
      ≡ some (record s { state = live; poll_cancelled = started_if_nil s.poll_cancelled })
unfolding resume resume_found get
get-resume b name s m h = rw h (
    find-put_self name (record s { state = live; poll_cancelled = started_if_nil s.poll_cancelled })
      m.sessions)

still_cancelled : (o : Option Bool) → is_some o ≡ true → started_if_nil (cancelled_if o) ≡ some true
still_cancelled none p = absurd (ground (arith, p))
still_cancelled (some b) p = refl

update_bot-row :
    (name : String) (f : BotRow → BotRow) (r : BotRow) (bots : Bots)
    → find name bots ≡ some r
    → find name (update_bot name f (find name bots) bots) ≡ some (f r)
unfolding update_bot
update_bot-row name f r bots h = rw h (find-put_self name (f r) bots)

pause_row :
    {F : Type 0} (name : String) (s : Session F) (r : BotRow) (m : Manager F)
    → get name m ≡ some s
    → find name m.bots ≡ some r
    → find name (pause true name m).0.bots ≡ some (record r { paused = true })
unfolding pause pause_found set_paused
pause_row name s r m h k = rw h (update_bot-row name (λ x. record x { paused = true }) r m.bots k)

-- The row of the alias after a Pause and a Resume that both reached the table.
resume-pause_row :
    {F : Type 0} (name : String) (s : Session F) (r : BotRow) (m : Manager F)
    → get name m ≡ some s
    → find name m.bots ≡ some r
    → find name (resume true name (pause true name m).0).0.bots ≡ some (record r { paused = false })
unfolding resume resume_found set_paused
resume-pause_row name s r m h k = rw (get-pause true name s m h) (
    update_bot-row name (λ x. record x { paused = false }) (record r { paused = true })
      (pause true name m).0.bots (pause_row name s r m h k))

-- Resume after Pause of a session that had a poller, both with the UPDATE of the row going through:
-- the session is live again and its row is not paused, but its poller's context stays cancelled,
-- and no other poller is started.
pub resume-pause :
    {F : Type 0} (name : String) (s : Session F) (row : BotRow) (m : Manager F)
    → get name m ≡ some s
    → find name m.bots ≡ some row
    → is_some s.poll_cancelled ≡ true
    → let r = (resume true name (pause true name m).0).0 in
      (get name r ≡ some (record s { state = live; poll_cancelled = some true }))
      × (find name r.bots ≡ some (record row { paused = false }))
resume-pause name s row m h k p = (
  get-resume true name (record s { state = paused; poll_cancelled = cancelled_if s.poll_cancelled })
        (pause true name m).0 (get-pause true name s m h)
      ∙ ap (λ c. some (record s { state = live; poll_cancelled = c }))
          (still_cancelled s.poll_cancelled p),
  resume-pause_row name s row m h k,
)
