-- ===== src/RateGuard/MtGuard/Flood.antt =====
-- What a FLOOD_WAIT stops: ReportFloodWait of internal/rateguard/mt.go, then any operations of the
-- guard while the peer is backed off.
use tg_session_gateway.Prelude.{
  ℤ, pos, ◌+ℤ◌, ◌≡◌, refl, sym, ◌∙◌, ap, subst, Bool, true, false, not, if◌then◌else◌, Option, none,
  some, List, [], ◌∷◌, arith, find-remove, int_has_eq, eq_ℤ_iff, ◌=?◌, All,
}
use tg_session_gateway.Float64.{Float64, ltf}
use tg_session_gateway.RateGuard.Method.{Text}
use tg_session_gateway.RateGuard.MtGuard.{
  MtGuard, PeerBackoff, FloodType, FloodInfo, flood_wait, flood_premium, slowmode, peer_flood,
  peer_state, set_peer, try_acquire, enter_paid_lane, adaptive, report_peer_flood, report_flood,
  report_info, report_flood_wait, clear_peer_backoff, wait_time,
}
use tg_session_gateway.RateGuard.MtGuard.Peers.{
  set_peer-peer_state, set_chat-peers, peer_state_of_peers, try_acquire-peer_state,
  wait_time-peer_state,
}

-- The operations of the guard that the session calls, with their clock readings.
pub data MtOp (F : Type 0) : Type 0 where
  acquire_op : F → F → Text → Option ℤ → MtOp F
  wait_op : F → F → Text → Option ℤ → MtOp F
  report_op : F → F → Option FloodInfo → Option ℤ → MtOp F
  clear_op : ℤ → MtOp F
  enter_op : Bool → MtOp F

module _ ⦃N : Float64⦄ where
  open N use {F, leb, zero, add, sub, of_int, to_int, leb_refl}

  unfoldable pub mt_step : MtOp F → MtGuard F → MtGuard F
  mt_step (acquire_op now created method chat) g = (try_acquire now created method chat g).0
  mt_step (wait_op now created method chat) g = (wait_time now created method chat g).0
  mt_step (report_op now created info chat) g = report_flood_wait now created info chat g
  mt_step (clear_op chat) g = clear_peer_backoff chat g
  mt_step (enter_op allowed) g = enter_paid_lane allowed g

  unfoldable pub mt_run : List (MtOp F) → MtGuard F → MtGuard F
  mt_run [] g = g
  mt_run (op ∷ ops) g = mt_run ops (mt_step op g)

  abbrev pub is_other : ℤ → Option ℤ → Bool
  is_other peer none = true
  is_other peer (some chat) = not (chat =? peer)

  -- The operation neither reports a flood of the peer nor clears it.
  abbrev pub spares : ℤ → MtOp F → Bool
  spares peer (acquire_op now created method chat) = true
  spares peer (wait_op now created method chat) = true
  spares peer (report_op now created info chat) = is_other peer chat
  spares peer (clear_op chat) = not (chat =? peer)
  spares peer (enter_op allowed) = true

  report_peer_flood-other :
      (peer : ℤ) (now : F) (chat : Option ℤ) (g : MtGuard F)
      → is_other peer chat ≡ true
      → peer_state peer (report_peer_flood now chat g) ≡ peer_state peer g
  unfolding report_peer_flood
  report_peer_flood-other peer now none g h = refl
  report_peer_flood-other peer now (some chat) g h =
      set_peer-peer_state chat peer _ g ∙ ground (arith, h)

  report_flood-other :
      (peer : ℤ) (now created : F) (wait : ℤ) (chat : Option ℤ) (g : MtGuard F)
      → is_other peer chat ≡ true
      → peer_state peer (report_flood now created wait chat g) ≡ peer_state peer g
  unfolding report_flood
  report_flood-other peer now created wait none g h = peer_state_of_peers peer _ g refl
  report_flood-other peer now created wait (some chat) g h =
      peer_state_of_peers peer _ _ (set_chat-peers chat _ _)
      ∙ set_peer-peer_state chat peer _ g
      ∙ ground (arith, h)

  report_info-other :
      (peer : ℤ) (now created : F) (type : FloodType) (wait : ℤ) (chat : Option ℤ) (g : MtGuard F)
      → is_other peer chat ≡ true
      → peer_state peer (report_info now created type wait chat g) ≡ peer_state peer g
  unfolding report_info
  report_info-other peer now created peer_flood wait chat g h =
      report_peer_flood-other peer now chat g h
  report_info-other peer now created slowmode wait chat g h =
      ground (arith, report_flood-other peer now created wait chat g)
  report_info-other peer now created flood_wait wait chat g h =
      report_flood-other peer now created wait chat g h
  report_info-other peer now created flood_premium wait chat g h =
      report_flood-other peer now created wait chat g h

  report-other :
      (peer : ℤ) (now created : F) (info : Option FloodInfo) (chat : Option ℤ) (g : MtGuard F)
      → is_other peer chat ≡ true
      → peer_state peer (report_flood_wait now created info chat g) ≡ peer_state peer g
  unfolding report_flood_wait
  report-other peer now created none chat g h = refl
  report-other peer now created (some info) chat g h =
      report_info-other peer now created info.type info.wait chat g h

  clear-other :
      (peer chat : ℤ) (g : MtGuard F)
      → (chat =? peer) ≡ false
      → peer_state peer (clear_peer_backoff chat g) ≡ peer_state peer g
  unfolding clear_peer_backoff peer_state
  clear-other peer chat g h = ground (arith, find-remove chat peer g.peer_backoffs)

  mt_step-peer_state :
      (peer : ℤ) (op : MtOp F) (g : MtGuard F)
      → spares peer op ≡ true
      → peer_state peer (mt_step op g) ≡ peer_state peer g
  unfolding mt_step enter_paid_lane
  mt_step-peer_state peer (acquire_op now created method chat) g h =
      try_acquire-peer_state peer now created method chat g
  mt_step-peer_state peer (wait_op now created method chat) g h =
      wait_time-peer_state peer now created method chat g
  mt_step-peer_state peer (report_op now created info chat) g h =
      report-other peer now created info chat g h
  mt_step-peer_state peer (clear_op chat) g h = clear-other peer chat g (ground arith)
  mt_step-peer_state peer (enter_op allowed) g h = peer_state_of_peers peer _ g refl

  mt_run-peer_state :
      (peer : ℤ) (ops : List (MtOp F)) (g : MtGuard F)
      → All (λ op. spares peer op ≡ true) ops
      → peer_state peer (mt_run ops g) ≡ peer_state peer g
  unfolding mt_run
  mt_run-peer_state peer [] g h = refl
  mt_run-peer_state peer (op ∷ ops) g h =
      mt_run-peer_state peer ops (mt_step op g) h.1 ∙ mt_step-peer_state peer op g h.0

  -- The flood is one that the guard acts on.
  abbrev pub counts : FloodType → MtGuard F → Bool
  counts flood_wait g = true
  counts flood_premium g = true
  counts peer_flood g = true
  counts slowmode g = g.mt.slowmode_respect

  -- For how long a report of a flood backs the peer off.
  abbrev pub flood_pause : FloodType → ℤ → ℤ → MtGuard F → F
  flood_pause peer_flood wait chat g = g.mt.peer_flood_cooldown
  flood_pause flood_wait wait chat g = adaptive wait ((peer_state chat g).offences +ℤ pos 1) g
  flood_pause flood_premium wait chat g = adaptive wait ((peer_state chat g).offences +ℤ pos 1) g
  flood_pause slowmode wait chat g = adaptive wait ((peer_state chat g).offences +ℤ pos 1) g

  -- The peer has one offence more, and is backed off for `seconds` from `now` on.
  abbrev pub BackedOff : F → F → PeerBackoff F → PeerBackoff F → Type 0
  BackedOff now seconds before after =
      (after.offences ≡ before.offences +ℤ pos 1) × (after.paused_until ≡ add now seconds)

  set_peer_self :
      (chat : ℤ) (pb : PeerBackoff F) (g : MtGuard F) → peer_state chat (set_peer chat pb g) ≡ pb
  set_peer_self chat pb g = set_peer-peer_state chat chat pb g ∙ ground (arith, eq_ℤ_iff chat chat)

  report_flood-BackedOff :
      (now created : F) (wait chat : ℤ) (g : MtGuard F)
      → BackedOff now
          (adaptive wait ((peer_state chat g).offences +ℤ pos 1) g)
          (peer_state chat g)
          (peer_state chat (report_flood now created wait (some chat) g))
  unfolding report_flood
  report_flood-BackedOff now created wait chat g =
      subst
        (BackedOff now (adaptive wait ((peer_state chat g).offences +ℤ pos 1) g)
          (peer_state chat g))
        (sym (peer_state_of_peers chat _ _ (set_chat-peers chat _ _) ∙ set_peer_self chat _ g))
        (refl, refl)

  -- A report of a flood for a chat counts one more offence of that peer and backs it off from now
  -- on: for the configured cooldown after a peer_flood, and otherwise for the reported wait times
  -- the base to the power of the offences before, an hour at most.
  pub report_info-BackedOff :
      (now created : F) (type : FloodType) (wait chat : ℤ) (g : MtGuard F)
      → counts type g ≡ true
      → BackedOff now
          (flood_pause type wait chat g)
          (peer_state chat g)
          (peer_state chat (report_info now created type wait (some chat) g))
  unfolding report_info report_peer_flood
  report_info-BackedOff now created peer_flood wait chat g h =
      rw (set_peer_self chat _ g) (refl, refl)
  report_info-BackedOff now created slowmode wait chat g h =
      subst
        (λ r.
          BackedOff now (adaptive wait ((peer_state chat g).offences +ℤ pos 1) g)
            (peer_state chat g)
            (peer_state chat (if not r then g else report_flood now created wait (some chat) g)))
        (sym h) (report_flood-BackedOff now created wait chat g)
  report_info-BackedOff now created flood_wait wait chat g h =
      report_flood-BackedOff now created wait chat g
  report_info-BackedOff now created flood_premium wait chat g h =
      report_flood-BackedOff now created wait chat g

  refused_while_backed_off :
      (at created : F) (method : Text) (chat : ℤ) (g : MtGuard F)
      → ltf at (peer_state chat g).paused_until ≡ true
      → (try_acquire at created method (some chat) g).1 ≡ false
  unfolding try_acquire
  refused_while_backed_off at created method chat g h = rw h refl

  -- After a flood that counts is reported for a chat, every call to that chat is refused until its
  -- backoff is over, the fast methods and the reads included (the backoff is kept for each chat,
  -- and not for each method), whatever calls, waits and entries to
  -- the paid lane come in between and whatever is reported or cleared for other chats.
  pub try_acquire-report_flood_wait :
      (now created at created' : F) (info : FloodInfo) (chat : ℤ) (method : Text)
      (ops : List (MtOp F)) (g : MtGuard F)
      → counts info.type g ≡ true
      → All (λ op. spares chat op ≡ true) ops
      → ltf at (add now (flood_pause info.type info.wait chat g)) ≡ true
      → (try_acquire at created' method
          (some chat)
          (mt_run ops (report_flood_wait now created (some info) (some chat) g))).1
        ≡ false
  unfolding report_flood_wait
  try_acquire-report_flood_wait now created at created' info chat method ops g c s h =
      let g' = report_info now created info.type info.wait (some chat) g in
      let until = (report_info-BackedOff now created info.type info.wait chat g c).1 in
      refused_while_backed_off at created' method chat (mt_run ops g') (
        ap (λ pb. ltf at pb.paused_until) (mt_run-peer_state chat ops g' s) ∙ ap (ltf at) until ∙ h)
