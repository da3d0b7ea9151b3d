-- ===== src/Bot/Trail/Laws.antt =====
-- The stop and the peak of an open position, through ticks, heartbeats and restarts of the service.
use nest_js_mega_backend.Prelude.{
  ◌≡◌, refl, sym, Bool, true, false, Option, none, some, List, [], ◌∷◌, String, if◌then◌else◌,
  if_holds, or_else, ◌∙◌, ◌===◌, text_iff,
}
use nest_js_mega_backend.Prelude.Double.{Double, IsOrdered, IsUnder}
use nest_js_mega_backend.Prelude.Order.{IsUnder-refl}
use nest_js_mega_backend.Bot.Exit.{SoftExitReason}
use nest_js_mega_backend.BotV2.ProfitLock.{ProfitLockLadder}
use nest_js_mega_backend.BotV2.ProfitLock.Laws.{ratchet_profit_lock_monotone}
use nest_js_mega_backend.Bot.Trail.{
  Trail, TrailPosition, TrailState, TrailResult, Tick, Quoted, TrailEvent, tick_event,
  heartbeat_event, restart_event, trail_of, rehydrated, ensure_held, ensure_trail_state, stamped,
  write_trail, flush_of, flush_trail_state, ratchet_input, trail_after, stored, ticked, quoted_for,
  reason_for, before_close, check_position, check_for, check_soft_stop_and_targets, flush_open,
  check_spot, watch_trail, heartbeat_trail, handle_trail, then_trail, run_trail,
}
use mathlib.Core.Path.{subst}

module _ {N : Type 0} ⦃d : Double N⦄ (laws : IsOrdered N) where
  open laws use {le_refl, le_trans}

  pub IsUnder-trans : (a b c : Option N) → IsUnder a b → IsUnder b c → IsUnder a c
  IsUnder-trans none b c h k = tt
  IsUnder-trans (some a) none c h k = elim h [ ]
  IsUnder-trans (some a) (some b) none h k = elim k [ ]
  IsUnder-trans (some a) (some b) (some c) h k = le_trans a b c h k

  -- The memory's stop and peak are not under those of the row.
  abbrev pub IsOver : TrailPosition N → Option (Trail N) → Type 0
  IsOver p none = Unit
  IsOver p (some t) = IsUnder p.stop_premium t.stop_premium × IsUnder p.peak_bid (some t.peak_bid)

  -- The row still has the position, with a stop and a peak not under those it had, and the memory is
  -- not behind the row.
  abbrev pub IsClimbed : TrailPosition N → TrailState N → Type 0
  IsClimbed p st =
      (q : TrailPosition N) × (st.open_position ≡ some q)
      × (q.symbol ≡ p.symbol)
      × IsUnder p.stop_premium q.stop_premium
      × IsUnder p.peak_bid q.peak_bid
      × IsOver q (trail_of q.symbol st.trail)

  IsOver-trail_of :
      (p : TrailPosition N) (symbol : String) (t : Trail N)
      → IsOver p (some t)
      → IsOver p (trail_of symbol (some t))
  IsOver-trail_of p symbol t h =
      if_holds (IsOver p) (t.symbol === symbol) (some t) none (λ _. h) (λ _. tt)

  IsUnder-or_else : (a : Option N) (b : N) → IsUnder a (some (or_else a b))
  IsUnder-or_else none b = tt
  IsUnder-or_else (some a) b = le_refl a

  stays :
      (p : TrailPosition N) (st : TrailState N)
      → st.open_position ≡ some p
      → IsOver p (trail_of p.symbol st.trail)
      → IsClimbed p st
  stays p st e over =
      (p, e, refl, IsUnder-refl laws p.stop_premium, IsUnder-refl laws p.peak_bid, over)

  ensure_held-IsClimbed :
      (commission : N) (ladder : ProfitLockLadder N) (p : TrailPosition N) (held : Option (Trail N))
      (st : TrailState N)
      → st.open_position ≡ some p
      → IsOver p (trail_of p.symbol st.trail)
      → IsClimbed p (ensure_held commission ladder p held st)
  ensure_held-IsClimbed commission ladder p none st e over =
      let made = rehydrated commission ladder p in
      stays p (record st { trail = some made }) e
        (IsOver-trail_of p p.symbol made
          (IsUnder-refl laws p.stop_premium, IsUnder-or_else p.peak_bid p.entry_price))
  ensure_held-IsClimbed commission ladder p (some t) st e over = stays p st e over

  then_of :
      {A : Type 0} (P : A → Type 0) (b : Bool) (x y : A) → b ≡ true → P (if b then x else y) → P x
  then_of P true x y e h = h
  then_of P false x y e h = cc

  trail_of_back :
      (t : Trail N) (p : TrailPosition N)
      → p.symbol ≡ t.symbol
      → IsOver p (trail_of p.symbol (some t))
      → IsOver p (some t)
  trail_of_back t p same over =
      then_of (IsOver p) (t.symbol === p.symbol) (some t) none
        ((text_iff t.symbol p.symbol).1 (sym same)) over

  -- A trail that is over the position of its symbol is written over it.
  write_trail-IsClimbed :
      (t : Trail N) (p : TrailPosition N) (st : TrailState N)
      → st.open_position ≡ some p
      → IsOver p (trail_of p.symbol (some t))
      → IsClimbed p (write_trail t (some p) st)
  write_trail-IsClimbed t p st e over =
      if_holds (IsClimbed p) (p.symbol === t.symbol) _ _
        (λ same.
          let (stop, peak) = trail_of_back t p ((text_iff p.symbol t.symbol).0 same) over in
          (
            stamped t p,
            refl,
            refl,
            stop,
            peak,
            IsOver-trail_of (stamped t p) p.symbol (record t { dirty = false })
                (IsUnder-refl laws t.stop_premium, le_refl t.peak_bid),
          ))
        (λ _. stays p (record st { trail = none }) e tt)

  flush_of-IsClimbed :
      (t : Option (Trail N)) (p : TrailPosition N) (st : TrailState N)
      → st.open_position ≡ some p
      → st.trail ≡ t
      → IsOver p (trail_of p.symbol t)
      → IsClimbed p (flush_of t st)
  flush_of-IsClimbed none p st e held over = stays p st e (rw held tt)
  flush_of-IsClimbed (some t) p st e held over =
      if_holds (IsClimbed p) t.dirty (write_trail t st.open_position st) st
        (λ _.
          subst (λ (o : Option (TrailPosition N)). IsClimbed p (write_trail t o st)) (sym e)
            (write_trail-IsClimbed t p st e over))
        (λ _. stays p st e (rw held over))

  trail_after-IsOver :
      (p : TrailPosition N) (t : Option (Trail N)) (bid : Option N)
      → IsOver p t
      → IsOver p (trail_after t bid)
  trail_after-IsOver p none bid h = tt
  trail_after-IsOver p (some t) none h = h
  trail_after-IsOver p (some t) (some bid) (stop, peak) =
      let (top, e, kept, _, high, _) = ratchet_profit_lock_monotone laws (ratchet_input t bid) in
      (
        rw e (IsUnder-trans p.stop_premium t.stop_premium (some top) stop kept),
        IsUnder-trans p.peak_bid (some t.peak_bid) _ peak high,
      )

  stored-IsOver :
      (p : TrailPosition N) (t memory : Option (Trail N))
      → IsOver p t
      → IsOver p (trail_of p.symbol memory)
      → IsOver p (trail_of p.symbol (stored t memory))
  stored-IsOver p none memory h k = k
  stored-IsOver p (some t) memory h k = IsOver-trail_of p p.symbol t h

  ticked-IsClimbed :
      (p : TrailPosition N) (bid : Option N) (quoted : Quoted N) (tick : Tick N) (st : TrailState N)
      → st.open_position ≡ some p
      → IsOver p (trail_of p.symbol st.trail)
      → IsClimbed p (ticked p bid quoted tick st)
  unfolding ticked
  ticked-IsClimbed p bid quoted tick st e over =
      let after = trail_after (trail_of p.symbol st.trail) bid in
      stays p (ticked p bid quoted tick st) e (
        stored-IsOver p after st.trail (trail_after-IsOver p (trail_of p.symbol st.trail) bid over)
          over)

  -- What climbs twice, climbs.
  climbs :
      (p q : TrailPosition N) (st : TrailState N)
      → q.symbol ≡ p.symbol
      → IsUnder p.stop_premium q.stop_premium
      → IsUnder p.peak_bid q.peak_bid
      → IsClimbed q st
      → IsClimbed p st
  climbs p q st same stop peak (r, e, same', stop', peak', over) = (
    r,
    e,
    same' ∙ same,
    IsUnder-trans p.stop_premium q.stop_premium r.stop_premium stop stop',
    IsUnder-trans p.peak_bid q.peak_bid r.peak_bid peak peak',
    over,
  )

  -- An operation that keeps what is over the position, after another one that does.
  next :
      (p : TrailPosition N) (st st' : TrailState N)
      → IsClimbed p st
      → ((q : TrailPosition N)
          → st.open_position ≡ some q
          → IsOver q (trail_of q.symbol st.trail)
          → IsClimbed q st')
      → IsClimbed p st'
  next p st st' (q, e, same, stop, peak, over) f = climbs p q st' same stop peak (f q e over)

  flush-IsClimbed :
      (p : TrailPosition N) (st : TrailState N)
      → IsClimbed p st
      → IsClimbed p (flush_trail_state st)
  unfolding flush_trail_state
  flush-IsClimbed p st h =
      next p st (flush_trail_state st) h λ q e over. flush_of-IsClimbed st.trail q st e refl over

  before_close-IsClimbed :
      (p : TrailPosition N) (reason : Option SoftExitReason) (st : TrailState N)
      → IsClimbed p st
      → IsClimbed p (before_close reason st).state
  before_close-IsClimbed p none st h = h
  before_close-IsClimbed p (some reason) st h = flush-IsClimbed p st h

  check_for-IsClimbed :
      (p : TrailPosition N) (tick : Tick N) (st : TrailState N)
      → st.open_position ≡ some p
      → IsOver p (trail_of p.symbol st.trail)
      → IsClimbed p (check_for (some p) tick st).state
  unfolding check_position
  check_for-IsClimbed p tick st e over =
      let quoted = quoted_for p tick st in
      if_holds (λ (r : TrailResult N). IsClimbed p r.state) st.has_lane (check_position p tick st)
        (record { state = st; reason = none })
        (λ _.
          before_close-IsClimbed p (reason_for p quoted.option_bid tick st)
            (ticked p quoted.option_bid quoted tick st)
            (ticked-IsClimbed p quoted.option_bid quoted tick st e over))
        (λ _. stays p st e over)

  check-IsClimbed :
      (p : TrailPosition N) (tick : Tick N) (st : TrailState N)
      → IsClimbed p st
      → IsClimbed p (check_soft_stop_and_targets tick st).state
  unfolding check_soft_stop_and_targets
  check-IsClimbed p tick st h = next p st (check_soft_stop_and_targets tick st).state h λ q e over.
      subst (λ (o : Option (TrailPosition N)). IsClimbed q (check_for o tick st).state) (sym e)
        (check_for-IsClimbed q tick st e over)

  check_spot-IsClimbed :
      (p : TrailPosition N) (tick : Option (Tick N)) (st : TrailState N)
      → IsClimbed p st
      → IsClimbed p (check_spot tick st).state
  check_spot-IsClimbed p none st h = h
  check_spot-IsClimbed p (some tick) st h = check-IsClimbed p tick st h

  flush_open-IsClimbed :
      (p : TrailPosition N) (st : TrailState N) (reason : Option SoftExitReason)
      → IsClimbed p st
      → IsClimbed p (flush_open (record { state = st; reason = reason })).state
  flush_open-IsClimbed p st none h = flush-IsClimbed p st h
  flush_open-IsClimbed p st (some reason) h = h

  heartbeat-IsClimbed :
      (commission : N) (ladder : ProfitLockLadder N) (p : TrailPosition N) (tick : Option (Tick N))
      (st : TrailState N)
      → IsClimbed p st
      → IsClimbed p (heartbeat_trail commission ladder tick st).state
  unfolding heartbeat_trail ensure_trail_state
  heartbeat-IsClimbed commission ladder p tick st h =
      next p st (heartbeat_trail commission ladder tick st).state h λ q e over.
        let st' = ensure_trail_state commission ladder q st in
        let checked = check_spot tick st' in
        subst
          (λ (o : Option (TrailPosition N)).
            IsClimbed q (watch_trail commission ladder o tick st).state)
          (sym e)
          (flush_open-IsClimbed q checked.state checked.reason (
            check_spot-IsClimbed q tick st'
              (ensure_held-IsClimbed commission ladder q (trail_of q.symbol st.trail) st e over)))

  handle_trail-IsClimbed :
      (commission : N) (ladder : ProfitLockLadder N) (p : TrailPosition N) (event : TrailEvent N)
      (st : TrailState N)
      → IsClimbed p st
      → IsClimbed p (handle_trail commission ladder event st).state
  handle_trail-IsClimbed commission ladder p (tick_event tick) st h = check-IsClimbed p tick st h
  handle_trail-IsClimbed commission ladder p (heartbeat_event tick) st h =
      heartbeat-IsClimbed commission ladder p tick st h
  handle_trail-IsClimbed commission ladder p restart_event st (q, e, same, stop, peak, over) =
      (q, e, same, stop, peak, tt)

  then_trail-IsClimbed :
      (p : TrailPosition N) (go : TrailState N → TrailResult N) (st : TrailState N)
      (reason : Option SoftExitReason)
      → IsClimbed p st
      → IsClimbed p (go st).state
      → IsClimbed p (then_trail go (record { state = st; reason = reason })).state
  then_trail-IsClimbed p go st none h k = k
  then_trail-IsClimbed p go st (some reason) h k = h

  run-IsClimbed :
      (commission : N) (ladder : ProfitLockLadder N) (events : List (TrailEvent N))
      (p : TrailPosition N) (st : TrailState N)
      → IsClimbed p st
      → IsClimbed p (run_trail commission ladder events st).state
  unfolding run_trail
  run-IsClimbed commission ladder [] p st h = h
  run-IsClimbed commission ladder (event ∷ events) p st h =
      let r = handle_trail commission ladder event st in
      let k = handle_trail-IsClimbed commission ladder p event st h in
      then_trail-IsClimbed p (run_trail commission ladder events) r.state r.reason k
        (run-IsClimbed commission ladder events p r.state k)

  -- Where the comparisons are those of a total order, an open position keeps its symbol through any
  -- ticks, heartbeats and restarts up to the first reason to close, and neither the stop nor the peak
  -- of its row goes down; the trail in memory is not behind the row, if it was not at the start.
  pub run_trail_row :
      (commission : N) (ladder : ProfitLockLadder N) (events : List (TrailEvent N))
      (p : TrailPosition N) (st : TrailState N)
      → st.open_position ≡ some p
      → IsOver p (trail_of p.symbol st.trail)
      → IsClimbed p (run_trail commission ladder events st).state
  run_trail_row commission ladder events p st e over =
      run-IsClimbed commission ladder events p st (stays p st e over)
