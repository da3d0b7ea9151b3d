-- ===== src/Bot/Trail/Held.antt =====
-- Ticks and heartbeats keep the levels in force at or over two given ones.
use mathlib.Core.Path.{subst}
use nest_js_mega_backend.Prelude.{
  ◌≡◌, refl, sym, false, Option, none, some, List, [], ◌∷◌, if_holds, ◌===◌, text_iff,
}
use nest_js_mega_backend.Prelude.Double.{Double, IsOrdered, IsUnder}
use nest_js_mega_backend.Bot.Exit.{SoftExitReason}
use nest_js_mega_backend.BotV2.ProfitLock.{ProfitLockLadder}
use nest_js_mega_backend.BotV2.ProfitLock.Laws.{ratchet_profit_lock_monotone}
use nest_js_mega_backend.Bot.Trail.{
  Trail, TrailPosition, TrailState, TrailResult, Tick, Quoted, TrailEvent, tick_event,
  heartbeat_event, restart_event, trail_of, rehydrated, ensure_held, ensure_trail_state, stamped,
  write_trail, flush_of, flush_trail_state, ratchet_input, trail_after, stored, ratcheted,
  ratchet_of, stop_in_force, ticked, quoted_for, reason_for, before_close, check_position,
  check_for, check_soft_stop_and_targets, flush_open, check_spot, watch_trail, heartbeat_trail,
  then_trail, run_trail,
}
use nest_js_mega_backend.Bot.Trail.Laws.{IsUnder-trans}
use nest_js_mega_backend.Bot.Trail.Levels.{
  HasNoRestart, peak_in_force, in_force, current_stop, current_peak, IsUnder-or_else,
  symbol_of_trail, kept_symbol, other_symbol,
}

module _ {N : Type 0} ⦃d : Double N⦄ (laws : IsOrdered N) (stop peak : Option N) where
  -- The levels in force are not under these two.
  abbrev pub IsAbove : TrailPosition N → Option (Trail N) → Type 0
  IsAbove p t = IsUnder stop (stop_in_force t p) × IsUnder peak (peak_in_force t p)

  -- A position is open whose levels in force are not under these two.
  abbrev pub IsHeld : TrailState N → Type 0
  IsHeld st =
      (p : TrailPosition N) × (st.open_position ≡ some p) × IsAbove p (trail_of p.symbol st.trail)

  write_trail-IsHeld :
      (t : Trail N) (p : TrailPosition N) (st : TrailState N)
      → st.open_position ≡ some p
      → IsAbove p (trail_of p.symbol (some t))
      → IsHeld (write_trail t (some p) st)
  write_trail-IsHeld t p st e above =
      if_holds IsHeld (p.symbol === t.symbol) _ _
        (λ same.
          let e' = sym ((text_iff p.symbol t.symbol).0 same) in
          let held = subst (IsAbove p) (kept_symbol t p.symbol e') above in
          (
            stamped t p,
            refl,
            subst (IsAbove (stamped t p))
                (sym (kept_symbol (record t { dirty = false }) p.symbol e')) held,
          ))
        (λ other. (p, e, subst (IsAbove p) (other_symbol t p.symbol other) above))

  flush_of-IsHeld :
      (t : Option (Trail N)) (p : TrailPosition N) (st : TrailState N)
      → st.open_position ≡ some p
      → st.trail ≡ t
      → IsAbove p (trail_of p.symbol t)
      → IsHeld (flush_of t st)
  flush_of-IsHeld none p st e held above = (p, e, rw held above)
  flush_of-IsHeld (some t) p st e held above =
      if_holds IsHeld t.dirty (write_trail t st.open_position st) st
        (λ _.
          subst (λ (o : Option (TrailPosition N)). IsHeld (write_trail t o st)) (sym e)
            (write_trail-IsHeld t p st e above))
        (λ _. (p, e, rw held above))

  flush-IsHeld : (st : TrailState N) → IsHeld st → IsHeld (flush_trail_state st)
  unfolding flush_trail_state
  flush-IsHeld st (p, e, above) = flush_of-IsHeld st.trail p st e refl above

  trail_after-IsAbove :
      (p : TrailPosition N) (t : Option (Trail N)) (bid : Option N)
      → IsAbove p t
      → IsAbove p (trail_after t bid)
  trail_after-IsAbove p none bid h = h
  trail_after-IsAbove p (some t) none h = h
  trail_after-IsAbove p (some t) (some bid) (s, k) =
      let (top, e, kept, _, high, _) = ratchet_profit_lock_monotone laws (ratchet_input t bid) in
      (
        rw e (IsUnder-trans laws stop t.stop_premium (some top) s kept),
        IsUnder-trans laws peak (some t.peak_bid) _ k high,
      )

  stored-IsAbove :
      (p : TrailPosition N) (t : Option (Trail N)) (memory : Option (Trail N)) (bid : Option N)
      → trail_of p.symbol memory ≡ t
      → IsAbove p (trail_after t bid)
      → IsAbove p (trail_of p.symbol (stored (trail_after t bid) memory))
  stored-IsAbove p none memory bid e h = rw e h
  stored-IsAbove p (some t) memory none e h =
      subst (IsAbove p) (sym (kept_symbol t p.symbol (symbol_of_trail p.symbol memory t e))) h
  stored-IsAbove p (some t) memory (some bid) e h =
      subst (IsAbove p)
        (sym (
          kept_symbol (ratcheted t (ratchet_of t bid)) p.symbol
            (symbol_of_trail p.symbol memory t e)))
        h

  ensure_held-IsHeld :
      (commission : N) (ladder : ProfitLockLadder N) (p : TrailPosition N) (held : Option (Trail N))
      (st : TrailState N)
      → st.open_position ≡ some p
      → trail_of p.symbol st.trail ≡ held
      → IsAbove p held
      → IsHeld (ensure_held commission ladder p held st)
  ensure_held-IsHeld commission ladder p none st e held (s, k) =
      let made = rehydrated commission ladder p in
      (
        p,
        e,
        subst (IsAbove p) (sym (kept_symbol made p.symbol refl))
            (s, IsUnder-or_else peak p.peak_bid p.entry_price k),
      )
  ensure_held-IsHeld commission ladder p (some t) st e held above = (p, e, rw held above)

  before_close-IsHeld :
      (reason : Option SoftExitReason) (st : TrailState N)
      → IsHeld st
      → IsHeld (before_close reason st).state
  before_close-IsHeld none st h = h
  before_close-IsHeld (some reason) st h = flush-IsHeld st h

  ticked-IsHeld :
      (p : TrailPosition N) (bid : Option N) (quoted : Quoted N) (tick : Tick N) (st : TrailState N)
      → st.open_position ≡ some p
      → IsAbove p (trail_of p.symbol st.trail)
      → IsHeld (ticked p bid quoted tick st)
  unfolding ticked
  ticked-IsHeld p bid quoted tick st e above = (
    p,
    e,
    stored-IsAbove p (trail_of p.symbol st.trail) st.trail bid refl
        (trail_after-IsAbove p (trail_of p.symbol st.trail) bid above),
  )

  check_for-IsHeld :
      (p : TrailPosition N) (tick : Tick N) (st : TrailState N)
      → st.open_position ≡ some p
      → IsAbove p (trail_of p.symbol st.trail)
      → IsHeld (check_for (some p) tick st).state
  unfolding check_position
  check_for-IsHeld p tick st e above =
      let quoted = quoted_for p tick st in
      if_holds (λ (r : TrailResult N). IsHeld r.state) st.has_lane (check_position p tick st)
        (record { state = st; reason = none })
        (λ _.
          before_close-IsHeld (reason_for p quoted.option_bid tick st)
            (ticked p quoted.option_bid quoted tick st)
            (ticked-IsHeld p quoted.option_bid quoted tick st e above))
        (λ _. (p, e, above))

  check-IsHeld :
      (tick : Tick N) (st : TrailState N)
      → IsHeld st
      → IsHeld (check_soft_stop_and_targets tick st).state
  unfolding check_soft_stop_and_targets
  check-IsHeld tick st (p, e, above) =
      subst (λ (o : Option (TrailPosition N)). IsHeld (check_for o tick st).state) (sym e)
        (check_for-IsHeld p tick st e above)

  check_spot-IsHeld :
      (tick : Option (Tick N)) (st : TrailState N) → IsHeld st → IsHeld (check_spot tick st).state
  check_spot-IsHeld none st h = h
  check_spot-IsHeld (some tick) st h = check-IsHeld tick st h

  flush_open-IsHeld :
      (st : TrailState N) (reason : Option SoftExitReason)
      → IsHeld st
      → IsHeld (flush_open (record { state = st; reason = reason })).state
  flush_open-IsHeld st none h = flush-IsHeld st h
  flush_open-IsHeld st (some reason) h = h

  heartbeat-IsHeld :
      (commission : N) (ladder : ProfitLockLadder N) (tick : Option (Tick N)) (st : TrailState N)
      → IsHeld st
      → IsHeld (heartbeat_trail commission ladder tick st).state
  unfolding heartbeat_trail ensure_trail_state
  heartbeat-IsHeld commission ladder tick st (p, e, above) =
      let st' = ensure_trail_state commission ladder p st in
      let checked = check_spot tick st' in
      subst
        (λ (o : Option (TrailPosition N)). IsHeld (watch_trail commission ladder o tick st).state)
        (sym e)
        (flush_open-IsHeld checked.state checked.reason (
          check_spot-IsHeld tick st'
            (ensure_held-IsHeld commission ladder p (trail_of p.symbol st.trail) st e refl above)))

  then_trail-IsHeld :
      (go : TrailState N → TrailResult N) (st : TrailState N) (reason : Option SoftExitReason)
      → IsHeld st
      → IsHeld (go st).state
      → IsHeld (then_trail go (record { state = st; reason = reason })).state
  then_trail-IsHeld go st none h k = k
  then_trail-IsHeld go st (some reason) h k = h

  pub run-IsHeld :
      (commission : N) (ladder : ProfitLockLadder N) (events : List (TrailEvent N))
      (st : TrailState N)
      → HasNoRestart events
      → IsHeld st
      → IsHeld (run_trail commission ladder events st).state
  unfolding run_trail
  run-IsHeld commission ladder [] st calm h = h
  run-IsHeld commission ladder (tick_event tick ∷ events) st calm h =
      let r = check_soft_stop_and_targets tick st in
      let k = check-IsHeld tick st h in
      then_trail-IsHeld (run_trail commission ladder events) r.state r.reason k
        (run-IsHeld commission ladder events r.state calm k)
  run-IsHeld commission ladder (heartbeat_event tick ∷ events) st calm h =
      let r = heartbeat_trail commission ladder tick st in
      let k = heartbeat-IsHeld commission ladder tick st h in
      then_trail-IsHeld (run_trail commission ladder events) r.state r.reason k
        (run-IsHeld commission ladder events r.state calm k)
  run-IsHeld commission ladder (restart_event ∷ events) st calm h = absurd calm

  pub current_levels :
      (st : TrailState N)
      → IsHeld st
      → IsUnder stop (current_stop st) × IsUnder peak (current_peak st)
  current_levels st (p, e, above) =
      subst
        (λ (o : Option (TrailPosition N)).
          IsUnder stop (in_force stop_in_force o st.trail)
          × IsUnder peak (in_force peak_in_force o st.trail))
        (sym e) above
