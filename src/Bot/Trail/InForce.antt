-- ===== src/Bot/Trail/InForce.antt =====
-- The stop that a tick tests, and the highest bid, between two restarts of the service.
use mathlib.Core.Path.{subst}
use nest_js_mega_backend.Prelude.{◌≡◌, sym, Option, some, List}
use nest_js_mega_backend.Prelude.Double.{Double, IsOrdered, IsUnder}
use nest_js_mega_backend.Prelude.Order.{IsUnder-refl}
use nest_js_mega_backend.BotV2.ProfitLock.{ProfitLockLadder}
use nest_js_mega_backend.Bot.Trail.{
  TrailPosition, TrailState, TrailEvent, trail_of, stop_in_force, run_trail,
}
use nest_js_mega_backend.Bot.Trail.Laws.{IsOver, IsClimbed, run_trail_row}
use nest_js_mega_backend.Bot.Trail.Levels.{
  HasNoRestart, peak_in_force, in_force, current_stop, current_peak,
}
use nest_js_mega_backend.Bot.Trail.Held.{IsHeld, run-IsHeld, current_levels}

module _ {N : Type 0} ⦃d : Double N⦄ (laws : IsOrdered N) where
  IsHeld-now :
      (st : TrailState N) (p : TrailPosition N)
      → st.open_position ≡ some p
      → IsHeld laws (current_stop st) (current_peak st) st
  IsHeld-now st p e =
      let memory = trail_of p.symbol st.trail in
      (
        p,
        e,
        subst
            (λ (o : Option (TrailPosition N)).
              IsUnder (in_force stop_in_force o st.trail) (stop_in_force memory p)
              × IsUnder (in_force peak_in_force o st.trail) (peak_in_force memory p))
            (sym e)
            (
              IsUnder-refl laws (stop_in_force memory p),
              IsUnder-refl laws (peak_in_force memory p),
            ),
      )

  -- Where the comparisons are those of a total order, and the memory is not behind the row at the
  -- start: through any ticks, heartbeats and restarts up to the first reason to close, the open
  -- position keeps its symbol, neither the stop nor the peak of its row goes down, and the memory is
  -- not behind the row. Through any ticks and heartbeats after those, of which none is a restart,
  -- neither the stop that a tick tests nor the peak goes down, each that of the trail in memory, or of
  -- the row where the memory has no trail of the position.
  pub run_trail-IsClimbed :
      (commission : N) (ladder : ProfitLockLadder N) (events calm : List (TrailEvent N))
      (p : TrailPosition N) (st : TrailState N)
      → st.open_position ≡ some p
      → IsOver laws p (trail_of p.symbol st.trail)
      → HasNoRestart calm
      → let now = (run_trail commission ladder events st).state in
        let later = (run_trail commission ladder calm now).state in
        IsClimbed laws p now
        × IsUnder (current_stop now) (current_stop later)
        × IsUnder (current_peak now) (current_peak later)
  run_trail-IsClimbed commission ladder events calm p st e over quiet =
      let now = (run_trail commission ladder events st).state in
      let climbed = run_trail_row laws commission ladder events p st e over in
      let (q, open_now, _, _, _, _) = climbed in
      let levels =
        current_levels laws (current_stop now) (current_peak now)
          (run_trail commission ladder calm now).state
          (run-IsHeld laws (current_stop now) (current_peak now) commission ladder calm now quiet
            (IsHeld-now now q open_now)) in
      (climbed, levels.0, levels.1)
