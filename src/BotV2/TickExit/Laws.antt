-- ===== src/BotV2/TickExit/Laws.antt =====
-- What a tick may sell, and in which order the rules speak.
use nest_js_mega_backend.Prelude.{
  ℕ, ◌+◌, ◌≤◌, ◌≡◌, ◌≢◌, refl, Bool, true, false, Option, some, inl, inr, arith, Option-cases,
  Bool-cases,
}
use nest_js_mega_backend.Prelude.Double.{Double, IsOrdered, IsUnder, ◌≼◌}
use nest_js_mega_backend.Bot.Exit.{SoftExitReason, RatchetStopResult, decide_soft_exit, cent_under}
use nest_js_mega_backend.Bot.Exit.SoftExit.{
  above_stop, decide_soft_exit_premium, decide_soft_exit_nowhere,
}
use nest_js_mega_backend.BotV2.ProfitLock.{ratchet_profit_lock, round2, floor_of, lock_peak}
use nest_js_mega_backend.BotV2.ProfitLock.Laws.{ratchet_profit_lock-IsUnder}
use nest_js_mega_backend.BotV2.TickExit.{
  TickExitDecision, TickExitInput, hold, scale_out, exit, scale_out_quantity, time_stop_due,
  should_scale_out, check_of, decide_tick_exit, scale_or_hold,
}

module _ {N : Type 0} where
  abbrev pub sold : TickExitDecision N → ℕ
  sold (hold r) = 0
  sold (scale_out q r) = q
  sold (exit reason q r) = q

  abbrev pub ratchet_of : TickExitDecision N → RatchetStopResult N
  ratchet_of (hold r) = r
  ratchet_of (scale_out q r) = r
  ratchet_of (exit reason q r) = r

  -- An exit sells everything; a partial sale sells a contract at least and leaves as many as it sells.
  abbrev pub IsSale : ℕ → TickExitDecision N → Type 0
  IsSale quantity (hold r) = Unit
  IsSale quantity (scale_out q r) = (1 ≤ q) × (q + q ≤ quantity)
  IsSale quantity (exit reason q r) = q ≡ quantity

scale_out_quantity_half : (q : ℕ) → scale_out_quantity q + scale_out_quantity q ≤ q
unfolding scale_out_quantity
scale_out_quantity_half q = ground arith

module _ {N : Type 0} ⦃d : Double N⦄ where
  should_scale_out_some :
      (enabled scaled_out : Bool) (q : ℕ) (entry bid : N)
      → should_scale_out enabled scaled_out q entry bid ≡ true
      → 1 ≤ scale_out_quantity q
  unfolding should_scale_out
  should_scale_out_some enabled scaled_out q entry bid h = ground arith

  abbrev pub scales : TickExitInput N → Bool
  scales input =
      should_scale_out input.use_scale_out input.scaled_out input.quantity input.entry_premium
        input.lock.option_bid

  scale_or_hold-IsSale :
      (input : TickExitInput N) (r : RatchetStopResult N)
      → IsSale input.quantity (scale_or_hold input r) × (ratchet_of (scale_or_hold input r) ≡ r)
  unfolding scale_or_hold
  scale_or_hold-IsSale input r = elim (Bool-cases (scales input)) [
    | inl partly ↦
        rw (partly, scale_or_hold)
          (
            (
              should_scale_out_some input.use_scale_out input.scaled_out input.quantity
                  input.entry_premium input.lock.option_bid partly,
              scale_out_quantity_half input.quantity,
            ),
            refl,
          )
    | inr nothing ↦ rw (nothing, scale_or_hold) (tt, refl)
  ]

  abbrev pub soft_of : TickExitInput N → Option SoftExitReason
  soft_of input = decide_soft_exit (check_of input (ratchet_profit_lock input.lock))

  -- Whatever the tick, an exit sells the whole position and a partial sale at most half of it and
  -- at least one contract, and the step of the profit lock is handed on.
  pub decide_tick_exit-IsSale :
      (input : TickExitInput N)
      → IsSale input.quantity (decide_tick_exit input)
        × (ratchet_of (decide_tick_exit input) ≡ ratchet_profit_lock input.lock)
  unfolding decide_tick_exit
  decide_tick_exit-IsSale input = elim (Bool-cases (time_stop_due input)) [
    | inl due ↦ rw (due, decide_tick_exit) (refl, refl)
    | inr early ↦ elim (Option-cases (soft_of input)) [
      | inl stays ↦ rw (early, stays, decide_tick_exit) (scale_or_hold-IsSale input _)
      | inr (reason, e) ↦ rw (early, e, decide_tick_exit) (refl, refl)
    ]
  ]

  -- If the bid is over a level, rounding to the cent keeps the order, and the old stop, the disaster stop
  -- and the rounded cent less than the peak are all under that level, then the soft exit of the tick is
  -- not for the premium stop: a tick that sets a new high does not stop itself out.
  pub decide_tick_exit_no_self_stop :
      (laws : IsOrdered N) (round_mono : (a b : N) → a ≼ b → round2 a ≼ round2 b)
      → (input : TickExitInput N) (level : N) → d.le input.lock.option_bid level ≡ false
      → IsUnder input.lock.stop_premium (some level)
      → floor_of input.lock ≼ level
      → round2 (cent_under (lock_peak input.lock)) ≼ level
      → (soft_of input ≢ some SoftExitReason.trail_stop)
        × (soft_of input ≢ some SoftExitReason.premium_stop)
  decide_tick_exit_no_self_stop laws round_mono input level over old floored cent =
      let kept = ratchet_profit_lock-IsUnder laws round_mono input.lock level old floored cent in
      let above =
        above_stop laws input.lock.option_bid level (ratchet_profit_lock input.lock).stop_premium
          kept over in
      elim (Option-cases input.levels.direction) [
        | inl nowhere ↦
            let still =
              decide_soft_exit_nowhere (check_of input (ratchet_profit_lock input.lock)) nowhere in
            (λ h. cc (still, h), λ h. cc (still, h))
        | inr (direction, e) ↦
            (decide_soft_exit_premium direction (check_of input (ratchet_profit_lock input.lock))
                e).1
              above
      ]
