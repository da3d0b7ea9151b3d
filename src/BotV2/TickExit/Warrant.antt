-- ===== src/BotV2/TickExit/Warrant.antt =====
-- What each decision of `decideTickExit` says of the tick: its clocks, its levels and its size.
use nest_js_mega_backend.Prelude.{
  ℕ, ◌+◌, ◌*◌, ◌/◌, ◌≤◌, ◌<◌, ◌≡◌, ◌⊎◌, ◌↔◌, Bool, true, false, Option, none, some, inl, inr, arith,
  Option-cases, Bool-cases, or_else,
}
use nest_js_mega_backend.Prelude.Int.{pos, sub_ℕ, ltb_ℤ}
use nest_js_mega_backend.Prelude.Double.{Double, ◌≼◌, lt, lit}
use nest_js_mega_backend.Bot.Exit.{BotDirection, RatchetStopResult}
use nest_js_mega_backend.Bot.Exit.SoftExit.{
  AtOrBelow, IsAgainst, IsWith, IsCause, decide_soft_exit_hold, decide_soft_exit-IsCause,
}
use nest_js_mega_backend.BotV2.ProfitLock.{ratchet_profit_lock}
use nest_js_mega_backend.BotV2.TickExit.{
  TickExitDecision, TickExitInput, soft, time_stop, hold, scale_out, exit, scale_out_quantity,
  time_stop_due, should_scale_out, check_of, decide_tick_exit, scale_or_hold, overdue, due_at,
  limit_ms, is_going, breakeven_of,
}
use nest_js_mega_backend.BotV2.TickExit.Laws.{scales, soft_of}

module _ {N : Type 0} ⦃d : Double N⦄ (input : TickExitInput N) where
  abbrev clock : ℕ
  clock = limit_ms input.time_stop_seconds

  -- The bid is under breakeven; or it has not gained enough, and three clocks have passed since the
  -- trade was opened, or two since then and one since the last high.
  abbrev IsStale : (opened now : ℕ) → Type 0
  IsStale opened now =
      (lt input.lock.option_bid (breakeven_of input) ≡ true)
      ⊎ ((is_going input ≡ false)
          × ((opened + clock * 3 < now)
              ⊎ ((opened + clock * 2 < now) × (or_else input.peak_at opened + clock < now))))

  abbrev IsLateAt : (opened_at now : Option ℕ) → Type 0
  IsLateAt none now = ⊥
  IsLateAt (some opened) none = ⊥
  IsLateAt (some opened) (some now) = (opened + clock < now) × IsStale opened now

  -- The time stop is on, both times are known, more than a clock has passed, and the trade is stale.
  abbrev pub IsLate : Type 0
  IsLate = (input.use_time_stop ≡ some true) × IsLateAt input.opened_at input.now

  -- A partial sale is on and has not been made, there are two contracts at least, both prices are
  -- above zero, and the bid is a tenth over the entry or more.
  abbrev pub MayScale : Type 0
  MayScale =
      (input.use_scale_out ≡ true)
      × (input.scaled_out ≡ false)
      × (2 ≤ input.quantity)
      × (lt (lit 0) input.entry_premium ≡ true)
      × (lt (lit 0) input.lock.option_bid ≡ true)
      × (d.mul input.entry_premium (d.dec 11 1) ≼ input.lock.option_bid)

  -- The bid is above the ratcheted stop and under its target, and the underlying has reached neither
  -- of its levels.
  abbrev pub IsInside : BotDirection → Type 0
  IsInside direction =
      ¬ AtOrBelow (some input.lock.option_bid) (ratchet_profit_lock input.lock).stop_premium
      × ¬ IsAgainst direction (some input.levels.spot) input.levels.stop_underlying
      × ¬ AtOrBelow input.levels.target_premium (some input.lock.option_bid)
      × ¬ IsWith direction (some input.levels.spot) input.levels.target_underlying

  -- Why a decision is taken.
  abbrev pub IsWarranted : BotDirection → TickExitDecision N → Type 0
  IsWarranted direction (exit time_stop q r) = IsLate
  IsWarranted direction (exit (soft reason) q r) =
      ¬ IsLate × IsCause direction (check_of input (ratchet_profit_lock input.lock)) reason
  IsWarranted direction (scale_out q r) =
      ¬ IsLate × IsInside direction × MayScale × (q ≡ input.quantity / 2)
  IsWarranted direction (hold r) = ¬ IsLate × IsInside direction × ¬ MayScale

  IsStale-overdue : (opened now : ℕ) → overdue input opened now ≡ true → IsStale opened now
  unfolding overdue
  IsStale-overdue opened now h = elim (Bool-cases (lt input.lock.option_bid (breakeven_of input))) [
    | inl under ↦ inl under
    | inr even ↦ elim (Bool-cases (is_going input)) [
      | inl going ↦ absurd (ground arith)
      | inr idle ↦ elim (Bool-cases (ltb_ℤ (pos (clock * 3)) (sub_ℕ now opened))) [
        | inl long ↦ inr (idle, inl (ground arith))
        | inr short ↦ inr (idle, inr (ground arith, ground arith))
      ]
    ]
  ]

  overdue_of_stale : (opened now : ℕ) → IsStale opened now → overdue input opened now ≡ true
  unfolding overdue
  overdue_of_stale opened now (inl under) = ground arith
  overdue_of_stale opened now (inr (idle, inl long)) = ground arith
  overdue_of_stale opened now (inr (idle, inr (held, still))) = ground arith

  due_at_lem :
      (opened_at now : Option ℕ) → (due_at input opened_at now ≡ true) ↔ IsLateAt opened_at now
  unfolding due_at
  due_at_lem none now = (λ h. absurd (cc), λ h. absurd h)
  due_at_lem (some opened) none = (λ h. absurd (cc), λ h. absurd h)
  due_at_lem (some opened) (some now) = (
    λ h. (ground arith, IsStale-overdue opened now (ground arith)),
    λ (late, stale). let o = overdue_of_stale opened now stale in ground arith,
  )

  time_stop_due_lem : (time_stop_due input ≡ true) ↔ IsLate
  unfolding time_stop_due
  time_stop_due_lem =
      let (to, from) = due_at_lem input.opened_at input.now in
      (λ h. (ground arith, to (ground arith)), λ (on, late). let l = from late in ground arith)

  scales_lem : (scales input ≡ true) ↔ MayScale
  unfolding should_scale_out scale_out_quantity
  scales_lem = (
    λ h. (ground arith, ground arith, ground arith, ground arith, ground arith, ground arith),
    λ (on, new, two, entry, bid, up). ground arith,
  )

  false_of_not : {P : Type 0} (b : Bool) → (b ≡ true) ↔ P → b ≡ false → ¬ P
  false_of_not b (to, from) e p = let t = from p in cc

  scale_or_hold-IsWarranted :
      (direction : BotDirection) (r : RatchetStopResult N)
      → ¬ IsLate
      → IsInside direction
      → IsWarranted direction (scale_or_hold input r)
  unfolding scale_or_hold scale_out_quantity
  scale_or_hold-IsWarranted direction r early inside = elim (Bool-cases (scales input)) [
    | inl partly ↦
        let may = scales_lem.0 partly in
        let two = may.2 in rw (partly, scale_or_hold) (early, inside, may, ground arith)
    | inr whole ↦
        rw (whole, scale_or_hold) (early, inside, false_of_not (scales input) scales_lem whole)
  ]

  -- For a call or a put the decision of a tick is the one that its clocks, its levels and its size
  -- warrant. A time stop is decided only on a late trade. A soft exit is decided only on one that is
  -- not late, and its reason is true of the tick with the ratcheted stop. A partial sale is one of
  -- half of the contracts, rounded down, on a trade that is not late, lies inside of its levels and
  -- may be scaled; and a trade that is held is not late, lies inside of its levels and may not be
  -- scaled.
  pub decide_tick_exit-IsWarranted :
      (direction : BotDirection)
      → input.levels.direction ≡ some direction
      → IsWarranted direction (decide_tick_exit input)
  unfolding decide_tick_exit
  decide_tick_exit-IsWarranted direction e = elim (Bool-cases (time_stop_due input)) [
    | inl due ↦ rw (due, decide_tick_exit) (time_stop_due_lem.0 due)
    | inr not_due ↦
        let early = false_of_not (time_stop_due input) time_stop_due_lem not_due in
        let check = check_of input (ratchet_profit_lock input.lock) in
        elim (Option-cases (soft_of input)) [
          | inl stays ↦
              rw (not_due, stays, decide_tick_exit)
                (scale_or_hold-IsWarranted direction (ratchet_profit_lock input.lock) early
                  ((decide_soft_exit_hold direction check e).0 stays))
          | inr (reason, left) ↦
              rw (not_due, left, decide_tick_exit)
                (early, decide_soft_exit-IsCause direction check reason e left)
        ]
  ]
