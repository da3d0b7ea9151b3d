-- ===== src/Bot/Trail/Restart.antt =====
-- The trail that the row brings back after a restart of the service.
use nest_js_mega_backend.Prelude.{◌≡◌, refl, true, false, some, text_iff}
use nest_js_mega_backend.Bot.Trail.{
  Trail, TrailPosition, TrailState, stamped, restarted, ensure_trail_state, flush_trail_state,
}

module _ {N : Type 0} where
  -- A trail with a raised stop, of the open position of the row and with its entry and size, is
  -- written to the row by a flush, and after a restart the row gives the same trail back, with nothing
  -- to write: its peak, its stop, whether it is armed and its source.
  pub ensure_trail_state-flush_trail_state :
      (t : Trail N) (p : TrailPosition N) (st : TrailState N)
      → t.dirty ≡ true
      → p.symbol ≡ t.symbol
      → p.entry_price ≡ t.entry_premium
      → p.quantity ≡ t.quantity
      → let st' =
          restarted (flush_trail_state (record st { trail = some t; open_position = some p })) in
        (q : TrailPosition N) × (st'.open_position ≡ some q)
        × ((ensure_trail_state t.commission_round_trip t.ladder q st').trail
            ≡ some (record t { dirty = false }))
  unfolding ensure_trail_state flush_trail_state
  ensure_trail_state-flush_trail_state t p st dirty symbol entry quantity =
      let same = (text_iff p.symbol t.symbol).1 symbol in
      rw (dirty, same) (stamped t p, refl, rw (symbol, entry, quantity) refl)
