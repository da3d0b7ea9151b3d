-- ===== src/Pnl/Fifo.antt =====
-- `matchFills` of src/subapps/schwab/pnl/fifo-matcher.util.ts: fills are matched first in, first out
-- into closed round trips, one book for each symbol and source.
-- Quantities are integers (contracts, or shares in the least unit that is traded), for which the
-- code's test `<= 1e-9` is a test for zero. Prices are numbers of the least price step.
pub mod Absorb
pub mod Book
pub mod Money
pub mod Pairs
pub mod Turns
pub mod Grouping
mod Tests
use nest_js_mega_backend.Prelude.{
  ℕ, zero, suc, ◌-◌, min, Bool, true, false, ◌&&◌, ◌||◌, Option, none, some, List, [], ◌∷◌, ◌++◌,
  String, ltb, ◌==◌, ◌===◌, if◌then◌else◌, or_else, length, replicate,
}
use nest_js_mega_backend.Prelude.Int.{ℤ, pos, sub_ℕ, ◌+ℤ◌, ◌-ℤ◌, ◌*ℕ◌, abs, ltb_ℤ}
use nest_js_mega_backend.Prelude.Text.{codes, matches_anywhere, osi_pattern, strip_spaces}

pub data FillInstruction : Type 0 where
  buy sell : FillInstruction

pub data OrderSource : Type 0 where
  manual_live manual_paper bot_live bot_paper : OrderSource

pub data TradeDirection : Type 0 where
  long short : TradeDirection

pub data PositionEffect : Type 0 where
  opening closing : PositionEffect

pub record FifoFillInput : Type 0 where
  pub id : String
  pub symbol : String
  pub instruction : FillInstruction
  pub quantity : ℤ
  pub price : ℕ
  pub transaction_date : ℕ
  pub position_effect : Option PositionEffect
  pub source : Option OrderSource

pub record RealizedTradeMatch : Type 0 where
  pub symbol : String
  pub direction : TradeDirection
  pub quantity : ℕ
  pub open_price : ℕ
  pub close_price : ℕ
  pub opened_at : ℕ
  pub closed_at : ℕ
  pub realized_pnl : ℤ
  pub open_fill_id : String
  pub close_fill_id : String
  pub source : OrderSource

pub record OpenLot : Type 0 where
  pub fill_id : String
  pub remaining : ℕ
  pub price : ℕ
  pub opened_at : ℕ
  pub direction : TradeDirection

abbrev is_right : ℕ → Bool
is_right c = c == b'C' || c == b'P'

pub contract_multiplier : String → ℕ
contract_multiplier symbol =
    if matches_anywhere (osi_pattern is_right) (strip_spaces (codes symbol)) then 100 else 1

-- `-qty`
abbrev pub minus : ℕ → ℤ
minus n = sub_ℕ 0 n

signed_by : Option PositionEffect → FillInstruction → ℕ → ℤ
signed_by (some PositionEffect.opening) FillInstruction.sell qty = minus qty
signed_by (some PositionEffect.opening) FillInstruction.buy qty = pos qty
signed_by (some PositionEffect.closing) FillInstruction.buy qty = pos qty
signed_by (some PositionEffect.closing) FillInstruction.sell qty = minus qty
signed_by none FillInstruction.buy qty = pos qty
signed_by none FillInstruction.sell qty = minus qty

pub signed_qty : FifoFillInput → ℤ
unfolding signed_by
signed_qty fill = signed_by fill.position_effect fill.instruction (abs fill.quantity)

abbrev pub is_positive : ℤ → Bool
is_positive r = ltb_ℤ (pos 0) r

abbrev pub is_negative : ℤ → Bool
is_negative r = ltb_ℤ r (pos 0)

abbrev pub is_zero : ℤ → Bool
is_zero r = abs r == 0

abbrev pub same_direction : TradeDirection → ℤ → Bool
same_direction TradeDirection.long remaining = is_positive remaining
same_direction TradeDirection.short remaining = is_negative remaining

-- The realized profit of closing `close_qty` of a lot, in price steps.
pub realized : TradeDirection → (close_price open_price close_qty mult : ℕ) → ℤ
realized TradeDirection.long close_price open_price close_qty mult =
    sub_ℕ close_price open_price *ℕ close_qty *ℕ mult
realized TradeDirection.short close_price open_price close_qty mult =
    sub_ℕ open_price close_price *ℕ close_qty *ℕ mult

-- `remaining > 0 ? remaining - closeQty : remaining + closeQty`
pub toward_zero : ℤ → ℕ → ℤ
toward_zero remaining close_qty =
    if is_positive remaining then remaining -ℤ pos close_qty else remaining +ℤ pos close_qty

abbrev pub match_of : OrderSource → ℕ → FifoFillInput → OpenLot → ℕ → RealizedTradeMatch
match_of source mult fill lot close_qty = record {
  symbol = fill.symbol;
  direction = lot.direction;
  quantity = close_qty;
  open_price = lot.price;
  close_price = fill.price;
  opened_at = lot.opened_at;
  closed_at = fill.transaction_date;
  realized_pnl = realized lot.direction fill.price lot.price close_qty mult;
  open_fill_id = lot.fill_id;
  close_fill_id = fill.id;
  source = source;
}

-- What is left of the fill, the open lots, and the matches in the order of their `push`.
abbrev pub Absorbed : Type 0
Absorbed = record { remaining : ℤ; lots : List OpenLot; matches : List RealizedTradeMatch }

-- `if (lot.remaining <= 1e-9) openLots.shift()`
abbrev pub shrink : OpenLot → ℕ → List OpenLot → List OpenLot
shrink lot close_qty rest =
    if lot.remaining - close_qty == 0
    then rest
    else record lot { remaining = lot.remaining - close_qty } ∷ rest

-- The `while` loop, on fuel.
pub absorb : ℕ → OrderSource → ℕ → FifoFillInput → ℤ → List OpenLot → Absorbed
absorb zero source mult fill remaining lots = record {
  remaining = remaining;
  lots = lots;
  matches = [];
}
absorb (suc n) source mult fill remaining [] = record {
  remaining = remaining;
  lots = [];
  matches = [];
}
absorb (suc n) source mult fill remaining (lot ∷ rest) =
    let close_qty = min (abs remaining) lot.remaining in
    let next =
      absorb n source mult fill (toward_zero remaining close_qty) (shrink lot close_qty rest) in
    let pushed : Absorbed = record {
      remaining = next.remaining;
      lots = next.lots;
      matches = match_of source mult fill lot close_qty ∷ next.matches;
    } in
    if is_zero remaining || same_direction lot.direction remaining
    then record { remaining = remaining; lots = lot ∷ rest; matches = [] }
    else pushed

abbrev pub new_lot : FifoFillInput → ℤ → OpenLot
new_lot fill remaining = record {
  fill_id = fill.id;
  remaining = abs remaining;
  price = fill.price;
  opened_at = fill.transaction_date;
  direction = if is_positive remaining then TradeDirection.long else TradeDirection.short;
}

-- `if (Math.abs(remaining) > 1e-9) openLots.push(...)`
pub open_rest : FifoFillInput → ℤ → List OpenLot → List OpenLot
open_rest fill remaining lots =
    if is_zero remaining then lots else lots ++ (new_lot fill remaining ∷ [])

-- One turn of `for (const fill of sorted)`: each round of the `while` loop but the last closes a lot.
pub step : OrderSource → ℕ → FifoFillInput → List OpenLot → List OpenLot × List RealizedTradeMatch
unfolding absorb
step source mult fill lots =
    let done = absorb (suc (length lots)) source mult fill (signed_qty fill) lots in
    (open_rest fill done.remaining done.lots, done.matches)

pub match_sorted :
    OrderSource → ℕ → List FifoFillInput → List OpenLot → List OpenLot × List RealizedTradeMatch
match_sorted source mult [] lots = (lots, [])
match_sorted source mult (fill ∷ fills) lots =
    let (lots', matches) = step source mult fill lots in
    let (lots'', later) = match_sorted source mult fills lots' in (lots'', matches ++ later)

-- Everything of one key: the fills of one symbol and one source, in their order of arrival.
pub record Group : Type 0 where
  pub symbol : String
  pub source : OrderSource
  pub fills : List FifoFillInput

pub source_eq : OrderSource → OrderSource → Bool
source_eq OrderSource.manual_live OrderSource.manual_live = true
source_eq OrderSource.manual_paper OrderSource.manual_paper = true
source_eq OrderSource.bot_live OrderSource.bot_live = true
source_eq OrderSource.bot_paper OrderSource.bot_paper = true
source_eq _ _ = false

abbrev pub source_of : FifoFillInput → OrderSource
source_of fill = or_else fill.source OrderSource.manual_live

-- `byKey.set(key, [...list, fill])`: a `Map` keeps its keys in the order of their first insertion.
pub add_fill : FifoFillInput → List Group → List Group
unfolding source_eq
add_fill fill [] = record { symbol = fill.symbol; source = source_of fill; fills = fill ∷ [] } ∷ []
add_fill fill (g ∷ gs) =
    if g.symbol === fill.symbol && source_eq g.source (source_of fill)
    then record g { fills = g.fills ++ (fill ∷ []) } ∷ gs
    else g ∷ add_fill fill gs

pub group_fills : List FifoFillInput → List Group → List Group
group_fills [] groups = groups
group_fills (fill ∷ fills) groups = group_fills fills (add_fill fill groups)

-- `id_le a b` is `a.localeCompare(b) <= 0`, whose order is the platform's.
module _ (id_le : String → String → Bool) where
  abbrev pub before : FifoFillInput → FifoFillInput → Bool
  before a b =
      if a.transaction_date == b.transaction_date
      then id_le a.id b.id
      else ltb a.transaction_date b.transaction_date

  pub insert_fill : FifoFillInput → List FifoFillInput → List FifoFillInput
  insert_fill fill [] = fill ∷ []
  insert_fill fill (f ∷ fs) = if before fill f then fill ∷ f ∷ fs else f ∷ insert_fill fill fs

  -- `[...symbolFills].sort(...)`, which is stable
  pub sort_fills : List FifoFillInput → List FifoFillInput
  unfolding insert_fill
  sort_fills [] = []
  sort_fills (fill ∷ fills) = insert_fill fill (sort_fills fills)

  pub match_groups : List Group → List RealizedTradeMatch
  unfolding match_sorted
  match_groups [] = []
  match_groups (g ∷ gs) =
      (match_sorted g.source (contract_multiplier g.symbol) (sort_fills g.fills) []).1
      ++ match_groups gs

  pub match_fills : List FifoFillInput → List RealizedTradeMatch
  unfolding match_groups group_fills
  match_fills fills = match_groups (group_fills fills [])

pub compute_trading_pnl : ℤ → ℤ → ℤ → ℤ
compute_trading_pnl start_equity end_equity net_transfers =
    end_equity -ℤ start_equity -ℤ net_transfers
