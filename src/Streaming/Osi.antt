-- ===== src/Streaming/Osi.antt =====
-- src/subapps/schwab/streaming/osi-symbol.util.ts and index-symbol.util.ts, and the ticker test of
-- schwab-streamer-session.ts. What the platform does with texts is a record of functions. A strike
-- is a number of cents, of which `Math.round(strike * 1000)` is ten times the number.
mod Tests
use nest_js_mega_backend.Prelude.{
  ℕ, zero, suc, ◌+◌, ◌-◌, ◌*◌, ◌/◌, ◌%◌, Bool, true, false, not, ◌&&◌, ◌||◌, Option, none, some,
  List, [], ◌∷◌, String, leb, ◌==◌, ◌===◌, if◌then◌else◌, length,
}
use nest_js_mega_backend.Prelude.Int.{ℤ, pos, negsuc}
use nest_js_mega_backend.Prelude.Text.{codes, is_digit}
use Prim.Native.String.{◌++◌, slice}

-- `text.trim()` and `text.toUpperCase()`
pub record Platform : Type 0 where
  pub trim : String → String
  pub to_upper_case : String → String

-- The parts of a date in UTC.
pub record UtcDate : Type 0 where
  pub year : ℕ
  pub month : ℕ
  pub day : ℕ

pub data OptionRight : Type 0 where
  call put : OptionRight

-- the digit of a number below ten
digit : ℕ → String
digit n = slice "0123456789" n (n + 1)

-- The decimal digits of a number, on fuel: a round divides by ten.
digits_from : ℕ → ℕ → String
unfolding digit
digits_from zero n = digit (n % 10)
digits_from (suc fuel) n =
    let rest = digits_from fuel (n / 10) ++ digit (n % 10) in if leb n 9 then digit n else rest

-- `String(n)`
to_decimal : ℕ → String
unfolding digits_from
to_decimal n = digits_from n n

repeated : ℕ → String → String
repeated zero text = ""
repeated (suc n) text = text ++ repeated n text

-- `text.padStart(width, fill)` for a fill of one character
pad_start : (width : ℕ) (fill text : String) → String
unfolding repeated
pad_start width fill text = repeated (width - length (codes text)) fill ++ text

-- `text.padEnd(width, fill)` for a fill of one character
pad_end : (width : ℕ) (fill text : String) → String
unfolding repeated
pad_end width fill text = text ++ repeated (width - length (codes text)) fill

-- `strike * 1000` as a text, for a strike in cents
thousandths : ℤ → String
unfolding to_decimal
thousandths (pos cents) = to_decimal (10 * cents)
thousandths (negsuc n) = "-" ++ to_decimal (10 * suc n)

format_expiration_date : UtcDate → String
unfolding to_decimal pad_start
format_expiration_date date =
    pad_start 2 "0" (to_decimal (date.year % 100))
    ++ pad_start 2 "0" (to_decimal date.month)
    ++ pad_start 2 "0" (to_decimal date.day)

-- `YYYYMMDD`, for a year of four digits at most
unfoldable pub format_date_key : UtcDate → String
unfolding to_decimal pad_start
format_date_key date =
    pad_start 4 "0" (to_decimal date.year)
    ++ pad_start 2 "0" (to_decimal date.month)
    ++ pad_start 2 "0" (to_decimal date.day)

abbrev right_letter : OptionRight → String
right_letter OptionRight.call = "C"
right_letter OptionRight.put = "P"

abbrev root_length : ℕ
root_length = 6

abbrev strike_digits : ℕ
strike_digits = 8

unfoldable pub build_osi_symbol :
    (platform : Platform) (root : String) (expiration : UtcDate) (right : OptionRight) (strike : ℤ)
    → String
unfolding pad_end pad_start thousandths format_expiration_date
build_osi_symbol platform root expiration right strike =
    pad_end root_length " " (platform.to_upper_case root)
    ++ format_expiration_date expiration
    ++ right_letter right
    ++ pad_start strike_digits "0" (thousandths strike)

-- `symbol.trim().toUpperCase()` is one of the two roots of the S&P 500 index
is_index : String → Bool
is_index upper = upper === "SPX" || upper === "SPXW"

unfoldable pub schwab_index_quote_symbol : Platform → String → String
unfolding is_index
schwab_index_quote_symbol platform symbol =
    let upper = platform.to_upper_case (platform.trim symbol) in
    if is_index upper then "$SPX" else upper

unfoldable pub schwab_option_root : Platform → String → String
unfolding is_index
schwab_option_root platform symbol =
    let upper = platform.to_upper_case (platform.trim symbol) in
    if is_index upper then "SPXW" else upper

is_letter : ℕ → Bool
is_letter c = leb 65 c && leb c 90

-- `[A-Z0-9.-]`
is_ticker_code : ℕ → Bool
unfolding is_letter
is_ticker_code c = is_letter c || is_digit c || c == 46 || c == 45

all_ticker_codes : List ℕ → Bool
unfolding is_ticker_code
all_ticker_codes [] = true
all_ticker_codes (c ∷ cs) = is_ticker_code c && all_ticker_codes cs

-- `/^[A-Z][A-Z0-9.-]{0,9}$/`
is_ticker : List ℕ → Bool
unfolding is_letter all_ticker_codes
is_ticker [] = false
is_ticker (c ∷ cs) = is_letter c && all_ticker_codes cs && leb (length cs) 9

unfoldable pub normalize_underlying_symbol : Platform → String → Option String
unfolding is_ticker
normalize_underlying_symbol platform raw =
    let symbol = platform.trim (platform.to_upper_case raw) in
    if is_ticker (codes symbol) then some symbol else none
