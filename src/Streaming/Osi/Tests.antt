-- ===== src/Streaming/Osi/Tests.antt =====
-- Tests of the option symbols.
use nest_js_mega_backend.Prelude.{◌≡◌, refl}
use nest_js_mega_backend.Prelude.Int.{pos}
use nest_js_mega_backend.Streaming.Osi.{
  Platform, UtcDate, OptionRight, build_osi_symbol, format_date_key,
}

abbrev plain : Platform
plain = record { trim = λ text. text; to_upper_case = λ text. text }

abbrev a_day : UtcDate
a_day = record { year = 2026; month = 8; day = 27 }

build_osi_symbol_run :
    build_osi_symbol plain "SPY" a_day OptionRight.call (pos 77200) ≡ "SPY   260827C00772000"
unfolding build_osi_symbol
build_osi_symbol_run = refl

format_date_key_run : format_date_key a_day ≡ "20260827"
unfolding format_date_key
format_date_key_run = refl
