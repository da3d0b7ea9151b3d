-- ===== src/Streaming/Session.antt =====
-- `SchwabStreamerSession` of src/subapps/schwab/streaming/schwab-streamer-session.ts: its fields,
-- and the requests that it sends. What the session does to the outside is a log, the newest entry
-- first. Of a request the service, the command and the keys are kept, not the numbers of the fields
-- that it asks for, and the keys of a chunk stand as a list, which the code joins with commas.
-- Prices are numbers of cents; an instant is a number of milliseconds.
pub mod Pins
pub mod Feed
pub mod Connection
pub mod Events
pub mod Wanted
pub mod Faithful
pub mod Refinement
pub mod Switches
pub mod Runs
pub mod Login
pub mod PinLaws
pub mod View
pub mod Outage
pub mod FeedLock
pub mod Stopped
mod Tests
use nest_js_mega_backend.Prelude.{
  ℕ, ◌+◌, Bool, true, false, ◌||◌, Option, none, some, List, [], ◌∷◌, ◌++◌, String, ◌===◌,
  if◌then◌else◌, has,
}
use nest_js_mega_backend.Prelude.Dict.{Dict}
use nest_js_mega_backend.Streaming.Ladder.{
  chunk_array, options_subscribe_chunk_size, default_ladder_strike_count,
}

-- `none_yet` is a socket that is null; the rest is `readyState`.
pub data SocketState : Type 0 where
  none_yet connecting opened closing closed : SocketState

pub data Service : Type 0 where
  admin levelone_equities chart_equity chart_options levelone_options : Service

pub data Command : Type 0 where
  login subs add unsubs : Command

pub record Request : Type 0 where
  pub service : Service
  pub command : Command
  pub request_id : ℕ
  pub keys : List String

pub record OptionTick : Type 0 where
  pub symbol : String
  pub bid : Option ℕ
  pub ask : Option ℕ

pub record OptionQuote : Type 0 where
  pub bid : Option ℕ
  pub ask : Option ℕ
  pub at : ℕ

pub record StreamStatus : Type 0 where
  pub connected : Bool
  pub last_frame_at : Option ℕ
  pub reason : Option String

pub data Effect : Type 0 where
  socket_constructed token_requested refresh_forced : Effect
  sent : Request → Effect
  stream_status : StreamStatus → Effect
  ladder_recentered : (center_strike : ℕ) (symbols : List String) → Effect
  option_ticks : List OptionTick → Effect
  underlying_price : (symbol : String) (price timestamp : ℕ) → Effect

pub record Wire : Type 0 where
  pub socket : SocketState
  pub request_id : ℕ
  pub log : List Effect

pub record Session : Type 0 where
  pub wire : Wire
  pub logged_in : Bool
  pub disconnected_at : Option ℕ
  pub last_frame_at : Option ℕ
  pub heartbeat_timer : Bool
  pub flush_timer : Bool
  pub reconnect_timer : Option ℕ
  pub destroyed : Bool
  pub auth_recovery_attempted : Bool
  pub stream_status_reason : Option String
  pub underlying_symbol : String
  pub quote_symbol : String
  pub ladder_strike_count : ℕ
  pub feed_lock : Option String
  pub option_root : String
  pub strike_increment : ℕ
  pub last_known_spot_price : Option ℕ
  pub center_strike : Option ℕ
  pub current_expiration_date_key : Option String
  pub current_window_symbols : List String
  pub pinned_option_symbols : List String
  pub pin_owners : Dict (List String)
  pub pending_option_ticks : List OptionTick
  pub pending_underlying_price : Option ℕ
  pub last_option_quotes : Dict OptionQuote
  pub option_chart_symbol : Option String

-- `new SchwabStreamerSession(...)`
abbrev pub new_session : Session
new_session = record {
  wire = record { socket = none_yet; request_id = 1; log = [] };
  logged_in = false;
  disconnected_at = none;
  last_frame_at = none;
  heartbeat_timer = false;
  flush_timer = false;
  reconnect_timer = none;
  destroyed = false;
  auth_recovery_attempted = false;
  stream_status_reason = none;
  underlying_symbol = "SPY";
  quote_symbol = "SPY";
  ladder_strike_count = default_ladder_strike_count;
  feed_lock = none;
  option_root = "SPY";
  strike_increment = 100;
  last_known_spot_price = none;
  center_strike = none;
  current_expiration_date_key = none;
  current_window_symbols = [];
  pinned_option_symbols = [];
  pin_owners = [];
  pending_option_ticks = [];
  pending_underlying_price = none;
  last_option_quotes = [];
  option_chart_symbol = none;
}

unfoldable pub is_open : SocketState → Bool
is_open SocketState.opened = true
is_open _ = false

-- an effect that needs no open socket
abbrev pub note : Effect → Wire → Wire
note effect w = record w { log = effect ∷ w.log }

-- `sendRequest`, with the `nextRequestId()` of its argument, which a dropped request uses up too
unfoldable pub send_request : Service → Command → List String → Wire → Wire
unfolding is_open
send_request service command keys w = record w {
  request_id = w.request_id + 1;
  log =
      if is_open w.socket
      then sent
          (record { service = service; command = command; request_id = w.request_id; keys = keys })
        ∷ w.log
      else w.log;
}

-- `chunkArray(symbols, OPTIONS_SUBSCRIBE_CHUNK_SIZE)`, whose exception no positive size throws
unfoldable pub chunks_of : List String → List (List String)
chunks_of symbols = elim (chunk_array symbols options_subscribe_chunk_size) [
  | none ↦ []
  | some chunks ↦ chunks
]

unfoldable pub send_chunks : Command → List (List String) → Wire → Wire
unfolding send_request
send_chunks command [] w = w
send_chunks command (chunk ∷ chunks) w =
    send_chunks command chunks (send_request levelone_options command chunk w)

unfoldable pub unsubscribe_options : List String → Wire → Wire
unfolding send_chunks chunks_of
unsubscribe_options symbols w = send_chunks unsubs (chunks_of symbols) w

unfoldable pub add_option_subscriptions : List String → Wire → Wire
unfolding send_chunks chunks_of
add_option_subscriptions symbols w = send_chunks add (chunks_of symbols) w

-- `set.add(key)`
abbrev pub set_add : String → List String → List String
set_add key set = if has set key then set else set ++ (key ∷ [])
