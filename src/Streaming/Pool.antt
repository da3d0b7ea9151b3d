-- ===== src/Streaming/Pool.antt =====
-- `SchwabStreamerPool` of src/subapps/schwab/streaming/schwab-streamer-pool.service.ts.
-- A session is the number under which it was constructed; its sockets and timers are not modelled,
-- and its `start` and `stop` are entries of the log, in the order in which they are called.
pub mod Invariant
pub mod Operations
mod Tests
use nest_js_mega_backend.Prelude.{
  ℕ, ◌+◌, Bool, true, false, ◌||◌, Option, none, some, List, [], ◌∷◌, map, String, leb,
  if◌then◌else◌, length,
}
use nest_js_mega_backend.Prelude.Dict.{Dict, lookup, insert, erase}

pub data StreamerHolder : Type 0 where
  socket bot : StreamerHolder

-- `Set<StreamerHolder>`: the members among the two holders
pub record Holders : Type 0 where
  pub has_socket : Bool
  pub has_bot : Bool

pub data SessionEvent : Type 0 where
  started stopped : ℕ → SessionEvent

pub record StreamerPool : Type 0 where
  pub sessions : Dict ℕ
  pub holders : Dict Holders
  pub constructed : ℕ
  pub log : List SessionEvent

pub data Acquired : Type 0 where
  session : ℕ → Acquired
  at_capacity : Acquired

abbrev pub no_holders : Holders
no_holders = record { has_socket = false; has_bot = false }

-- `set.add(holder)`
unfoldable pub add : StreamerHolder → Holders → Holders
add StreamerHolder.socket hs = record hs { has_socket = true }
add StreamerHolder.bot hs = record hs { has_bot = true }

-- `set.delete(holder)`
unfoldable pub delete : StreamerHolder → Holders → Holders
delete StreamerHolder.socket hs = record hs { has_socket = false }
delete StreamerHolder.bot hs = record hs { has_bot = false }

unfoldable pub holds : StreamerHolder → Holders → Bool
holds StreamerHolder.socket hs = hs.has_socket
holds StreamerHolder.bot hs = hs.has_bot

-- `set.size > 0`
unfoldable pub is_held : Holders → Bool
is_held hs = hs.has_socket || hs.has_bot

abbrev pub empty_pool : StreamerPool
empty_pool = record { sessions = []; holders = []; constructed = 0; log = [] }

-- `this.holders.get(userId)?.add(holder)`
add_holder : String → StreamerHolder → Dict Holders → Dict Holders
unfolding add
add_holder user holder hs = elim (lookup user hs) [
  | none ↦ hs
  | some held ↦ insert user (add holder held) hs
]

-- `new SchwabStreamerSession(...)`, its entries in both maps, and `session.start()`
start_session : String → StreamerHolder → StreamerPool → StreamerPool
unfolding add
start_session user holder p = record {
  sessions = insert user p.constructed p.sessions;
  holders = insert user (add holder no_holders) p.holders;
  constructed = p.constructed + 1;
  log = started p.constructed ∷ p.log;
}

-- The newest event stands first in the log.
pub acquire : ℕ → String → StreamerHolder → StreamerPool → StreamerPool × Acquired
unfolding add_holder start_session
acquire max_streamer_sessions user holder p = elim (lookup user p.sessions) [
  | some existing ↦ (record p { holders = add_holder user holder p.holders }, session existing)
  | none ↦
      if leb max_streamer_sessions (length p.sessions)
      then (p, at_capacity)
      else (start_session user holder p, session p.constructed)
]

pub peek : String → StreamerPool → Option ℕ
peek user p = lookup user p.sessions

-- `session.stop()` and the two deletions
stop_session : String → ℕ → StreamerPool → StreamerPool
stop_session user s p = record p {
  sessions = erase user p.sessions;
  holders = erase user p.holders;
  log = stopped s ∷ p.log;
}

-- `holderSet.delete(holder)` changes the set that the map holds.
pub release : String → StreamerHolder → StreamerPool → StreamerPool
unfolding delete is_held stop_session
release user holder p = elim (lookup user p.holders) [
  | none ↦ p
  | some held ↦
      let p' = record p { holders = insert user (delete holder held) p.holders } in
      if is_held (delete holder held)
      then p'
      else elim (lookup user p.sessions) [ none ↦ p' | some s ↦ stop_session user s p' ]
]

pub acquire_for_background_work : ℕ → String → StreamerPool → StreamerPool × Acquired
unfolding acquire
acquire_for_background_work max user p = acquire max user StreamerHolder.bot p

pub release_background_work : String → StreamerPool → StreamerPool
unfolding release
release_background_work user p = release user StreamerHolder.bot p

pub active_user_ids : StreamerPool → List String
active_user_ids p = map (λ entry. entry.0) p.sessions

stop_all : Dict ℕ → List SessionEvent → List SessionEvent
stop_all [] log = log
stop_all ((user, s) ∷ rest) log = stop_all rest (stopped s ∷ log)

pub on_module_destroy : StreamerPool → StreamerPool
unfolding stop_all
on_module_destroy p = record p { sessions = []; holders = []; log = stop_all p.sessions p.log }
