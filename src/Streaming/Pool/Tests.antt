-- ===== src/Streaming/Pool/Tests.antt =====
-- The pool of streamer sessions, schwab-streamer-pool.service.ts, on concrete pools.
use nest_js_mega_backend.Prelude.{
  ℕ, ◌≡◌, ◌≢◌, ◌≤◌, refl, true, none, some, ◌∷◌, if◌then◌else◌, is_some, length,
}
use nest_js_mega_backend.Prelude.Dict.{lookup, insert}
use nest_js_mega_backend.Streaming.Pool.{
  at_capacity, session, Holders, StreamerHolder, StreamerPool, started, stopped, add, delete, holds,
  is_held, empty_pool, no_holders, acquire, release, peek,
}
use nest_js_mega_backend.Streaming.Pool.Invariant.{acquire-IsValid}
use nest_js_mega_backend.Streaming.Pool.Operations.{
  acquire_refusal, acquire_serves, release_last, Reach, acquires, releases, here, next, IsBalanced,
  Reach_pool, empty_pool-IsValid,
}

-- A socket of user "u" holds the only session.
abbrev one_user : StreamerPool
one_user = (acquire 1 "u" StreamerHolder.socket empty_pool).0

refused : (acquire 1 "v" StreamerHolder.bot one_user).1 ≡ at_capacity
unfolding acquire lookup insert
refused = refl

handed_over : peek "u" (release "u" StreamerHolder.bot one_user) ≡ some 0
unfolding acquire release peek lookup insert
handed_over = refl

is_served : (acquire 1 "u" StreamerHolder.bot one_user).1 ≢ at_capacity
unfolding acquire lookup insert
is_served = λ h. cc

acquire_refusal_example :
    ((acquire 1 "v" StreamerHolder.bot one_user).1 ≡ at_capacity
      → (peek "v" one_user ≡ none)
        × (1 ≤ length one_user.sessions)
        × ((acquire 1 "v" StreamerHolder.bot one_user).0 ≡ one_user))
    × ((peek "v" one_user ≡ none) × (1 ≤ length one_user.sessions)
        → (acquire 1 "v" StreamerHolder.bot one_user).1 ≡ at_capacity)
acquire_refusal_example = acquire_refusal 1 "v" StreamerHolder.bot one_user

acquire_serves_example :
    let (p', result) = acquire 1 "u" StreamerHolder.bot one_user in
    (s : ℕ) × (held : Holders) × (result ≡ session s)
    × (peek "u" p' ≡ some s)
    × (lookup "u" p'.holders ≡ some held)
    × (holds StreamerHolder.bot held ≡ true)
    × (p'.log ≡ (if is_some (peek "u" one_user) then one_user.log else started s ∷ one_user.log))
acquire_serves_example =
    acquire_serves 1 "u" StreamerHolder.bot one_user
      (acquire-IsValid 1 "u" StreamerHolder.socket empty_pool (empty_pool-IsValid 1)) is_served

release_last_example :
    let p' = release "u" StreamerHolder.socket one_user in
    (s : ℕ) × (peek "u" one_user ≡ some s)
    × (if is_held (delete StreamerHolder.socket (add StreamerHolder.socket no_holders))
        then (peek "u" p' ≡ some s) × (p'.log ≡ one_user.log)
        else (peek "u" p' ≡ none) × (p'.log ≡ stopped s ∷ one_user.log))
unfolding acquire lookup insert
release_last_example =
    release_last 1 "u" StreamerHolder.socket one_user
      (acquire-IsValid 1 "u" StreamerHolder.socket empty_pool (empty_pool-IsValid 1)) refl

-- One session is started and stopped again.
abbrev a_run : Reach 1 empty_pool (release "u" StreamerHolder.socket one_user)
a_run = next (next here (acquires "u" StreamerHolder.socket)) (releases "u" StreamerHolder.socket)

Reach_pool_example : IsBalanced 1 (release "u" StreamerHolder.socket one_user)
Reach_pool_example = Reach_pool 1 (release "u" StreamerHolder.socket one_user) a_run
