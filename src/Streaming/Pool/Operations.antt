-- ===== src/Streaming/Pool/Operations.antt =====
-- What `acquire` and `release` do on each of their branches, and the runs of a pool.
use nest_js_mega_backend.Prelude.{
  ℕ, ◌≤◌, ◌<◌, ◌≡◌, ◌≢◌, refl, true, none, some, ◌∷◌, String, arith, length, text_iff,
  if◌then◌else◌, Option-cases, Bool-cases, inl, inr, is_some, ap, ◌∙◌, leb, leb→le, zero, suc, ◌+◌,
  ◌⊎◌, Bool, false, Option, sym,
}
use nest_js_mega_backend.Prelude.Dict.{lookup, lookup-insert, lookup-erase}
use nest_js_mega_backend.Streaming.Pool.{
  at_capacity, session, Holders, StreamerHolder, StreamerPool, started, stopped, add, delete,
  is_held, holds, empty_pool, no_holders, acquire, release, peek, add_holder, start_session,
  stop_session, on_module_destroy,
}
use nest_js_mega_backend.Streaming.Pool.Invariant.{
  IsValid, starts, stops, users_of, acquire-IsValid, release-IsValid, on_module_destroy-IsValid,
  session_of_held, AgreesAt, agree,
}

-- `acquire` refuses exactly the users without a session who find the pool full, and a refusal
-- changes nothing.
pub acquire_refusal :
    (max : ℕ) (user : String) (holder : StreamerHolder) (p : StreamerPool)
    → ((acquire max user holder p).1 ≡ at_capacity
        → (peek user p ≡ none) × (max ≤ length p.sessions) × ((acquire max user holder p).0 ≡ p))
      × ((peek user p ≡ none) × (max ≤ length p.sessions)
          → (acquire max user holder p).1 ≡ at_capacity)
unfolding acquire peek
acquire_refusal max user holder p = ground (arith, leb→le max (length p.sessions))

holds-add : (holder : StreamerHolder) (hs : Holders) → holds holder (add holder hs) ≡ true
unfolding holds add
holds-add StreamerHolder.socket hs = refl
holds-add StreamerHolder.bot hs = refl

room_of_served :
    (max : ℕ) (user : String) (holder : StreamerHolder) (p : StreamerPool)
    → peek user p ≡ none
    → (acquire max user holder p).1 ≢ at_capacity
    → length p.sessions < max
room_of_served max user holder p fresh served = elim (Bool-cases (leb max (length p.sessions))) [
  | inl full ↦ absurd (served ((acquire_refusal max user holder p).1 (fresh, leb→le _ _ full)))
  | inr room ↦ ground arith
]

held_of_session :
    (p : StreamerPool) (user : String) (s : ℕ)
    → AgreesAt p user
    → peek user p ≡ some s
    → (held : Holders) × (lookup user p.holders ≡ some held)
unfolding agree peek
held_of_session p user s a e = elim (Option-cases (lookup user p.holders)) [
  | inl nobody ↦ absurd (ground arith)
  | inr found ↦ found
]

peek_same :
    (user : String) (q p : StreamerPool) (s : ℕ)
    → q.sessions ≡ p.sessions
    → peek user p ≡ some s
    → peek user q ≡ some s
unfolding peek
peek_same user q p s same e = ap (lookup user) same ∙ e

-- A user who has a session is always served, with that session and no other started, and the new
-- holder is added to those who hold it, even when the pool is full.
pub acquire_existing :
    (max : ℕ) (user : String) (holder : StreamerHolder) (p : StreamerPool) {s : ℕ} {held : Holders}
    → peek user p ≡ some s
    → lookup user p.holders ≡ some held
    → let (p', result) = acquire max user holder p in
      (result ≡ session s)
      × (p'.sessions ≡ p.sessions)
      × (p'.log ≡ p.log)
      × (lookup user p'.holders ≡ some (add holder held))
unfolding acquire peek add_holder
acquire_existing max user holder p {held} e h =
    ground (arith, lookup-insert user user (add holder held) p.holders, text_iff user user)

-- Below the ceiling a user without a session gets a new one, which is started and held by the caller.
pub acquire_new :
    (max : ℕ) (user : String) (holder : StreamerHolder) (p : StreamerPool)
    → peek user p ≡ none
    → length p.sessions < max
    → let (p', result) = acquire max user holder p in
      (result ≡ session p.constructed)
      × (peek user p' ≡ some p.constructed)
      × (p'.log ≡ started p.constructed ∷ p.log)
      × (lookup user p'.holders ≡ some (add holder no_holders))
unfolding acquire peek start_session
acquire_new max user holder p e room = ground (
  arith,
  lookup-insert user user p.constructed p.sessions,
  lookup-insert user user (add holder no_holders) p.holders,
  text_iff user user,
)

-- Under the invariant, a call of `acquire` that is not refused hands out the session which the pool
-- then has for the user, who is held by the caller too; the log gains one start exactly when the user
-- had no session before.
pub acquire_serves :
    (max : ℕ) (user : String) (holder : StreamerHolder) (p : StreamerPool)
    → IsValid max p
    → (acquire max user holder p).1 ≢ at_capacity
    → let (p', result) = acquire max user holder p in
      (s : ℕ) × (held : Holders) × (result ≡ session s)
      × (peek user p' ≡ some s)
      × (lookup user p'.holders ≡ some held)
      × (holds holder held ≡ true)
      × (p'.log ≡ (if is_some (peek user p) then p.log else started s ∷ p.log))
acquire_serves max user holder p v served = elim (Option-cases (peek user p)) [
  | inl fresh ↦
      let room = room_of_served max user holder p fresh served in
      let (a, b, c, e) = acquire_new max user holder p fresh room in
      (p.constructed, add holder no_holders, a, b, e, holds-add holder no_holders, rw fresh c)
  | inr (s, found) ↦
      let (held, h) = held_of_session p user s (v.agrees user) found in
      let (a, b, c, e) = acquire_existing max user holder p found h in
      (s, add holder held, a, peek_same user _ p s b found, e, holds-add holder held, rw found c)
]

-- A session outlives a release as long as the other holder remains; the release of the last holder
-- stops it and forgets the user.
pub release_last :
    (max : ℕ) (user : String) (holder : StreamerHolder) (p : StreamerPool) {held : Holders}
    → IsValid max p
    → lookup user p.holders ≡ some held
    → let p' = release user holder p in
      (s : ℕ) × (peek user p ≡ some s)
      × (if is_held (delete holder held)
          then (peek user p' ≡ some s) × (p'.log ≡ p.log)
          else (peek user p' ≡ none) × (p'.log ≡ stopped s ∷ p.log))
unfolding release peek stop_session
release_last max user holder p {held} v h =
    let (s, e) = session_of_held p user held (v.agrees user) h in
    (
      s,
      e,
      elim (Bool-cases (is_held (delete holder held))) [
        | inl kept ↦ rw kept (ground arith)
        | inr last ↦ rw last (ground (arith, lookup-erase user user p.sessions, text_iff user user))
      ],
    )

-- Nobody else's session changes.
pub release_others :
    (user other : String) (holder : StreamerHolder) (p : StreamerPool)
    → user ≢ other
    → (peek other (release user holder p) ≡ peek other p)
      × (lookup other (release user holder p).holders ≡ lookup other p.holders)
unfolding release peek stop_session
release_others user other holder p ne = grind (arith, lookup-insert, lookup-erase, text_iff)

-- What the gateway, the engine and the shutdown can do to a pool.
pub data Step (max : ℕ) : StreamerPool → StreamerPool → Type 0 where
  acquires :
      {p : StreamerPool} (user : String) (holder : StreamerHolder)
      → Step max p (acquire max user holder p).0
  releases :
      {p : StreamerPool} (user : String) (holder : StreamerHolder)
      → Step max p (release user holder p)
  destroys : {p : StreamerPool} → Step max p (on_module_destroy p)

pub data Reach (max : ℕ) (p : StreamerPool) : StreamerPool → Type 0 where
  here : Reach max p p
  next : {q r : StreamerPool} → Reach max p q → Step max q r → Reach max p r

Step-IsValid : {max : ℕ} {p q : StreamerPool} → Step max p q → IsValid max p → IsValid max q
Step-IsValid {max} (acquires {p} user holder) v = acquire-IsValid max user holder p v
Step-IsValid {max} (releases {p} user holder) v = release-IsValid max user holder p v
Step-IsValid {max} (destroys {p}) v = on_module_destroy-IsValid max p v

pub empty_pool-IsValid : (max : ℕ) → IsValid max empty_pool
unfolding lookup agree
empty_pool-IsValid max = record {
  agrees = λ user. refl;
  is_map = tt;
  fits = omega arith;
  started_once = λ s. ground arith;
  balance = λ s. omega arith;
}

Reach-IsValid : {max : ℕ} {p q : StreamerPool} → Reach max p q → IsValid max p → IsValid max q
Reach-IsValid here v = v
Reach-IsValid (next r s) v = Step-IsValid s (Reach-IsValid r v)

-- The session is of one user and was never stopped, or of nobody and was stopped once.
abbrev IsAccounted : ℕ → StreamerPool → Type 0
IsAccounted s p =
    (starts s p.log ≡ 1)
    × (((users_of s p.sessions ≡ 1) × (stops s p.log ≡ 0))
        ⊎ ((users_of s p.sessions ≡ 0) × (stops s p.log ≡ 1)))

abbrev held_at : Option Holders → Bool
held_at none = false
held_at (some held) = is_held held

abbrev pub IsBalanced : ℕ → StreamerPool → Type 0
IsBalanced max p =
    (length p.sessions ≤ max)
    × ((user : String) → is_some (peek user p) ≡ held_at (lookup user p.holders))
    × ((s : ℕ) → p.constructed ≤ s → starts s p.log ≡ 0)
    × ((s : ℕ) → s < p.constructed → IsAccounted s p)

account :
    (users ends : ℕ) → 1 ≡ ends + users → ((users ≡ 1) × (ends ≡ 0)) ⊎ ((users ≡ 0) × (ends ≡ 1))
account zero ends h = inr (omega arith)
account (suc users) ends h = inl (omega arith)

has_of_agree :
    (live : Option ℕ) (held_by : Option Holders)
    → agree live held_by ≡ true
    → is_some live ≡ held_at held_by
unfolding agree
has_of_agree live held_by h = ground arith

IsValid-IsBalanced : (max : ℕ) (p : StreamerPool) → IsValid max p → IsBalanced max p
unfolding peek
IsValid-IsBalanced max p v = (
  v.fits,
  λ user. has_of_agree (lookup user p.sessions) (lookup user p.holders) (v.agrees user),
  λ s late. ground (arith, v.started_once s),
  λ s early.
      let once : starts s p.log ≡ 1 = ground (arith, v.started_once s) in
      (once, account (users_of s p.sessions) (stops s p.log) (sym once ∙ v.balance s)),
)

-- In every run of the pool from empty, whatever the order of the calls, the sessions never exceed
-- the ceiling, a user has a session exactly when somebody holds it, and each session that was
-- constructed was started exactly once, no other was, and it either is the session of one user and was
-- never stopped or is nobody's and was stopped once.
pub Reach_pool : (max : ℕ) (p : StreamerPool) → Reach max empty_pool p → IsBalanced max p
Reach_pool max p r = IsValid-IsBalanced max p (Reach-IsValid r (empty_pool-IsValid max))
