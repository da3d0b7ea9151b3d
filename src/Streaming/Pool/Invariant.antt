-- ===== src/Streaming/Pool/Invariant.antt =====
-- The invariant of `SchwabStreamerPool` and its operations.
use nest_js_mega_backend.Prelude.{
  ℕ, ◌+◌, ◌≤◌, ◌<◌, ◌≡◌, refl, Bool, true, false, Option, none, some, List, [], ◌∷◌, String, arith,
  length, text_iff, leb, ltb, ◌==◌, Option-cases, Bool-cases, inl, inr, if◌then◌else◌, ◌∙◌,
}
use nest_js_mega_backend.Prelude.Dict.{
  Dict, lookup, insert, erase, IsMap, lookup-insert, lookup-erase, insert-IsMap, erase-IsMap,
  length-insert_new, length-erase, erase_absent,
}
use nest_js_mega_backend.Streaming.Pool.{
  Holders, StreamerHolder, StreamerPool, SessionEvent, started, stopped, add, delete, is_held,
  no_holders, acquire, release, add_holder, start_session, stop_session, on_module_destroy,
  stop_all,
}

abbrev one_if : Bool → ℕ
one_if b = if b then 1 else 0

-- How often a session was started, how often it was stopped, and how many users have it.
abbrev pub starts : ℕ → List SessionEvent → ℕ
starts s [] = 0
starts s (started t ∷ log) = one_if (t == s) + starts s log
starts s (stopped t ∷ log) = starts s log

abbrev pub stops : ℕ → List SessionEvent → ℕ
stops s [] = 0
stops s (started t ∷ log) = stops s log
stops s (stopped t ∷ log) = one_if (t == s) + stops s log

abbrev pub users_of : ℕ → Dict ℕ → ℕ
users_of s [] = 0
users_of s ((user, t) ∷ m) = one_if (t == s) + users_of s m

users_of-insert_new :
    (s : ℕ) (user : String) (t : ℕ) (m : Dict ℕ)
    → lookup user m ≡ none
    → users_of s (insert user t m) ≡ users_of s m + one_if (t == s)
unfolding lookup insert
users_of-insert_new s user t [] e = ground arith
users_of-insert_new s user t ((u, w) ∷ m) e = ground (arith, users_of-insert_new s user t m)

users_of-erase :
    (s : ℕ) (user : String) (t : ℕ) (m : Dict ℕ)
    → IsMap m
    → lookup user m ≡ some t
    → users_of s (erase user m) + one_if (t == s) ≡ users_of s m
unfolding lookup erase
users_of-erase s user t [] h e = cc
users_of-erase s user t ((u, w) ∷ m) h e =
    ground (arith, text_iff u user, users_of-erase s user t m h.1, erase_absent user m)

-- A user has a session and somebody who holds it, or neither.
unfoldable pub agree : Option ℕ → Option Holders → Bool
agree none none = true
agree (some s) (some hs) = is_held hs
agree none (some hs) = false
agree (some s) none = false

abbrev pub AgreesAt : StreamerPool → String → Type 0
AgreesAt p user = agree (lookup user p.sessions) (lookup user p.holders) ≡ true

pub record IsValid (max : ℕ) (p : StreamerPool) : Type 0 where
  pub agrees : (user : String) → AgreesAt p user
  pub is_map : IsMap p.sessions
  pub fits : length p.sessions ≤ max
  -- every session that was constructed was started once, and no other
  pub started_once : (s : ℕ) → starts s p.log ≡ (if ltb s p.constructed then 1 else 0)
  -- what was started is of one user, or was stopped
  pub balance : (s : ℕ) → starts s p.log ≡ stops s p.log + users_of s p.sessions

add_held : (holder : StreamerHolder) (hs : Holders) → is_held (add holder hs) ≡ true
unfolding add is_held
add_held StreamerHolder.socket hs = ground arith
add_held StreamerHolder.bot hs = ground arith

-- `agrees` for a pool in which the entries of one user have changed.
agrees_insert :
    (p : StreamerPool) (user : String) (s : ℕ) (hs : Holders)
    → is_held hs ≡ true
    → ((u : String) → AgreesAt p u)
    → (u : String)
    → agree (lookup u (insert user s p.sessions)) (lookup u (insert user hs p.holders)) ≡ true
unfolding agree
agrees_insert p user s hs h before u =
    rw (lookup-insert user u s p.sessions, lookup-insert user u hs p.holders)
      (ground (arith, before u))

agrees_holders :
    (p : StreamerPool) (user : String) (s : ℕ) (hs : Holders)
    → is_held hs ≡ true
    → lookup user p.sessions ≡ some s
    → ((u : String) → AgreesAt p u)
    → (u : String) → agree (lookup u p.sessions) (lookup u (insert user hs p.holders)) ≡ true
unfolding agree
agrees_holders p user s hs h e before u =
    rw (lookup-insert user u hs p.holders) (ground (arith, before u, text_iff user u))

agrees_erase :
    (p : StreamerPool) (user : String) (hs : Holders)
    → ((u : String) → AgreesAt p u)
    → (u : String)
    → agree (lookup u (erase user p.sessions)) (lookup u (erase user (insert user hs p.holders)))
      ≡ true
unfolding agree
agrees_erase p user hs before u =
    rw
      (
        lookup-erase user u p.sessions,
        lookup-erase user u (insert user hs p.holders),
        lookup-insert user u hs p.holders,
      )
      (ground (arith, before u))

start_session-IsValid :
    (max : ℕ) (user : String) (holder : StreamerHolder) (p : StreamerPool)
    → IsValid max p
    → lookup user p.sessions ≡ none
    → length p.sessions < max
    → IsValid max (start_session user holder p)
unfolding start_session
start_session-IsValid max user holder p v fresh room =
    let grown = length-insert_new user p.constructed p.sessions fresh in
    record {
      agrees = agrees_insert p user p.constructed _ (add_held holder no_holders) v.agrees;
      is_map = insert-IsMap user p.constructed p.sessions v.is_map;
      fits = omega (arith, grown);
      started_once = λ s. ground (arith, v.started_once s);
      balance = λ s.
          ground (arith, v.balance s, users_of-insert_new s user p.constructed p.sessions fresh);
    }

add_holder-IsValid :
    (max : ℕ) (user : String) (holder : StreamerHolder) (s : ℕ) (p : StreamerPool)
    → IsValid max p
    → lookup user p.sessions ≡ some s
    → IsValid max (record p { holders = add_holder user holder p.holders })
unfolding add_holder
add_holder-IsValid max user holder s p v e = elim (Option-cases (lookup user p.holders)) [
  | inl nobody ↦ rw (nobody, add_holder) v
  | inr (held, e') ↦
      rw (e', add_holder)
        record {
          agrees = agrees_holders p user s _ (add_held holder held) e v.agrees;
          is_map = v.is_map;
          fits = v.fits;
          started_once = v.started_once;
          balance = v.balance;
        }
]

pub acquire-IsValid :
    (max : ℕ) (user : String) (holder : StreamerHolder) (p : StreamerPool)
    → IsValid max p
    → IsValid max (acquire max user holder p).0
unfolding acquire
acquire-IsValid max user holder p v = elim (Option-cases (lookup user p.sessions)) [
  | inl fresh ↦
      rw (fresh, acquire)
        (elim (Bool-cases (leb max (length p.sessions))) [
          | inl full ↦ rw full v
          | inr room ↦ rw room (start_session-IsValid max user holder p v fresh (ground arith))
        ])
  | inr (s, e) ↦ rw (e, acquire) (add_holder-IsValid max user holder s p v e)
]

-- Under the invariant a user who is held has a session.
pub session_of_held :
    (p : StreamerPool) (user : String) (held : Holders)
    → AgreesAt p user
    → lookup user p.holders ≡ some held
    → (s : ℕ) × (lookup user p.sessions ≡ some s)
unfolding agree
session_of_held p user held a e = elim (Option-cases (lookup user p.sessions)) [
  | inl nothing ↦ absurd (ground arith)
  | inr found ↦ found
]

stop_session-IsValid :
    (max : ℕ) (user : String) (s : ℕ) (hs : Holders) (p : StreamerPool)
    → IsValid max p
    → lookup user p.sessions ≡ some s
    → IsValid max (stop_session user s (record p { holders = insert user hs p.holders }))
unfolding stop_session
stop_session-IsValid max user s hs p v e =
    let shrunk = length-erase user s p.sessions v.is_map e in
    record {
      agrees = agrees_erase p user hs v.agrees;
      is_map = erase-IsMap user p.sessions v.is_map;
      fits = omega (arith, shrunk);
      started_once = v.started_once;
      balance = λ t. ground (arith, v.balance t, users_of-erase t user s p.sessions v.is_map e);
    }

pub release-IsValid :
    (max : ℕ) (user : String) (holder : StreamerHolder) (p : StreamerPool)
    → IsValid max p
    → IsValid max (release user holder p)
unfolding release
release-IsValid max user holder p v = elim (Option-cases (lookup user p.holders)) [
  | inl nobody ↦ rw (nobody, release) v
  | inr (held, e) ↦
      rw (e, release)
        (let (s, e') = session_of_held p user held (v.agrees user) e in
          elim (Bool-cases (is_held (delete holder held))) [
            | inl kept ↦ rw kept record {
              agrees = agrees_holders p user s _ kept e' v.agrees;
              is_map = v.is_map;
              fits = v.fits;
              started_once = v.started_once;
              balance = v.balance;
            }
            | inr last ↦ rw (last, e') (stop_session-IsValid max user s _ p v e')
          ])
]

starts-stop_all :
    (s : ℕ) (m : Dict ℕ) (log : List SessionEvent) → starts s (stop_all m log) ≡ starts s log
unfolding stop_all
starts-stop_all s [] log = refl
starts-stop_all s ((u, t) ∷ m) log = starts-stop_all s m (stopped t ∷ log)

stops-stop_all :
    (s : ℕ) (m : Dict ℕ) (log : List SessionEvent)
    → stops s (stop_all m log) ≡ stops s log + users_of s m
unfolding stop_all
stops-stop_all s [] log = omega arith
stops-stop_all s ((u, t) ∷ m) log = omega (arith, stops-stop_all s m (stopped t ∷ log))

pub on_module_destroy-IsValid :
    (max : ℕ) (p : StreamerPool) → IsValid max p → IsValid max (on_module_destroy p)
unfolding on_module_destroy agree lookup
on_module_destroy-IsValid max p v = record {
  agrees = λ user. refl;
  is_map = tt;
  fits = omega arith;
  started_once = λ s. starts-stop_all s p.sessions p.log ∙ v.started_once s;
  balance = λ s.
      omega
        (arith, starts-stop_all s p.sessions p.log, stops-stop_all s p.sessions p.log, v.balance s);
}
