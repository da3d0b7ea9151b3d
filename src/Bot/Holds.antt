-- ===== src/Bot/Holds.antt =====
-- src/subapps/schwab/bot/bot-streamer-hold.util.ts: whose feed the bot takes and gives back. A set of
-- users is a list of texts.
use nest_js_mega_backend.Prelude.{
  ◌≡◌, false, not, ◌&&◌, ◌||◌, List, String, arith, has, has-filter, filter,
}

pub record StreamerHoldDiff : Type 0 where
  pub to_acquire : List String
  pub to_release : List String

pub diff_streamer_holds : (armed_user_ids currently_held_user_ids : List String) → StreamerHoldDiff
diff_streamer_holds armed_user_ids currently_held_user_ids = record {
  to_acquire = filter (λ user. not (has currently_held_user_ids user)) armed_user_ids;
  to_release = filter (λ user. not (has armed_user_ids user)) currently_held_user_ids;
}

-- Once the users to release are released and those to acquire are acquired, the feeds are held of
-- exactly the armed users, and nobody was in both lists.
pub diff_streamer_holds_lem :
    (armed held : List String) (user : String)
    → let r = diff_streamer_holds armed held in
      (((has held user && not (has r.to_release user)) || has r.to_acquire user) ≡ has armed user)
      × ((has r.to_acquire user && has r.to_release user) ≡ false)
unfolding diff_streamer_holds
diff_streamer_holds_lem armed held user =
    rw (has-filter _ armed user, has-filter _ held user) (ground arith)
