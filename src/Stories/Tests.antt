-- ===== src/Stories/Tests.antt =====
-- The theorem on stories at a concrete input.
use ep2pchat.Base.{◌≡◌, true, false, none, some, [], ◌∷◌, ℕ, ◌<◌, ◌≤◌, arith}
use ep2pchat.Samples.{toy_b64, toy_json, toy_ratchet}
use ep2pchat.Toasts.{no_toasts}
use ep2pchat.Workflows.{loaded}
use ep2pchat.Chat.Tests.{client}
use ep2pchat.Arena.{Peer}
use ep2pchat.Stories.{Stories, handle_post_story}
use ep2pchat.Stories.Viewer.{first_view, ticks, ticks-closed}
use ep2pchat.Stories.Unshared.{handle_post_story-socket}

abbrev bob : Peer
bob = record {
  id = "bob";
  devices =
      record {
        device_id = "d1";
        identity_key = "ik";
        signed_pre_key = "spk";
        one_time_pre_key = none;
      }
      ∷ [];
}

abbrev stories : Stories toy_json toy_b64 toy_ratchet ℕ
stories = record {
  client = client;
  session = some (record {
    user_id = "alice";
    org_id = "o";
    email = "alice@example.org";
    role = "USER";
    username = none;
    department = none;
  });
  contacts = bob ∷ [];
  all_stories = [];
  is_posting_story = false;
  show_story_creator = true;
  story_text = "hello";
  toasts = no_toasts;
}

handle_post_story-socket_example :
    (handle_post_story toy_json toy_b64 toy_ratchet some "hello" "key"
      (loaded ("c", "n"))
      (loaded tt)
      (loaded (some []))
      stories).client.socket
    ≡ stories.client.socket
handle_post_story-socket_example =
    handle_post_story-socket toy_json toy_b64 toy_ratchet some "hello" "key" (loaded ("c", "n"))
      (loaded tt) (loaded (some [])) stories

ticks-closed_example :
    (1 < 2 → ((ticks 2 1 first_view).index ≡ 1) × ((ticks 2 1 first_view).closed ≡ false))
    × (2 ≤ 1 → (ticks 2 1 first_view).closed ≡ true)
ticks-closed_example = ticks-closed 2 1 (omega arith)
