-- ===== src/Stories/Viewer.antt =====
-- apps/desktop/src/features/stories/StoryViewer.tsx: the stories of a contact, one after the other,
-- and the text of the one that is shown.
use ep2pchat.Base.{
  ℕ, zero, suc, ◌+◌, ◌-◌, ◌<◌, ◌≤◌, ◌≡◌, refl, String, Bool, true, false, Option, none, some, arith,
  dec_lt, ite,
}
use ep2pchat.Base.Exec.{Result, ok, err}
use ep2pchat.Vault.Db.{Db, StoryKeyRow}
use ep2pchat.Vault.Keyed.{get_story_key}

pub record Viewer : Type 0 where
  pub index : ℕ
  pub closed : Bool
  pub decrypted_text : String

abbrev pub first_view : Viewer
first_view = record { index = 0; closed = false; decrypted_text = "DECRYPTING_TUNNEL..." }

abbrev moved_on : ℕ → Viewer → Viewer
moved_on count v =
    ite (dec_lt v.index (count - 1)) (record v { index = v.index + 1 }) (record v { closed = true })

-- The timer of five seconds, with that many stories; a viewer that is closed has none.
unfoldable pub tick : ℕ → Viewer → Viewer
tick count v = elim v.closed [ true ↦ v | false ↦ moved_on count v ]

unfoldable pub ticks : ℕ → ℕ → Viewer → Viewer
ticks count zero v = v
ticks count (suc n) v = tick count (ticks count n v)

-- `decrypt` is `story_decrypt` on a ciphertext, a key and a nonce, and `none` its rejection; what
-- the vault throws is not caught, and leaves the text.
module _ (decrypt : String → String → String → Option String) where
  abbrev opened_text : Option String → String
  opened_text none = "DATA_CORRUPTION: DECRYPT_FAIL"
  opened_text (some text) = text

  abbrev shown_text : String → Result (Option StoryKeyRow) × Db → Viewer → Viewer × Db
  shown_text ciphertext (ok none, d) v =
      (record v { decrypted_text = "ACCESS_RESTRICTED: KEY_UNAVAILABLE" }, d)
  shown_text ciphertext (ok (some k), d) v = (
    record v { decrypted_text = opened_text (decrypt ciphertext k.story_key_b64 k.nonce_b64) },
    d,
  )
  shown_text ciphertext (err e, d) v = (v, d)

  -- The effect of the story that is shown.
  unfoldable pub show_story : String → String → Viewer → Db → Viewer × Db
  show_story user_id ciphertext v d = shown_text ciphertext (get_story_key user_id d) v

before :
    (count n : ℕ)
    → n < count
    → ((ticks count n first_view).index ≡ n) × ((ticks count n first_view).closed ≡ false)
unfolding ticks tick
before count zero h = (refl, refl)
before count (suc n) h = ground (arith, before count n)

after : (count n : ℕ) → count ≤ n → 0 < count → (ticks count n first_view).closed ≡ true
unfolding ticks tick
after count zero h p = absurd (omega arith)
after count (suc n) h p = ground (arith, before count n, after count n)

-- With at least one story, each is shown for one period of the timer, in turn, and the viewer is
-- closed after the last one, for good.
pub ticks-closed :
    (count n : ℕ)
    → 0 < count
    → (n < count
        → ((ticks count n first_view).index ≡ n) × ((ticks count n first_view).closed ≡ false))
      × (count ≤ n → (ticks count n first_view).closed ≡ true)
ticks-closed count n p = (before count n, λ h. after count n h p)
