-- ===== src/Arena/Editing.antt =====
-- ChatArena.tsx: the effect of the composer writes the old text back while a message is edited.
use ep2pchat.Base.{◌≡◌, refl, ap, ◌∙◌, String, Option, none, some, List, [], ◌∷◌, or_else}
use ep2pchat.Base.Codec.{Json, Base64}
use ep2pchat.Vault.History.{Shown}
use ep2pchat.Orchestration.{Ratchet}
use ep2pchat.Arena.{Arena}
use ep2pchat.Arena.Composer.{
  typed_to, edited_text, change_text, composer_effect, type_text, type_texts, start_edit,
}

module _ (json : Json) (b64 : Base64) (native : Ratchet) where
  open json use {Value}

  typed_to-editing :
      (o : Option String) (val : String) (a : Arena json b64 native)
      → (typed_to json b64 native o val a).editing_msg ≡ a.editing_msg
  typed_to-editing none val a = refl
  typed_to-editing (some device) val a = refl

  type_text-editing :
      (val : String) (a : Arena json b64 native)
      → (type_text json b64 native val a).editing_msg ≡ a.editing_msg
  unfolding type_text composer_effect change_text
  type_text-editing val a = typed_to-editing _ val (record a { input_text = val })

  type_text-input :
      (m : Shown Value) (val : String) (a : Arena json b64 native)
      → a.editing_msg ≡ some m
      → (type_text json b64 native val a).input_text ≡ or_else m.text ""
  unfolding type_text composer_effect change_text
  type_text-input m val a e =
      let d = change_text json b64 native val a in
      ap (λ o. edited_text json b64 native o d.input_text)
        (typed_to-editing _ val (record a { input_text = val }) ∙ e)

  type_texts-input :
      (m : Shown Value) (ts : List String) (a : Arena json b64 native)
      → a.editing_msg ≡ some m
      → a.input_text ≡ or_else m.text ""
      → (type_texts json b64 native ts a).input_text ≡ or_else m.text ""
  unfolding type_texts
  type_texts-input m [] a e h = h
  type_texts-input m (t ∷ ts) a e h =
      type_texts-input m ts (type_text json b64 native t a) (type_text-editing t a ∙ e)
        (type_text-input m t a e)

  -- Whatever is typed once the edit of a message has started, the composer holds the old text.
  pub start_edit-type_texts :
      (m : Shown Value) (ts : List String) (a : Arena json b64 native)
      → (type_texts json b64 native ts (start_edit json b64 native m a)).input_text
        ≡ or_else m.text ""
  unfolding start_edit composer_effect
  start_edit-type_texts m ts a = type_texts-input m ts (start_edit json b64 native m a) refl refl
