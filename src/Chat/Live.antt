-- ===== src/Chat/Live.antt =====
-- useChat.ts and vault.ts: an event that arrives changes what is shown as a reload would.
use mathlib.Core.Path.{ap₂}
use ep2pchat.Base.{
  ◌≡◌, refl, ap, sym, ◌∙◌, String, true, false, Option, none, some, List, [], ◌∷◌, ◌++◌, map, arith,
  string_dec, keep_if-append, Bool-cases, inl, inr, truthy, append-nil, if-true, if-false,
}
use ep2pchat.Base.Codec.{Json, Base64}
use ep2pchat.Vault.Db.{MessageRow, EventRow}
use ep2pchat.Vault.Messages.{str_eq, sql_eq}
use ep2pchat.Vault.History.{Shown, shown_row, event_row, apply_event, apply_events, resolve}
use ep2pchat.Orchestration.{Ratchet, Incoming}
use ep2pchat.Chat.{
  Structured, structured_of, structured_from, typed, plain, live_event, saved_event,
}

module _ (json : Json) where
  open json use {Value, parse-stringify}

  apply_event-id :
      (kind : String) (v : Value) (m : Shown Value) → (apply_event json kind v m).id ≡ m.id
  unfolding apply_event
  apply_event-id kind v m = ground arith

  apply_events-id : (es : List EventRow) (m : Shown Value) → (apply_events json es m).id ≡ m.id
  unfolding apply_events
  apply_events-id [] m = refl
  apply_events-id (e ∷ es) m = apply_events-id es _ ∙ apply_event-id e.event_type _ m

  apply_events-append :
      (es fs : List EventRow) (m : Shown Value)
      → apply_events json (es ++ fs) m ≡ apply_events json fs (apply_events json es m)
  unfolding apply_events
  apply_events-append [] fs m = refl
  apply_events-append (e ∷ es) fs m = apply_events-append es fs _

module _ (json : Json) (b64 : Base64) (native : Ratchet) where
  abbrev EditsBody : Structured json b64 native → Type 0
  EditsBody s = str_eq s.kind "edit" ≡ true → s.body ≡ json.field s.whole "body"

  plain-EditsBody : (text : String) → EditsBody (plain json b64 native text)
  unfolding string_dec
  plain-EditsBody text h = cc

  typed-EditsBody :
      (text : String) (v : json.Value) (o : Option String)
      → EditsBody (typed json b64 native text v o)
  typed-EditsBody text v none = plain-EditsBody text
  typed-EditsBody text v (some kind) = elim (Bool-cases (truthy kind)) [
    | inl t ↦ rw (if-true (truthy kind) _ (plain json b64 native text) t) (λ _. refl)
    | inr f ↦ rw (if-false (truthy kind) _ (plain json b64 native text) f) (plain-EditsBody text)
  ]

  structured_from-EditsBody :
      (text : String) (o : Option json.Value) → EditsBody (structured_from json b64 native text o)
  structured_from-EditsBody text none = plain-EditsBody text
  structured_from-EditsBody text (some v) = typed-EditsBody text v (json.field v "type")

  -- An edit's body is the one in the JSON that is stored.
  structured_of-EditsBody : (text : String) → EditsBody (structured_of json b64 native text)
  unfolding structured_of
  structured_of-EditsBody text = structured_from-EditsBody text (json.parse text)

  live-apply_event :
      (s : Structured json b64 native) (m : Shown json.Value)
      → EditsBody s
      → sql_eq s.target_id m.id ≡ true
      → live_event json b64 native s m ≡ apply_event json s.kind s.whole m
  unfolding live_event apply_event
  live-apply_event s m e h = ground arith

  live-other :
      (s : Structured json b64 native) (m : Shown json.Value)
      → sql_eq s.target_id m.id ≡ false
      → live_event json b64 native s m ≡ m
  unfolding live_event
  live-other s m h = rw h

  module _ (p : Incoming b64 native) (s : Structured json b64 native) (now : String)
      (es : List EventRow) (m : MessageRow) where
    abbrev row : EventRow
    row = event_row json now (saved_event json b64 native p s)

    resolve-id : (resolve json es m).id ≡ m.id
    unfolding resolve
    resolve-id = apply_events-id json _ (shown_row json m)

    resolve-other :
        sql_eq s.target_id m.id ≡ false → resolve json (es ++ row ∷ []) m ≡ resolve json es m
    unfolding resolve
    resolve-other h = rw (keep_if-append, h) (rw append-nil)

    resolve-hit :
        sql_eq s.target_id m.id ≡ true
        → resolve json (es ++ row ∷ []) m ≡ apply_event json s.kind s.whole (resolve json es m)
    unfolding resolve apply_events
    resolve-hit h =
        rw (keep_if-append, h) (rw (apply_events-append, json.parse-stringify s.whole) refl)

  -- Applying an edit, a deletion or a reaction to the messages that are shown gives what a reload
  -- of the same rows gives once the event is stored: for every plaintext that was received.
  pub live-resolve :
      (p : Incoming b64 native) (text now : String) (es : List EventRow) (ms : List MessageRow)
      → let s = structured_of json b64 native text in
        map (live_event json b64 native s) (map (resolve json es) ms)
        ≡ map (resolve json (es ++ event_row json now (saved_event json b64 native p s) ∷ [])) ms
  live-resolve p text now es [] = refl
  live-resolve p text now es (m ∷ ms) =
      let s = structured_of json b64 native text in
      let id = resolve-id p s now es m in
      let tail = live-resolve p text now es ms in
      elim (Bool-cases (sql_eq s.target_id m.id)) [
        | inl h ↦
            ap₂ ◌∷◌
              (live-apply_event s (resolve json es m) (structured_of-EditsBody text)
                  (ap (sql_eq s.target_id) id ∙ h)
                ∙ sym (resolve-hit p s now es m h))
              tail
        | inr h ↦
            ap₂ ◌∷◌
              (live-other s (resolve json es m) (ap (sql_eq s.target_id) id ∙ h)
                ∙ sym (resolve-other p s now es m h))
              tail
      ]
