-- ===== src/Api/Outcome.antt =====
-- api.ts, `requestJson`: which error it throws, and when it throws none.
use ep2pchat.Base.{
  ℕ, ◌≡◌, ◌≢◌, refl, subst, sym, ap, ◌∙◌, ◌≤◌, ◌<◌, ◌⊎◌, inl, inr, String, true, false, Option,
  none, some, List, [], ◌∷◌, string_dec, ℕ_discrete, dec_lt, arith, Bool-cases,
}
use ep2pchat.Base.Codec.{Json}
use ep2pchat.Errors.{ErrorCategory, network, auth, forbidden, validation, server, maintenance}
use ep2pchat.Api.{
  Response, Net, Reply, data_, failed, Request, is_ok, error_of, message_of, refusal, answered,
  accepted, fetched, request_json,
}

-- The category of what is thrown.
abbrev pub category_of : {json : Json} → Reply json → Option ErrorCategory
category_of (data_ v) = none
category_of (failed e) = some e.category

-- What `fetch` gives next.
abbrev pub next_answer : {json : Json} → List (Option (Response json)) → Option (Response json)
next_answer [] = none
next_answer (o ∷ rest) = o

module _ (json : Json) (decimal : ℕ → String) where
  open json use {Value}

  -- The category of the error that an answer gives; none if it is no error.
  pub data Verdict : Option (Response json) → Option ErrorCategory → Type 0 where
    unreachable : Verdict none (some network)
    fine :
        (r : Response json)
        → is_ok r.status ≡ true
        → error_of json decimal r ≡ none
        → Verdict (some r) none
    reported :
        (r : Response json) (e : String)
        → is_ok r.status ≡ true
        → error_of json decimal r ≡ some e
        → e ≢ "MAINTENANCE_MODE"
        → Verdict (some r) (some validation)
    expired : (r : Response json) → r.status ≡ 401 → Verdict (some r) (some auth)
    denied : (r : Response json) → r.status ≡ 403 → Verdict (some r) (some forbidden)
    maintained :
        (r : Response json)
        → r.status ≢ 401
        → r.status ≢ 403
        → (is_ok r.status ≡ false) ⊎ (error_of json decimal r ≡ some "MAINTENANCE_MODE")
        → message_of json decimal r ≡ "MAINTENANCE_MODE"
        → Verdict (some r) (some maintenance)
    broken :
        (r : Response json)
        → is_ok r.status ≡ false
        → 500 ≤ r.status
        → message_of json decimal r ≢ "MAINTENANCE_MODE"
        → Verdict (some r) (some server)
    rejected :
        (r : Response json)
        → is_ok r.status ≡ false
        → r.status < 500
        → r.status ≢ 401
        → r.status ≢ 403
        → message_of json decimal r ≢ "MAINTENANCE_MODE"
        → Verdict (some r) (some validation)

  module _ (r : Response json) where
    judged : (c d : ErrorCategory) → Verdict (some r) (some c) → d ≡ c → Verdict (some r) (some d)
    judged c d v e = subst (λ x. Verdict (some r) (some x)) (sym e) v

    refusal-Verdict :
        is_ok r.status ≡ false → Verdict (some r) (some (refusal json decimal r).category)
    unfolding refusal
    refusal-Verdict h = elim (ℕ_discrete r.status 401) [
      | yes a ↦ judged auth _ (expired r a) (ground arith)
      | no a ↦ elim (ℕ_discrete r.status 403) [
        | yes b ↦ judged forbidden _ (denied r b) (ground arith)
        | no b ↦ elim (string_dec (message_of json decimal r) "MAINTENANCE_MODE") [
          | yes c ↦ judged maintenance _ (maintained r a b (inl h) c) (ground arith)
          | no c ↦ elim (dec_lt r.status 500) [
            | yes d ↦ judged validation _ (rejected r h d a b c) (ground arith)
            | no d ↦ judged server _ (broken r h (omega arith) c) (ground arith)
          ]
        ]
      ]
    ]

    ok-ne : (n : ℕ) → is_ok r.status ≡ true → is_ok n ≡ false → r.status ≢ n
    ok-ne n h k e = let f : is_ok r.status ≡ is_ok n = ap is_ok e in cc

    message_of-some :
        (e : String) → error_of json decimal r ≡ some e → message_of json decimal r ≡ e
    unfolding message_of
    message_of-some e h = rw h refl

    accepted-Verdict :
        (o : Option String)
        → error_of json decimal r ≡ o
        → is_ok r.status ≡ true
        → Verdict (some r) (category_of (accepted json decimal r o))
    accepted-Verdict none e h = fine r h e
    accepted-Verdict (some m) e h = elim (string_dec m "MAINTENANCE_MODE") [
      | yes c ↦
          judged maintenance _
            (maintained r (ok-ne 401 h refl) (ok-ne 403 h refl) (inr (e ∙ ap some c))
              (message_of-some m e ∙ c))
            (ground arith)
      | no c ↦ judged validation _ (reported r m h e c) (ground arith)
    ]

    answered-Verdict : (s : Net json) → Verdict (some r) (category_of (answered json decimal r s).0)
    unfolding answered
    answered-Verdict s = elim (Bool-cases (is_ok r.status)) [
      | inl h ↦ rw h (accepted-Verdict (error_of json decimal r) refl h)
      | inr h ↦ rw h (refusal-Verdict h)
    ]

  fetched-Verdict :
      (os : List (Option (Response json))) (s : Net json)
      → Verdict (next_answer os) (category_of (fetched json decimal os s).0)
  fetched-Verdict [] s = unreachable
  fetched-Verdict (none ∷ os) s = unreachable
  fetched-Verdict (some r ∷ os) s = answered-Verdict r _

  -- Whether `requestJson` throws, and with which category, is what `Verdict` says of the answer: a
  -- network error where there is none, no error for a status of 200 to 299 whose body reports none,
  -- and else by the status and the text that is reported.
  pub request_json-Verdict :
      (q : Request json) (s : Net json)
      → Verdict (next_answer s.answers) (category_of (request_json json decimal q s).0)
  unfolding request_json
  request_json-Verdict q s = fetched-Verdict s.answers _
