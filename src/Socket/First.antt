-- ===== src/Socket/First.antt =====
-- socket.ts: the first frame that goes out on each socket of the wire.
use ep2pchat.Base.{
  ℕ, ◌≡◌, refl, ite, if_pos, if_neg, ap, append-nil, append_assoc, ◌≢◌, String, Bool, true, false,
  Option, none, some, List, [], ◌∷◌, ◌++◌, arith, ℕ_discrete,
}
use ep2pchat.Socket.{Frame, auth}
use ep2pchat.Socket.Flush.{tagged, flushed}

module _ {P : Type 0} where
  -- The first frame that was sent on socket `i`.
  abbrev pub first_on : ℕ → List (ℕ × Frame P) → Option (Frame P)
  first_on i [] = none
  first_on i ((j, f) ∷ w) = ite (ℕ_discrete j i) (some f) (first_on i w)

  abbrev pub is_auth : Option (Frame P) → Bool
  is_auth (some (auth t)) = true
  is_auth _ = false

  -- Nothing was sent, or AUTH before anything else.
  abbrev pub auth_first : Option (Frame P) → Bool
  auth_first none = true
  auth_first (some (auth t)) = true
  auth_first _ = false

  abbrev pub Authed : Option ℕ → List (ℕ × Frame P) → Type 0
  Authed none w = Unit
  Authed (some j) w = is_auth (first_on j w) ≡ true

  pub is_auth-auth_first : (o : Option (Frame P)) → is_auth o ≡ true → auth_first o ≡ true
  is_auth-auth_first o h = ground arith

  pub auth_first-some : (f : Frame P) → auth_first (some f) ≡ true → is_auth (some f) ≡ true
  auth_first-some f h = ground arith

  pub is_auth-append :
      (j : ℕ) (w v : List (ℕ × Frame P))
      → is_auth (first_on j w) ≡ true
      → is_auth (first_on j (w ++ v)) ≡ true
  is_auth-append j [] v h = cc
  is_auth-append j ((k, f) ∷ w) v h = elim (ℕ_discrete k j) [
    | yes p ↦ rw (if_pos _ p) (rw (if_pos _ p) at h)
    | no n ↦ rw (if_neg _ n) (is_auth-append j w v (rw (if_neg _ n) at h))
  ]

  pub first_on-append_ne :
      (i j : ℕ) (w : List (ℕ × Frame P)) (f : Frame P)
      → j ≢ i
      → first_on i (w ++ (j, f) ∷ []) ≡ first_on i w
  first_on-append_ne i j [] f n = rw (if_neg _ n) refl
  first_on-append_ne i j ((k, g) ∷ w) f n =
      ap (ite (ℕ_discrete k i) (some g)) (first_on-append_ne i j w f n)

  pub is_auth-append_auth :
      (j : ℕ) (w : List (ℕ × Frame P)) (t : String)
      → auth_first (first_on j w) ≡ true
      → is_auth (first_on j (w ++ (j, auth t) ∷ [])) ≡ true
  is_auth-append_auth j [] t k = rw (if_pos _ refl) refl
  is_auth-append_auth j ((k, g) ∷ w) t h = elim (ℕ_discrete k j) [
    | yes p ↦ rw (if_pos _ p) (auth_first-some g (rw (if_pos _ p) at h))
    | no n ↦ rw (if_neg _ n) (is_auth-append_auth j w t (rw (if_neg _ n) at h))
  ]

  -- One more frame on socket `j` keeps the order if it leaves `j` authenticated.
  pub auth_first-append :
      (i j : ℕ) (w : List (ℕ × Frame P)) (f : Frame P)
      → is_auth (first_on j (w ++ (j, f) ∷ [])) ≡ true
      → auth_first (first_on i w) ≡ true
      → auth_first (first_on i (w ++ (j, f) ∷ [])) ≡ true
  auth_first-append i j w f h k = elim (ℕ_discrete j i) [
    | yes p ↦ rw (← p) (is_auth-auth_first _ h)
    | no n ↦ rw (first_on-append_ne i j w f n) k
  ]

  abbrev pub Every : List (ℕ × Frame P) → Type 0
  Every w = (i : ℕ) → auth_first (first_on i w) ≡ true

  pub tagged-every :
      (i j : ℕ) (q : List (Frame P)) (w : List (ℕ × Frame P))
      → is_auth (first_on j w) ≡ true
      → auth_first (first_on i w) ≡ true
      → auth_first (first_on i (w ++ tagged j q)) ≡ true
  tagged-every i j [] w a h = rw (append-nil w) h
  tagged-every i j (f ∷ q) w a h =
      let b = is_auth-append j w ((j, f) ∷ []) a in
      rw (← append_assoc w ((j, f) ∷ []) (tagged j q))
        (tagged-every i j q (w ++ (j, f) ∷ []) b (auth_first-append i j w f b h))

  -- `flushQueue` and the sends on an open socket.
  pub flushed-every :
      (i : ℕ) (o : Option ℕ) (q : List (Frame P)) (w : List (ℕ × Frame P))
      → Authed o w
      → auth_first (first_on i w) ≡ true
      → auth_first (first_on i (w ++ flushed o q)) ≡ true
  flushed-every i none q w a h = rw (append-nil w) h
  flushed-every i (some j) q w a h = tagged-every i j q w a h

  pub Authed-append : (o : Option ℕ) (w v : List (ℕ × Frame P)) → Authed o w → Authed o (w ++ v)
  Authed-append none w v a = tt
  Authed-append (some j) w v a = is_auth-append j w v a
