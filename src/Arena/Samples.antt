-- ===== src/Arena/Samples.antt =====
-- What the ratchet of the samples promises: an instance of the hypotheses on the native library.
use Prim.Native.String.append
use ep2pchat.Base.{
  ◌≡◌, ◌≢◌, refl, ap, subst, String, true, Option, none, some, if_neg, string_dec, text_append,
  truthy, truthy-cons, ◌∙◌,
}
use ep2pchat.Samples.{toy_ratchet, opened, with_session}
use ep2pchat.Samples.Objects.{put_text, get-put_text}
use ep2pchat.Orchestration.{Sealed}
use ep2pchat.Arena.Talk.{Sealing}

pub opened-other : (conv other m : String) → conv ≢ other → opened other (put_text conv m) ≡ none
opened-other conv other m h =
    rw (get-put_text conv m, opened) (if_neg (string_dec conv other) h _ _)

abbrev pub from_some :
    Sealed toy_ratchet.Header → Option (Sealed toy_ratchet.Header) → Sealed toy_ratchet.Header
from_some d none = d
from_some d (some x) = x

pub truthy-append : (s t : String) → truthy s ≡ true → truthy (text_append s t) ≡ true
unfolding string_dec
truthy-append String.[] t h = cc
truthy-append (String.◌∷◌ c s) t h = ap truthy (append.cons c s t) ∙ truthy-cons c (text_append s t)

-- A session is any text that is not empty.
abbrev pub toy_sealing : Sealing toy_ratchet
toy_sealing = record {
  IsSession = λ s. truthy s ≡ true;
  encrypts = λ s m conv h. (_, refl, truthy-append s "+" h);
  nonempty = λ s h. h;
  binds = λ s r m conv other x h n.
      subst
        (λ (y : Sealed toy_ratchet.Header).
          toy_ratchet.ratchet_decrypt r y.header y.ciphertext other ≡ none)
        (ap (from_some x) h) (ap (with_session r) (opened-other conv other m n));
}
