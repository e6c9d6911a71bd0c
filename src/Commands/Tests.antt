-- ===== src/Commands/Tests.antt =====
-- A command at concrete arguments.
use ep2pchat.Base.{◌≡◌, refl, String, none, some, [], ◌∷◌, string_dec}
use ep2pchat.Base.Dict.{lookup}
use ep2pchat.Commands.{accept, text, null}
use ep2pchat.Commands.Crypto.{bob_x3dh}
use ep2pchat.Commands.Calls.{issues_bob_x3dh}
use ep2pchat.Commands.Accepted.{accept-Issues}

-- Headers are texts here.
accept-Issues_example :
    accept {H = String} (bob_x3dh "ik" "spk" none "aik" "ek")
    ≡ some (text "ik" ∷ text "spk" ∷ null ∷ text "aik" ∷ text "ek" ∷ [])
accept-Issues_example = accept-Issues (issues_bob_x3dh "ik" "spk" none "aik" "ek")

misses_header :
    accept {H = String} (record {
      command = "ratchet_decrypt";
      arguments = ("sessionJson", text "s") ∷ ("header", text "h") ∷ [];
    })
    ≡ none
unfolding accept lookup string_dec
misses_header = refl
