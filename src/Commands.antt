-- ===== src/Commands.antt =====
-- The commands of the native part of the application, as infrastructure/crypto.ts and the other
-- callers of `invoke` call them and as src-tauri/src/lib.rs declares them. Tauri hands the property
-- of the arguments whose name is the parameter's in camel case to the parameter, and rejects a call
-- whose arguments do not fit.
mod Params
pub mod Crypto
pub mod Calls
pub mod Accepted
pub mod Tests
use Prim.Native.String
use Prim.Native.Char.{Char, code}
use ep2pchat.Base.{
  String, Bool, true, false, Option, none, some, List, [], ◌∷◌, if◌then◌else◌, nat_eq,
}
use ep2pchat.Base.Dict.{lookup}
use Params.{Param, text_param, optional_param, header_param, handlers}

-- The character of `to` at the place that `c` has in `from`.
abbrev replaced : String → String → Char → Char
replaced String.[] to c = c
replaced (String.◌∷◌ a from) String.[] c = c
replaced (String.◌∷◌ a from) (String.◌∷◌ b to) c =
    if nat_eq (code a) (code c) then b else replaced from to c

abbrev upper : Char → Char
upper c = replaced "abcdefghijklmnopqrstuvwxyz" "ABCDEFGHIJKLMNOPQRSTUVWXYZ" c

-- A name of Rust in camel case; the flag says that an underscore stands before.
abbrev camel : Bool → String → String
camel after String.[] = ""
camel after (String.◌∷◌ c s) =
    let rest = camel (nat_eq (code c) 95) s in
    if nat_eq (code c) 95 then rest else String.◌∷◌ (if after then upper c else c) rest

abbrev name_of : Param → String
name_of (text_param n) = n
name_of (optional_param n) = n
name_of (header_param n) = n

-- A value of an argument.
pub data Arg (H : Type 0) : Type 0 where
  text : String → Arg H
  null : Arg H
  header : H → Arg H

-- `invoke(command, arguments)`
pub record Invocation (H : Type 0) : Type 0 where
  pub command : String
  pub arguments : List (String × Arg H)

module _ {H : Type 0} where
  abbrev pub opt : Option String → Arg H
  opt none = null
  opt (some s) = text s

  -- What a parameter receives of the property of its name, if that is there.
  abbrev taken : Param → Option (Arg H) → Option (Arg H)
  taken (text_param _) (some (text s)) = some (text s)
  taken (optional_param _) none = some null
  taken (optional_param _) (some null) = some null
  taken (optional_param _) (some (text s)) = some (text s)
  taken (header_param _) (some (header h)) = some (header h)
  taken _ _ = none

  abbrev consed : Option (Arg H) → Option (List (Arg H)) → Option (List (Arg H))
  consed (some a) (some as_) = some (a ∷ as_)
  consed _ _ = none

  abbrev receive : List (String × Arg H) → List Param → Option (List (Arg H))
  receive args [] = some []
  receive args (p ∷ ps) = consed (taken p (lookup (camel false (name_of p)) args)) (receive args ps)

  abbrev receive_for : Option (List Param) → List (String × Arg H) → Option (List (Arg H))
  receive_for none args = none
  receive_for (some ps) args = receive args ps

  -- What the handler is called with, in the order of its parameters; `none` is a rejected call.
  unfoldable pub accept : Invocation H → Option (List (Arg H))
  accept i = receive_for (lookup i.command handlers) i.arguments
