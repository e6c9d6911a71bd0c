-- ===== src/Vault/Search.antt =====
-- vault.ts, `searchMessages`: the query for the full-text index. What the index matches is the
-- argument `matches`.
pub mod Quoting
use Prim.Native.String
use Prim.Native.Char.{Char, code, char}
use ep2pchat.Base.{ℕ, String, Bool, List, keep_if, nat_eq, if◌then◌else◌, ◌&&◌}
use ep2pchat.Base.Exec.{Exec, ◌>>=◌, ◌>>◌}
use ep2pchat.Vault.Db.{Db, MessageRow, select, init_vault}
use ep2pchat.Vault.History.{order_by, of_contact}

abbrev pub quote : Char
quote = char 34 tt

abbrev pub is_quote : Char → Bool
is_quote c = nat_eq (code c) 34

-- `query.replace(/"/g, '""')` and the quotation mark that closes the phrase.
unfoldable pub doubled : String → String
doubled String.[] = String.◌∷◌ quote String.[]
doubled (String.◌∷◌ c s) =
    let rest = doubled s in
    if is_quote c then String.◌∷◌ c (String.◌∷◌ c rest) else String.◌∷◌ c rest

unfoldable pub fts_query : String → String
fts_query query = String.◌∷◌ quote (doubled query)

pub search_messages : (String → MessageRow → Bool) → String → String → Exec Db (List MessageRow)
search_messages matches contact query = do
  init_vault
  select (λ t.
      order_by (λ m. m.timestamp)
        (keep_if (λ m. matches (fts_query query) m && of_contact contact m) t.messages))
