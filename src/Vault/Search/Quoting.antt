-- ===== src/Vault/Search/Quoting.antt =====
-- vault.ts, `searchMessages`: the index reads its query as one phrase.
use Prim.Native.Char.{Char}
use ep2pchat.Base.{
  ◌≡◌, refl, String, Bool, true, false, Option, none, some, if◌then◌else◌, Bool-cases, inl, inr,
}
use ep2pchat.Vault.Search.{is_quote, doubled, fts_query}

abbrev before : Char → Option String → Option String
before c none = none
before c (some s) = some (String.◌∷◌ c s)

-- The rest of a quoted string, as SQLite's full-text queries read it: up to a quotation mark that
-- is not doubled, which must be the last character. `held` says that one was just read.
abbrev pub read_rest : Bool → String → Option String
read_rest false String.[] = none
read_rest true String.[] = some ""
read_rest false (String.◌∷◌ c s) =
    let mark = read_rest true s in
    let rest = read_rest false s in if is_quote c then mark else before c rest
read_rest true (String.◌∷◌ c s) =
    let rest = read_rest false s in if is_quote c then before c rest else none

-- A whole query that is one quoted string.
abbrev pub read_phrase : String → Option String
read_phrase String.[] = none
read_phrase (String.◌∷◌ c s) = if is_quote c then read_rest false s else none

read_rest-doubled : (s : String) → read_rest false (doubled s) ≡ some s
unfolding doubled
read_rest-doubled String.[] = refl
read_rest-doubled (String.◌∷◌ c s) = elim (Bool-cases (is_quote c)) [
  | inl h ↦ rw (h, doubled) (rw (h, read_rest-doubled s) refl)
  | inr h ↦ rw (h, doubled) (rw (h, read_rest-doubled s) refl)
]

-- Whatever is searched for, with quotation marks or not, the query is a single phrase that reads as
-- the text itself.
pub read_phrase-fts_query : (query : String) → read_phrase (fts_query query) ≡ some query
unfolding fts_query
read_phrase-fts_query query = read_rest-doubled query
