-- ===== src/Workflows/Tests.antt =====
-- The theorems on the stores' clients at concrete inputs.
use ep2pchat.Base.{◌≡◌, none, some}
use ep2pchat.Stores.{Contact}
use ep2pchat.Vault.Search.{fts_query}
use ep2pchat.Vault.Search.Quoting.{read_phrase, read_phrase-fts_query}

abbrev pub bob : Contact
bob = record {
  id = "bob";
  email = "bob@example.org";
  username = none;
  department = none;
  status = none;
  presence_status = none;
  last_seen = none;
  device_count = none;
  devices = none;
}

read_phrase-fts_query_example : read_phrase (fts_query "a \"b") ≡ some "a \"b"
read_phrase-fts_query_example = read_phrase-fts_query "a \"b"
