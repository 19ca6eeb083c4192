-- ===== src/Adapter/Postgres/Keys/Laws.antt =====
-- The API keys repository keeps the contract of the keys port.
use agentic_delegator.Prelude.{String, List, Option, string_eq}
use agentic_delegator.Domain.ApiKey.{ApiKey}
use agentic_delegator.Adapter.Postgres.Table.{Table, IsTable, mapped}
use agentic_delegator.Adapter.Postgres.Models.{ApiKeyRow, to_api_key}
use agentic_delegator.Adapter.Postgres.Keys
use agentic_delegator.Domain.ApiKey

abbrev pub key_row_id : ApiKeyRow → String
key_row_id r = r.id

module _ {W : Type 0} (db : Table W String ApiKeyRow) (rows : W → String → Option ApiKeyRow)
    (table : IsTable db key_row_id rows) where
  open table use {keyed, insert_lem, query_lem, newest_lem, update_lem, delete_lem}

  abbrev pub keys_of : W → String → Option ApiKey
  keys_of w id = mapped to_api_key (rows w id)
