-- ===== src/Journal/Connect.antt =====
-- `OperationJournal::connect` of journal.rs over the constructors of the S2 client.
use connector_supabase.Common.{Option, none, some, String, Result, ok, err, ◌>>◌}

pub record JournalConfig : Type 0 where
  pub access_token : String
  pub account_endpoint : String
  pub basin_endpoint : String
  pub basin : String
  pub stream : String

-- S2 operation journal client: the stream of a basin is known by the two names.
pub record OperationJournal : Type 0 where
  pub basin_name : String
  pub stream_name : String

-- An error of the client with the context that `anyhow` puts before it.
pub record ConnectFault : Type 0 where
  pub context : String
  pub source : String

-- The constructors of the client: the error, where they refuse what they are given.
pub record S2Client : Type 0 where
  pub account_endpoint : String → Option String
  pub basin_endpoint : String → Option String
  pub endpoints : String → String → Option String
  pub client : String → Option String
  pub basin_name : String → Option String
  pub stream_name : String → Option String

-- `.context(…)?`
abbrev pub in_context : String → Option String → Result Unit ConnectFault
in_context text none = ok tt
in_context text (some error) = err (record { context = text; source = error })

unfoldable pub connect : S2Client → JournalConfig → Result OperationJournal ConnectFault
connect s2 config = do
  in_context "invalid S2 account endpoint" (s2.account_endpoint config.account_endpoint)
  in_context "invalid S2 basin endpoint" (s2.basin_endpoint config.basin_endpoint)
  in_context "invalid S2 endpoint configuration"
      (s2.endpoints config.account_endpoint config.basin_endpoint)
  in_context "construct S2 client" (s2.client config.access_token)
  in_context "invalid S2 basin name" (s2.basin_name config.basin)
  in_context "invalid S2 stream name" (s2.stream_name config.stream)
  ok (record { basin_name = config.basin; stream_name = config.stream })
