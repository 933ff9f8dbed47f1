-- ===== src/Target/Observe.antt =====
-- `observe_with` of target.rs, over a client whose answers are parameters.
use connector_supabase.Common.{
  Bool, true, false, not, String, List, [], ◌∷◌, Result, ok, ◌>>=◌, map_err, map, filter, ◌==◌,
}
use connector_supabase.Common.Maps
use connector_supabase.Common.Maps.{Map}
use connector_supabase.Common.Sets.{StringSet, insert, collect}
use connector_supabase.Common.Text.{is_empty, split, trim}
use connector_supabase.Slice.{ComponentPin, DesiredSlice}
use connector_supabase.Target.{ObservedTarget, ObservedMigration, TargetError}
use connector_supabase.Target.Provider.{PgError, provider_or_unavailable}

abbrev pub identity_query : String
identity_query =
    "select current_database(), (select oid::text from pg_database where datname = current_database()), current_setting('server_version_num')"

abbrev pub metadata_query : String
metadata_query = "select to_regclass('henosis_connector.migration_receipts') is not null"

abbrev pub schema_query : String
schema_query = "select exists(select 1 from pg_namespace where nspname = $1)"

abbrev pub access_query : String
access_query =
    "select has_schema_privilege('anon', $1, 'USAGE') and not exists (select 1 from pg_tables where schemaname = $1 and not has_table_privilege('anon', quote_ident(schemaname) || '.' || quote_ident(tablename), 'SELECT'))"

abbrev pub receipts_query : String
receipts_query =
    "select resource_id, migration_id, checksum from henosis_connector.migration_receipts order by resource_id, migration_id"

abbrev pub exposed_query : String
exposed_query =
    "select coalesce((select split_part(setting, '=', 2) from pg_roles cross join lateral unnest(coalesce(rolconfig, '{}'::text[])) setting where rolname = 'postgres' and setting like 'pgrst.db_schemas=%' limit 1), 'public')"

-- A client by the rows that its queries answer: three texts, one truth value, one text, or any number
-- of three texts. A query is sent with its parameters.
pub record Client : Type 0 where
  pub query_texts : String → Result (String × (String × String)) PgError
  pub query_truth : String → List String → Result Bool PgError
  pub query_text : String → Result String PgError
  pub query_rows : String → Result (List (String × (String × String))) PgError

abbrev pub receipt_of : String × (String × String) → ObservedMigration
receipt_of (resource_id, (migration_id, checksum)) = record {
  resource_id = resource_id;
  migration_id = migration_id;
  checksum = checksum;
}

-- The setting of the exposed schemas, as a set of names.
unfoldable pub parse_exposed : String → StringSet
parse_exposed configured =
    collect (filter (λ value. not (is_empty value)) (map trim (split (λ c. c == b',') configured)))

-- The variables of the loop over the components.
pub record Seen : Type 0 where
  pub schemas : StringSet
  pub anon_read : Map Bool

module _ (client : Client) where
  -- The query is only made where the schema exists.
  abbrev pub access_of : String → Bool → Result Bool TargetError
  access_of schema true =
      map_err provider_or_unavailable (client.query_truth access_query (schema ∷ []))
  access_of schema false = ok false

  abbrev pub with_schema : Bool → String → StringSet → StringSet
  with_schema true schema schemas = insert schema schemas
  with_schema false schema schemas = schemas

  unfoldable pub observe_component : Seen → ComponentPin → Result Seen TargetError
  observe_component seen component = do
    let schema = component.context.target.schema
    exists ← map_err provider_or_unavailable (client.query_truth schema_query (schema ∷ []))
    access ← access_of schema exists
    ok (record {
      schemas = with_schema exists schema seen.schemas;
      anon_read = Maps.insert schema access seen.anon_read;
    })

  unfoldable pub observe_components : Seen → List ComponentPin → Result Seen TargetError
  observe_components seen [] = ok seen
  observe_components seen (component ∷ components) = do
    next ← observe_component seen component
    observe_components next components

  -- The ledger is only read where it exists.
  abbrev pub receipts_if : Bool → Result (List ObservedMigration) TargetError
  receipts_if true = do
    rows ← map_err provider_or_unavailable (client.query_rows receipts_query)
    ok (map receipt_of rows)
  receipts_if false = ok []

  unfoldable pub observe_with : DesiredSlice → Result ObservedTarget TargetError
  observe_with desired = do
    row ← map_err provider_or_unavailable (client.query_texts identity_query)
    metadata_exists ← map_err provider_or_unavailable (client.query_truth metadata_query [])
    seen ← observe_components (record { schemas = []; anon_read = [] }) desired.components
    migrations ← receipts_if metadata_exists
    configured ← map_err provider_or_unavailable (client.query_text exposed_query)
    ok (record {
      identity = record { database = row.0; database_oid = row.1.0; server_version = row.1.1 };
      metadata_exists = metadata_exists;
      schemas = seen.schemas;
      migrations = migrations;
      exposed_schemas = parse_exposed configured;
      anon_read = seen.anon_read;
    })
