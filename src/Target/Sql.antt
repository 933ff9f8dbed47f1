-- ===== src/Target/Sql.antt =====
-- The SQL of target.rs: `quote_identifier`, `quote_literal`, the statements that `execute` sends for
-- an operation, and how it sends them.
use Prim.Native.Char.{code}
use connector_supabase.Common.{
  ℕ, ◌&&◌, Option, none, some, String, List, [], ◌∷◌, ◌++◌, map, format, ◌==◌, Result, ok, err,
  if◌then◌else◌,
}
use connector_supabase.Context.{is_read}
use connector_supabase.Plan.{
  ApiPolicy, Operation, establish_binding, ensure_metadata, ensure_schema, apply_migration,
  configure_api, PlannedOperation, ExecutablePlan,
}
use connector_supabase.Target.{TargetError}

-- `str::replace` of a character by two of it.
unfoldable pub doubled : ℕ → String → String
doubled quote String.[] = String.[]
doubled quote (String.◌∷◌ c s) =
    if code c == quote
    then String.◌∷◌ c (String.◌∷◌ c (doubled quote s))
    else String.◌∷◌ c (doubled quote s)

unfoldable pub quote_identifier : String → String
unfolding doubled
quote_identifier value = format ("\"" ∷ doubled b'"' value ∷ "\"" ∷ [])

unfoldable pub quote_literal : String → String
unfolding doubled
quote_literal value = format ("'" ∷ doubled 39 value ∷ "'" ∷ [])

-- `schemas.join(",")`.
unfoldable pub join : List String → String
join [] = ""
join (schema ∷ []) = schema
join (schema ∷ next ∷ schemas) = format (schema ∷ "," ∷ join (next ∷ schemas) ∷ [])

-- One call of the transaction, with its parameters.
pub data Statement : Type 0 where
  batch_execute : String → Statement
  query_one : String → List String → Statement
  execute_one : String → List String → Statement

abbrev pub grant : String → Statement
grant schema = batch_execute (
    format (
      "grant usage on schema " ∷ schema ∷ " to anon;grant select on all tables in schema " ∷ schema
      ∷ " to anon;alter default privileges in schema " ∷ schema ∷ " grant select on tables to anon;"
      ∷ []))

abbrev pub revoke : String → Statement
revoke schema = batch_execute (
    format (
      "revoke select on all tables in schema " ∷ schema ∷ " from anon;revoke usage on schema "
      ∷ schema ∷ " from anon;alter default privileges in schema " ∷ schema
      ∷ " revoke select on tables from anon;" ∷ []))

unfoldable pub access : ApiPolicy → Statement
access policy =
    if policy.expose && is_read policy.anon_access
    then grant (quote_identifier policy.schema)
    else revoke (quote_identifier policy.schema)

abbrev pub set_input : String × String → Statement
set_input (name, value) =
    query_one "select set_config($1, $2, true)" (format ("henosis.input." ∷ name ∷ []) ∷ value ∷ [])

abbrev pub statements_of : ExecutablePlan → PlannedOperation → Operation → List Statement
statements_of plan planned (establish_binding binding) = []
statements_of plan planned ensure_metadata =
    batch_execute
      "create schema if not exists henosis_connector;create table if not exists henosis_connector.migration_receipts (resource_id text not null, migration_id text not null, checksum text not null,schema_name text not null, plan_id text not null, operation_id text not null,applied_at timestamptz not null default now(),primary key (resource_id, migration_id));revoke all on schema henosis_connector from public, anon, authenticated;"
    ∷ []
statements_of plan planned (ensure_schema resource_id schema) =
    batch_execute (
      format (
        "create schema if not exists "
        ∷ quote_identifier schema
        ∷ "; revoke all on schema "
        ∷ quote_identifier schema
        ∷ " from public;"
        ∷ []))
    ∷ []
statements_of plan planned (apply_migration resource_id schema migration inputs) =
    batch_execute
      (format ("set local search_path = " ∷ quote_identifier schema ∷ ", public, extensions;" ∷ []))
    ∷ (map set_input inputs
        ++ (batch_execute migration.sql
            ∷ execute_one
                "insert into henosis_connector.migration_receipts (resource_id, migration_id, checksum, schema_name, plan_id, operation_id) values ($1, $2, $3, $4, $5, $6)"
                (resource_id ∷ migration.id ∷ migration.checksum ∷ schema ∷ plan.plan_id
                  ∷ planned.id ∷ [])
            ∷ []))
statements_of plan planned (configure_api exposed_schemas policies) =
    batch_execute (
      format (
        "alter role postgres set pgrst.db_schemas = "
        ∷ quote_literal (join exposed_schemas)
        ∷ ";"
        ∷ []))
    ∷ (map access policies
        ++ (batch_execute "notify pgrst, 'reload config'; notify pgrst, 'reload schema';" ∷ []))

unfoldable pub statements : ExecutablePlan → PlannedOperation → List Statement
unfolding access
statements plan planned = statements_of plan planned planned.operation

-- The statements are sent one after the other, up to the first that fails; the database is a
-- function of what it was sent before. The statements that were sent are returned, the last first.
unfoldable pub send :
    (List Statement → Statement → Option TargetError)
    → List Statement
    → List Statement
    → Result Unit TargetError × List Statement
send database sent [] = (ok tt, sent)
send database sent (statement ∷ rest) =
    let later = send database (statement ∷ sent) rest in
    elim (database sent statement) [ none ↦ later | some error ↦ (err error, statement ∷ sent) ]

unfoldable pub execute :
    (List Statement → Statement → Option TargetError)
    → ExecutablePlan
    → PlannedOperation
    → Result Unit TargetError × List Statement
unfolding send
execute database plan planned = send database [] (statements plan planned)
