-- ===== src/Context/Tests.antt =====
-- The rules of the contexts at concrete inputs.
use connector_supabase.Common.{none, some, find, if◌then◌else◌, [], ◌∷◌, ◌≡◌, ◌↔◌, refl, ok}
use connector_supabase.Context.Accepted.{AreValid, plan_issues-eq-nil}
use connector_supabase.Context.Documented.{IsDocumented, validate_boundary-IsDocumented}
use connector_supabase.Context.Boundary.{validate_boundary}
use connector_supabase.Context.Issues.{
  plan_issues, migration_issues, sql_checksum, input_issues, sql_issues,
}
use connector_supabase.Context.Ids.{validate_logical_id, validate_schema, is_migration_id}
use connector_supabase.Common.Text
use connector_supabase.Context.Sql.{forbidden, forbidden_sql_verb}
use connector_supabase.Context.Phrases.{stands_phrase}
use connector_supabase.Context.Scanned.{stands, forbidden_sql_verb-stands}
use connector_supabase.Fixtures
use connector_supabase.Fixtures.{env, sql}

plan_issues-eq-nil_example :
    (plan_issues env Fixtures.context ≡ []) ↔ AreValid env none Fixtures.context.migrations
plan_issues-eq-nil_example = plan_issues-eq-nil env Fixtures.context

validate_boundary-IsDocumented_example :
    (validate_boundary Fixtures.context ≡ ok tt) ↔ IsDocumented Fixtures.context
validate_boundary-IsDocumented_example = validate_boundary-IsDocumented Fixtures.context refl

admitted : validate_boundary Fixtures.context ≡ ok tt
unfolding validate_boundary validate_logical_id Text.as_bytes validate_schema
admitted = refl

additive : forbidden_sql_verb sql ≡ none
unfolding forbidden_sql_verb
additive = refl

destructive : forbidden_sql_verb "create table t(); drop/**/Table t" ≡ some "DROP"
unfolding forbidden_sql_verb
destructive = refl

replacing : forbidden_sql_verb "select 1; create  or Replace view v" ≡ some "CREATE OR REPLACE"
unfolding forbidden_sql_verb
replacing = refl

forbidden_sql_verb-stands_example : forbidden_sql_verb "select 1; create  or Replace view v" ≡ (
    if stands_phrase "CREATE" ("OR" ∷ "REPLACE" ∷ []) "select 1; create  or Replace view v"
    then some "CREATE OR REPLACE"
    else find (λ verb. stands verb "select 1; create  or Replace view v") forbidden)
forbidden_sql_verb-stands_example = forbidden_sql_verb-stands "select 1; create  or Replace view v"

no_issues : plan_issues env Fixtures.context ≡ []
unfolding plan_issues migration_issues is_migration_id Text.as_bytes sql_checksum input_issues
    sql_issues Text.trim forbidden_sql_verb
no_issues = refl
