-- ===== src/Context/Issues.antt =====
-- `ComponentContext::plan_issues` of context.rs: the problems of the content, in the order in which
-- the loop over the migrations finds them.
use connector_supabase.Common.{
  ℕ, ◌+◌, Bool, true, false, ◌||◌, not, Option, none, some, String, List, [], ◌∷◌, ◌++◌, lit, debug,
  str_eq, format, if◌then◌else◌,
}
use connector_supabase.Common.Decimal.{to_string}
use connector_supabase.Common.Sets.{StringSet, contains, insert}
use connector_supabase.Common.Text.{as_bytes, is_empty, str_lt, trim}
use connector_supabase.Context.{ComponentContext, Migration, InputSlot, PlanIssue}
use connector_supabase.Context.Ids.{is_input_name, is_migration_id}
use connector_supabase.Context.Sql.{forbidden_sql_verb}
use connector_supabase.External.{External}

-- `issues.push(…)` under a test.
abbrev pub issue_if : Bool → PlanIssue → List PlanIssue
issue_if true issue = issue ∷ []
issue_if false issue = []

abbrev pub id_issue : ℕ → Migration → PlanIssue
id_issue index migration = record {
  code = "supabase.plan.migration-id";
  message = lit "migration id " ∷ debug migration.id ∷ lit " is invalid" ∷ [];
  pointer = format ("/migrations/" ∷ to_string index ∷ "/id" ∷ []);
  help =
      "Use 1-96 lowercase letters, digits, underscores, or hyphens, beginning with a letter or digit.";
}

-- `previous.is_some_and(|value| value >= migration.id)`.
abbrev pub is_out_of_order : Option String → String → Bool
is_out_of_order none id = false
is_out_of_order (some value) id = not (str_lt value id)

abbrev pub order_issue : ℕ → Migration → PlanIssue
order_issue index migration = record {
  code = "supabase.plan.migration-order";
  message =
      lit "migration "
      ∷ debug migration.id
      ∷ lit " is not strictly after the preceding migration"
      ∷ [];
  pointer = format ("/migrations/" ∷ to_string index ∷ "/id" ∷ []);
  help = "Keep migration IDs unique and in strictly increasing lexical order.";
}

abbrev pub checksum_issue : ℕ → Migration → String → PlanIssue
checksum_issue index migration actual = record {
  code = "supabase.plan.migration-checksum";
  message =
      lit "migration "
      ∷ debug migration.id
      ∷ lit " declares checksum "
      ∷ debug migration.checksum
      ∷ lit ", but its exact SQL hashes to "
      ∷ debug actual
      ∷ [];
  pointer = format ("/migrations/" ∷ to_string index ∷ "/checksum" ∷ []);
  help =
      "Regenerate checksum as SHA-256 over the exact UTF-8 SQL bytes; never edit an already-applied migration ID.";
}

abbrev pub input_pointer : ℕ → ℕ → String → String
input_pointer index input_index suffix =
    format ("/migrations/" ∷ to_string index ∷ "/inputs/" ∷ to_string input_index ∷ suffix ∷ [])

abbrev pub input_issue : ℕ → ℕ → Migration → InputSlot → PlanIssue
input_issue index input_index migration input = record {
  code = "supabase.input.invalid";
  message =
      lit "migration "
      ∷ debug migration.id
      ∷ lit " input "
      ∷ debug input.name
      ∷ lit " has an invalid name or output property"
      ∷ [];
  pointer = input_pointer index input_index "";
  help = "Use lowercase letters, digits, and underscores, beginning with a letter.";
}

abbrev pub duplicate_issue : ℕ → ℕ → Migration → InputSlot → PlanIssue
duplicate_issue index input_index migration input = record {
  code = "supabase.input.duplicate";
  message =
      lit "migration "
      ∷ debug migration.id
      ∷ lit " declares input "
      ∷ debug input.name
      ∷ lit " more than once"
      ∷ [];
  pointer = input_pointer index input_index "/name";
  help = "Give each migration input a unique setting name.";
}

-- The loop over the inputs of one migration, with the names that it has seen.
unfoldable pub input_issues : ℕ → Migration → ℕ → StringSet → List InputSlot → List PlanIssue
input_issues index migration input_index input_names [] = []
input_issues index migration input_index input_names (input ∷ inputs) =
    issue_if (not (is_input_name input.name) || not (is_input_name input.output))
      (input_issue index input_index migration input)
    ++ (issue_if (contains input.name input_names)
          (duplicate_issue index input_index migration input)
        ++ input_issues index migration (input_index + 1) (insert input.name input_names) inputs)

abbrev pub empty_issue : ℕ → Migration → PlanIssue
empty_issue index migration = record {
  code = "supabase.plan.migration-empty";
  message = lit "migration " ∷ debug migration.id ∷ lit " has no SQL" ∷ [];
  pointer = format ("/migrations/" ∷ to_string index ∷ "/sql" ∷ []);
  help = "Remove the migration or provide one additive SQL transition.";
}

abbrev pub verb_issue : ℕ → Migration → String → PlanIssue
verb_issue index migration verb = record {
  code = "supabase.plan.destructive-unsupported";
  message =
      lit "migration "
      ∷ debug migration.id
      ∷ lit " contains v1-unsupported verb "
      ∷ debug verb
      ∷ [];
  pointer = format ("/migrations/" ∷ to_string index ∷ "/sql" ∷ []);
  help =
      "V1 auto-applies additive SQL only; split out destructive or data-rewriting work for a future approval-capable policy.";
}

unfoldable pub sql_issues : ℕ → Migration → List PlanIssue
sql_issues index migration =
    if is_empty (trim migration.sql)
    then empty_issue index migration ∷ []
    else elim (forbidden_sql_verb migration.sql) [
      | some verb ↦ verb_issue index migration verb ∷ []
      | none ↦ []
    ]

module _ (env : External) where
  -- The checksum of a migration's exact SQL.
  unfoldable pub sql_checksum : String → String
  sql_checksum sql = format ("sha256:" ∷ env.hex_encode (env.sha256 (as_bytes sql)) ∷ [])

  -- One round of the loop.
  unfoldable pub migration_issues : ℕ → Option String → Migration → List PlanIssue
  migration_issues index previous migration =
      issue_if (not (is_migration_id migration.id)) (id_issue index migration)
      ++ (issue_if (is_out_of_order previous migration.id) (order_issue index migration)
          ++ (issue_if (not (str_eq migration.checksum (sql_checksum migration.sql)))
                (checksum_issue index migration (sql_checksum migration.sql))
              ++ (input_issues index migration 0 [] migration.inputs
                  ++ sql_issues index migration)))

  unfoldable pub issues_from : ℕ → Option String → List Migration → List PlanIssue
  issues_from index previous [] = []
  issues_from index previous (migration ∷ migrations) =
      migration_issues index previous migration
      ++ issues_from (index + 1) (some migration.id) migrations

  unfoldable pub plan_issues : ComponentContext → List PlanIssue
  unfolding issues_from
  plan_issues self = issues_from 0 none self.migrations
