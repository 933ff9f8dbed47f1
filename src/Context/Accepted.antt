-- ===== src/Context/Accepted.antt =====
-- Which contents `plan_issues` of context.rs accepts.
use connector_supabase.Common.{
  ℕ, ◌+◌, Bool, true, false, ◌||◌, not, Option, none, some, String, List, [], ◌∷◌, ◌≡◌, ◌↔◌, refl,
  arith, All, append-eq-nil_iff, str_eq, eq_iff, ap,
}
use connector_supabase.Common.Sets.{StringSet, contains, insert, contains-insert}
use connector_supabase.Common.Text.{is_empty, str_lt, trim}
use connector_supabase.Context.{ComponentContext, Migration, InputSlot, PlanIssue}
use connector_supabase.Context.Ids.{is_input_name, is_migration_id}
use connector_supabase.Context.Issues.{
  issue_if, is_out_of_order, input_issues, sql_issues, sql_checksum, migration_issues, issues_from,
  plan_issues,
}
use connector_supabase.Context.Sql.{forbidden_sql_verb}
use connector_supabase.External.{External}

abbrev pub IsInput : InputSlot → Type 0
IsInput input = (is_input_name input.name ≡ true) × (is_input_name input.output ≡ true)

-- No two inputs have one name.
abbrev pub IsDistinct : List InputSlot → Type 0
IsDistinct [] = Unit
IsDistinct (input ∷ inputs) =
    All (λ (later : InputSlot). str_eq later.name input.name ≡ false) inputs × IsDistinct inputs

-- The SQL has a text that is not blank and none of the verbs.
abbrev pub IsAdditive : String → Type 0
IsAdditive sql = (is_empty (trim sql) ≡ false) × (forbidden_sql_verb sql ≡ none)

abbrev pub Follows : Option String → String → Type 0
Follows none id = Unit
Follows (some previous) id = str_lt previous id ≡ true

issue_if-eq-nil : (b : Bool) (issue : PlanIssue) → (issue_if b issue ≡ []) ↔ (b ≡ false)
issue_if-eq-nil true issue = (λ e. cc, λ e. cc)
issue_if-eq-nil false issue = (λ e. refl, λ e. refl)

refused_not : (b : Bool) → not b ≡ false → b ≡ true
refused_not b h = ground arith

invalid_iff :
    (input : InputSlot)
    → ((not (is_input_name input.name) || not (is_input_name input.output)) ≡ false) ↔ IsInput input
invalid_iff input = ground arith

-- What the names that were seen leave to the rest.
fresh_iff :
    (name : String) (names : StringSet) (inputs : List InputSlot)
    → All (λ (i : InputSlot). contains i.name (insert name names) ≡ false) inputs ↔ (
        All (λ (i : InputSlot). str_eq i.name name ≡ false) inputs
        × All (λ (i : InputSlot). contains i.name names ≡ false) inputs)
fresh_iff name names [] = (λ h. (tt, tt), λ h. tt)
fresh_iff name names (i ∷ inputs) =
    let rest = fresh_iff name names inputs in
    let step = contains-insert i.name name names in
    (
      λ h. (
        (ground (arith, step, h.0), (rest.0 h.1).0),
        (ground (arith, step, h.0), (rest.0 h.1).1),
      ),
      λ h. (ground (arith, step, h.0.0, h.1.0), rest.1 (h.0.1, h.1.1)),
    )

input_issues-eq-nil :
    (index : ℕ) (migration : Migration) (k : ℕ) (names : StringSet) (inputs : List InputSlot)
    → (input_issues index migration k names inputs ≡ []) ↔ (
        All IsInput inputs
        × (All (λ (i : InputSlot). contains i.name names ≡ false) inputs × IsDistinct inputs))
unfolding input_issues
input_issues-eq-nil index migration k names [] = (λ e. (tt, (tt, tt)), λ e. refl)
input_issues-eq-nil index migration k names (input ∷ inputs) =
    let rest = input_issues-eq-nil index migration (k + 1) (insert input.name names) inputs in
    let fresh = fresh_iff input.name names inputs in
    (
      λ e.
          let a = (append-eq-nil_iff _ _).0 e in
          let b = (append-eq-nil_iff _ _).0 a.1 in
          let r = rest.0 b.1 in
          let f = fresh.0 r.1.0 in
          (
            ((invalid_iff input).0 ((issue_if-eq-nil _ _).0 a.0), r.0),
            (((issue_if-eq-nil _ _).0 b.0, f.1), (f.0, r.1.1)),
          ),
      λ h. (append-eq-nil_iff _ _).1 (
        (issue_if-eq-nil _ _).1 ((invalid_iff input).1 h.0.0),
        (append-eq-nil_iff _ _).1 (
          (issue_if-eq-nil _ _).1 h.1.0.0,
          rest.1 (h.0.1, (fresh.1 (h.1.1.0, h.1.0.1), h.1.1.1)),
        ),
      ),
    )

sql_issues-eq-nil :
    (index : ℕ) (migration : Migration)
    → (sql_issues index migration ≡ []) ↔ IsAdditive migration.sql
unfolding sql_issues
sql_issues-eq-nil index migration = ground arith

order_iff :
    (previous : Option String) (id : String)
    → (is_out_of_order previous id ≡ false) ↔ Follows previous id
order_iff none id = (λ e. tt, λ e. refl)
order_iff (some value) id = ground arith

none_seen : (inputs : List InputSlot) → All (λ (i : InputSlot). contains i.name [] ≡ false) inputs
none_seen [] = tt
none_seen (input ∷ inputs) = (refl, none_seen inputs)

module _ (env : External) where
  -- A migration that can be planned.
  pub record IsValid (migration : Migration) : Type 0 where
    pub id : is_migration_id migration.id ≡ true
    pub checksum : migration.checksum ≡ sql_checksum env migration.sql
    pub inputs : All IsInput migration.inputs
    pub distinct : IsDistinct migration.inputs
    pub sql : IsAdditive migration.sql

  -- Valid migrations in strictly ascending order of their ids.
  abbrev pub AreValid : Option String → List Migration → Type 0
  AreValid previous [] = Unit
  AreValid previous (migration ∷ migrations) =
      (Follows previous migration.id × IsValid migration) × AreValid (some migration.id) migrations

  migration_issues-eq-nil :
      (index : ℕ) (previous : Option String) (migration : Migration)
      → (migration_issues env index previous migration ≡ [])
        ↔ (Follows previous migration.id × IsValid migration)
  unfolding migration_issues
  migration_issues-eq-nil index previous migration = (
    λ e.
        let a = (append-eq-nil_iff _ _).0 e in
        let b = (append-eq-nil_iff _ _).0 a.1 in
        let c = (append-eq-nil_iff _ _).0 b.1 in
        let d = (append-eq-nil_iff _ _).0 c.1 in
        let inputs = (input_issues-eq-nil index migration 0 [] migration.inputs).0 d.0 in
        (
          (order_iff previous migration.id).0 ((issue_if-eq-nil _ _).0 b.0),
          record {
            id = refused_not (is_migration_id migration.id) ((issue_if-eq-nil _ _).0 a.0);
            checksum = (eq_iff _ _).0 (ground (arith, (issue_if-eq-nil _ _).0 c.0));
            inputs = inputs.0;
            distinct = inputs.1.1;
            sql = (sql_issues-eq-nil index migration).0 d.1;
          },
        ),
    λ h. (append-eq-nil_iff _ _).1 (
      (issue_if-eq-nil _ _).1 (ap not h.1.id),
      (append-eq-nil_iff _ _).1 (
        (issue_if-eq-nil _ _).1 ((order_iff previous migration.id).1 h.0),
        (append-eq-nil_iff _ _).1 (
          (issue_if-eq-nil _ _).1 (ap not ((eq_iff _ _).1 h.1.checksum)),
          (append-eq-nil_iff _ _).1 (
            (input_issues-eq-nil index migration 0 [] migration.inputs).1
                (h.1.inputs, (none_seen migration.inputs, h.1.distinct)),
            (sql_issues-eq-nil index migration).1 h.1.sql,
          ),
        ),
      ),
    ),
  )

  issues_from-eq-nil :
      (index : ℕ) (previous : Option String) (migrations : List Migration)
      → (issues_from env index previous migrations ≡ []) ↔ AreValid previous migrations
  unfolding issues_from
  issues_from-eq-nil index previous [] = (λ e. tt, λ h. refl)
  issues_from-eq-nil index previous (migration ∷ migrations) =
      let first = migration_issues-eq-nil index previous migration in
      let rest = issues_from-eq-nil (index + 1) (some migration.id) migrations in
      (
        λ e. let a = (append-eq-nil_iff _ _).0 e in (first.0 a.0, rest.0 a.1),
        λ h. (append-eq-nil_iff _ _).1 (first.1 h.0, rest.1 h.1),
      )

  -- `plan_issues` finds nothing exactly when each migration has a well-formed id, which is above the
  -- id before it, the checksum of its exact SQL, inputs with well-formed names and output properties
  -- and no name twice, and SQL that is not blank and has none of the rejected verbs.
  pub plan_issues-eq-nil :
      (self : ComponentContext) → (plan_issues env self ≡ []) ↔ AreValid none self.migrations
  unfolding plan_issues
  plan_issues-eq-nil self = issues_from-eq-nil 0 none self.migrations
