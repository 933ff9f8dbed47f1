-- ===== src/Plan/Inputs.antt =====
-- `materialize_inputs` of plan.rs: the values of a migration's inputs.
use connector_supabase.Common.{
  ℕ, ◌+◌, true, false, Option, none, some, String, List, [], ◌∷◌, ◌++◌, Bytes, Result, ok, err, lit,
  shown, debug, format,
}
use connector_supabase.Common.Decimal.{to_string}
use connector_supabase.Common.Maps
use connector_supabase.Common.Maps.{Map}
use connector_supabase.Context.{InputSlot, Migration}
use connector_supabase.External.{External}
use connector_supabase.Json.{Json, null, bool, number, text, array, object}
use connector_supabase.Plan.{PlanDiagnostic}
use connector_supabase.Slice.{UpstreamOutput, DesiredSlice}

-- The map that is built, and the two lists that are pushed to.
pub record Materialized : Type 0 where
  pub settings : Map String
  pub diagnostics : List PlanDiagnostic
  pub notices : List PlanDiagnostic

module _ (env : External) where
  -- `Result::ok` and the lookup of the output property.
  abbrev pub property_of : String → Result Json String → Option Json
  property_of output (ok values) = env.value_get values output
  property_of output (err error) = none

  abbrev pub published_by : String → Option UpstreamOutput → Option Json
  published_by output none = none
  published_by output (some upstream) = property_of output (env.parse_value upstream.values_json)

  -- The published value of an input, if its producer published one.
  unfoldable pub published : DesiredSlice → InputSlot → Option Json
  published desired input =
      published_by input.output
        (env.get_output input.producer_component_spec_hash desired.upstream_outputs)

  -- A text stands for itself; any other value is its JSON.
  unfoldable pub setting : Json → String
  setting (text value) = value
  setting null = env.value_text null
  setting (bool b) = env.value_text (bool b)
  setting (number n) = env.value_text (number n)
  setting (array items) = env.value_text (array items)
  setting (object fields) = env.value_text (object fields)

  abbrev pub unbound_diagnostic : Bytes → Migration → ℕ → InputSlot → PlanDiagnostic
  unbound_diagnostic component_spec_hash migration index input = record {
    component_spec_hash = component_spec_hash;
    code = "supabase.input.unbound";
    message =
        lit "required input "
        ∷ debug input.name
        ∷ lit " for migration "
        ∷ debug migration.id
        ∷ lit " is missing producer "
        ∷ shown (env.hex_encode input.producer_component_spec_hash)
        ∷ lit " output "
        ∷ debug input.output
        ∷ [];
    pointer = format ("/migrations/" ∷ migration.id ∷ "/inputs/" ∷ to_string index ∷ []);
    help = "Publish the named output for the current graph generation before retrying.";
    informational = false;
  }

  abbrev pub defaulted_notice : Bytes → Migration → ℕ → InputSlot → PlanDiagnostic
  defaulted_notice component_spec_hash migration index input = record {
    component_spec_hash = component_spec_hash;
    code = "supabase.input.defaulted";
    message =
        lit "input "
        ∷ debug input.name
        ∷ lit " for migration "
        ∷ debug migration.id
        ∷ lit " used its declared default because producer "
        ∷ shown (env.hex_encode input.producer_component_spec_hash)
        ∷ lit " output "
        ∷ debug input.output
        ∷ lit " was absent"
        ∷ [];
    pointer =
        format ("/migrations/" ∷ migration.id ∷ "/inputs/" ∷ to_string index ∷ "/default" ∷ []);
    help = "Publish the upstream value to replace the default in a future unapplied migration.";
    informational = true;
  }

  -- One round of the loop, on the published value and the default.
  abbrev pub materialize :
      Bytes → Migration → ℕ → InputSlot → Option Json → Option Json → Materialized → Materialized
  materialize hash migration index input (some value) default m = record m {
    settings = Maps.insert input.name (setting value) m.settings;
  }
  materialize hash migration index input none (some default) m = record m {
    settings = Maps.insert input.name (setting default) m.settings;
    notices = m.notices ++ defaulted_notice hash migration index input ∷ [];
  }
  materialize hash migration index input none none m = record m {
    diagnostics = m.diagnostics ++ unbound_diagnostic hash migration index input ∷ [];
  }

  unfoldable pub materialize_from :
      DesiredSlice → Bytes → Migration → ℕ → List InputSlot → Materialized → Materialized
  materialize_from desired hash migration index [] m = m
  materialize_from desired hash migration index (input ∷ inputs) m =
      materialize_from desired hash migration (index + 1) inputs
        (materialize hash migration index input (published desired input) input.default m)

  unfoldable pub materialize_inputs :
      DesiredSlice → Bytes → Migration → List PlanDiagnostic → List PlanDiagnostic → Materialized
  unfolding materialize_from
  materialize_inputs desired component_spec_hash migration diagnostics notices =
      materialize_from desired component_spec_hash migration 0 migration.inputs
        (record { settings = []; diagnostics = diagnostics; notices = notices })
