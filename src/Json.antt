-- ===== src/Json.antt =====
-- The JSON values (`serde_json::Value`) that the connector holds in contexts, plans and outputs
-- (crates/reconciler/src/context.rs, plan.rs). Parsing, printing and the lookup of a key belong to
-- `serde_json` and are parameters (External.antt). A number keeps its literal's text.
use connector_supabase.Common.{Bool, String, List, [], ◌∷◌}

mutual
  pub data Json : Type 0 where
    null : Json
    bool : Bool → Json
    number : String → Json
    text : String → Json
    array : Items → Json
    object : Fields → Json

  pub data Items : Type 0 where
    end : Items
    item : Json → Items → Items

  pub data Fields : Type 0 where
    close : Fields
    field : String → Json → Fields → Fields

-- A sequence of texts as a JSON array.
abbrev pub text_items : List String → Items
text_items [] = end
text_items (s ∷ l) = item (text s) (text_items l)

abbrev pub texts : List String → Json
texts l = array (text_items l)
