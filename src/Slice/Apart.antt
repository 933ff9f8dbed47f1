-- ===== src/Slice/Apart.antt =====
-- Components that may stand in one slice of slice.rs, and an insertion between them.
use connector_supabase.Common.{String, List, [], ◌∷◌, ◌++◌, ◌≡◌, ◌≢◌, sym, All}
use connector_supabase.Context.{TargetContext}
use connector_supabase.Slice.{ComponentPin}

-- The stack, project and database of a component.
abbrev pub target_of : TargetContext → String × String × String
target_of target = (target.stack, target.project, target.database)

-- Two components of one slice.
abbrev pub Apart : ComponentPin → ComponentPin → Type 0
Apart p q =
    (p.name ≢ q.name)
    × ((p.context.resource_id ≢ q.context.resource_id)
        × ((p.context.target.schema ≢ q.context.target.schema)
            × (target_of p.context.target ≡ target_of q.context.target)))

abbrev pub Level : List ComponentPin → Type 0
Level [] = Unit
Level (p ∷ l) = All (Apart p) l × Level l

Apart-sym : (p q : ComponentPin) → Apart p q → Apart q p
Apart-sym p q a = (λ e. a.0 (sym e), (λ e. a.1.0 (sym e), (λ e. a.1.1.0 (sym e), sym (a.1.1.1))))

pub All-insert :
    (Q : ComponentPin → Type 0) (x : ComponentPin) (front back : List ComponentPin)
    → Q x
    → All Q (front ++ back)
    → All Q (front ++ x ∷ back)
All-insert Q x [] back q h = (q, h)
All-insert Q x (y ∷ front) back q h = (h.0, All-insert Q x front back q h.1)

pub insert-Level :
    (p : ComponentPin) (front back : List ComponentPin)
    → All (Apart p) (front ++ back)
    → Level (front ++ back)
    → Level (front ++ p ∷ back)
insert-Level p [] back a h = (a, h)
insert-Level p (q ∷ front) back a h =
    (All-insert (Apart q) p front back (Apart-sym p q a.0) h.0, insert-Level p front back a.1 h.1)
