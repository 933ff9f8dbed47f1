-- ===== src/Reconciler/Monad.antt =====
-- A call of the controller: it may fail, and what it changed before stays changed.
use connector_supabase.Common.{List, ◌∷◌, Result, ok, err}
use connector_supabase.Reconciler.{ReconcileError, Effect, World}

abbrev pub Exec : Type 0 → Type 0
Exec A = World → Result A ReconcileError × World

-- The rest of a call, after its first part.
unfoldable pub proceed :
    {A B : Type 0}
    → (A → Exec B)
    → Result A ReconcileError × World
    → Result B ReconcileError × World
proceed f (ok a, world) = f a world
proceed f (err e, world) = (err e, world)

infixl 5 ◌>>=◌ ◌>>◌
abbrev pub ◌>>=◌ : {A B : Type 0} → Exec A → (A → Exec B) → Exec B
◌>>=◌ first rest world = proceed rest (first world)

abbrev pub ◌>>◌ : {A B : Type 0} → Exec A → Exec B → Exec B
first >> rest = first >>= λ _. rest

abbrev pub pure : {A : Type 0} → A → Exec A
pure a world = (ok a, world)

abbrev pub fail : {A : Type 0} → ReconcileError → Exec A
fail e world = (err e, world)

-- `?` on a plain result.
abbrev pub lift : {A : Type 0} → Result A ReconcileError → Exec A
lift r world = (r, world)

-- A call of the outside: the answer is recorded.
abbrev pub call : {A : Type 0} → (List Effect → A) → (A → Effect) → Exec A
call answer effect world =
    let a = answer world.trace in (ok a, record world { trace = effect a ∷ world.trace })

abbrev pub emit : Effect → Exec (Unit {0})
emit effect world = (ok tt, record world { trace = effect ∷ world.trace })

abbrev pub gets : {A : Type 0} → (World → A) → Exec A
gets f world = (ok (f world), world)

abbrev pub modify : (World → World) → Exec (Unit {0})
modify f world = (ok tt, f world)
