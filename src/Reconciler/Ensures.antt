-- ===== src/Reconciler/Ensures.antt =====
-- What holds after a call of reconciler.rs that succeeds.
use connector_supabase.Common.{◌≡◌, refl, Result, ok, err}
use connector_supabase.Reconciler.{ReconcileError, World}
use connector_supabase.Reconciler.Monad.{Exec, ◌>>=◌, proceed, lift}

-- Where the call succeeds, the second property holds after it.
abbrev pub After : {A : Type 0} → (World → Type 0) → Result A ReconcileError × World → Type 0
After {A} Q r = (a : A) → r.0 ≡ ok a → Q r.1

abbrev pub Ensures : {A : Type 0} → (World → Type 0) → (World → Type 0) → Exec A → Type 0
Ensures P Q m = (world : World) → P world → After Q (m world)

pub proceed-After :
    {A B : Type 0} (R Q : World → Type 0) (f : A → Exec B) (r : Result A ReconcileError × World)
    → After R r
    → ((a : A) → Ensures R Q (f a))
    → After Q (proceed f r)
unfolding proceed
proceed-After R Q f (ok a, world) h k b e = k a world (h a refl) b e
proceed-After R Q f (err x, world) h k b e = cc

pub bind-Ensures :
    {A B : Type 0} (P R Q : World → Type 0) (m : Exec A) (f : A → Exec B)
    → Ensures P R m
    → ((a : A) → Ensures R Q (f a))
    → Ensures P Q (m >>= f)
bind-Ensures P R Q m f h k world p = proceed-After R Q f (m world) (h world p) k

pub lift-Ensures :
    {A B : Type 0} (P Q : World → Type 0) (r : Result A ReconcileError) (f : A → Exec B)
    → ((a : A) → r ≡ ok a → Ensures P Q (f a))
    → Ensures P Q (lift r >>= f)
unfolding proceed
lift-Ensures P Q (ok a) f k world h b e = k a refl world h b e
lift-Ensures P Q (err x) f k world h b e = cc
