-- ===== src/Slice/Binding.antt =====
-- What `desired_digest` of slice.rs binds.
use connector_supabase.Common.{
  ◌<◌, List, [], ◌∷◌, ◌++◌, ◌≡◌, ◌≢◌, ◌⊎◌, inl, inr, refl, sym, ap, ◌∙◌, arith, Bytes, length, All,
  append-eq-nil, append_assoc, map,
}
use connector_supabase.Common.Decimal.{u64_limit}
use connector_supabase.Common.Digests.{
  Collision, digest_cases, append-injective, to_be_bytes-injective, length-to_be_bytes,
}
use connector_supabase.Common.Text.{as_bytes}
use connector_supabase.Common.Words.{to_be_bytes}
use connector_supabase.External.{External}
use connector_supabase.Slice.{ComponentPin, UpstreamOutput, DesiredSlice}
use connector_supabase.Slice.Digest.{component_bytes, output_bytes, desired_bytes, desired_digest}

-- A hash of 32 bytes, and a length that a `u64` holds.
abbrev IsOutput : UpstreamOutput → Type 0
IsOutput output = (length output.component_spec_hash ≡ 32) × (length output.values_json < u64_limit)

-- What the types of the source say of a slice: `[u8; 16]`, `[u8; 32]` and `u64`.
pub record IsTyped (self : DesiredSlice) : Type 0 where
  pub graph_id : length self.graph_id ≡ 16
  pub generation : self.generation < u64_limit
  pub components : All (λ (p : ComponentPin). length p.spec_hash ≡ 32) self.components
  pub upstream_outputs : All IsOutput self.upstream_outputs

abbrev pub spec_hashes : DesiredSlice → List Bytes
spec_hashes self = map (λ (p : ComponentPin). p.spec_hash) self.components

-- Two slices that ask for the same of the target.
abbrev pub SameDesired : DesiredSlice → DesiredSlice → Type 0
SameDesired a b =
    (a.graph_id ≡ b.graph_id)
    × ((a.generation ≡ b.generation)
        × ((spec_hashes a ≡ spec_hashes b) × (a.upstream_outputs ≡ b.upstream_outputs)))

component_bytes-injective :
    (cs ds : List ComponentPin) {x y : Bytes}
    → All (λ (p : ComponentPin). length p.spec_hash ≡ 32) cs
    → All (λ (p : ComponentPin). length p.spec_hash ≡ 32) ds
    → length cs ≡ length ds
    → (component_bytes cs ++ x) ≡ (component_bytes ds ++ y)
    → (map (λ (p : ComponentPin). p.spec_hash) cs ≡ map (λ (p : ComponentPin). p.spec_hash) ds)
      × (x ≡ y)
unfolding component_bytes
component_bytes-injective [] [] h k l e = (refl, e)
component_bytes-injective [] (d ∷ ds) h k l e = absurd (omega (arith, l))
component_bytes-injective (c ∷ cs) [] h k l e = absurd (omega (arith, l))
component_bytes-injective (c ∷ cs) (d ∷ ds) {x} {y} h k l e =
    let (p, q) =
      append-injective c.spec_hash d.spec_hash (h.0 ∙ sym k.0)
        (append_assoc c.spec_hash _ x ∙ e ∙ sym (append_assoc d.spec_hash _ y)) in
    let (r, s) = component_bytes-injective cs ds h.1 k.1 (omega (arith, l)) q in (cc (p, r), s)

nonempty : (a c : Bytes) → length a ≡ 32 → [] ≢ (a ++ c)
nonempty a c h e = absurd (omega (arith, h, ap length (append-eq-nil a c (sym e)).0))

output_bytes-injective :
    (os ps : List UpstreamOutput)
    → All IsOutput os
    → All IsOutput ps
    → output_bytes os ≡ output_bytes ps
    → os ≡ ps
unfolding output_bytes
output_bytes-injective [] [] h k e = refl
output_bytes-injective [] (p ∷ ps) h k e = absurd (nonempty p.component_spec_hash _ k.0.0 e)
output_bytes-injective (o ∷ os) [] h k e = absurd (nonempty o.component_spec_hash _ h.0.0 (sym e))
output_bytes-injective (o ∷ os) (p ∷ ps) h k e =
    let (hash, e₁) =
      append-injective o.component_spec_hash p.component_spec_hash (h.0.0 ∙ sym k.0.0) e in
    let (size, e₂) =
      append-injective (to_be_bytes (length o.values_json)) (to_be_bytes (length p.values_json))
        (length-to_be_bytes _ _) e₁ in
    let (values, e₃) =
      append-injective o.values_json p.values_json (to_be_bytes-injective _ _ h.0.1 k.0.1 size)
        e₂ in
    let rest = output_bytes-injective os ps h.1 k.1 e₃ in
    λ i. record { component_spec_hash = hash i; values_json = values i } ∷ rest i

abbrev label : Bytes
label = as_bytes "henosis.dev/supabase-desired/v1" ++ (0 ∷ [])

desired_bytes-injective :
    (a b : DesiredSlice)
    → IsTyped a
    → IsTyped b
    → length a.components ≡ length b.components
    → desired_bytes a ≡ desired_bytes b
    → SameDesired a b
unfolding desired_bytes
desired_bytes-injective a b h k l e =
    let (_, e₂) = append-injective label label refl e in
    let (graph, e₃) = append-injective a.graph_id b.graph_id (h.graph_id ∙ sym k.graph_id) e₂ in
    let (generation, e₄) =
      append-injective (to_be_bytes a.generation) (to_be_bytes b.generation)
        (length-to_be_bytes _ _) e₃ in
    let (hashes, e₅) =
      component_bytes-injective a.components b.components h.components k.components l e₄ in
    (
      graph,
      (
        to_be_bytes-injective _ _ h.generation k.generation generation,
        (
          hashes,
          output_bytes-injective a.upstream_outputs b.upstream_outputs h.upstream_outputs
              k.upstream_outputs e₅,
        ),
      ),
    )

-- Two slices of equally many components that have one desired digest ask for the same: one graph,
-- generation, spec hashes in one order, and upstream outputs, or there is a collision of BLAKE3. The
-- hashes have 32 bytes, the graph ids 16, and the generations and lengths fit 64 bits.
pub desired_digest-SameDesired :
    (env : External) (a b : DesiredSlice)
    → IsTyped a
    → IsTyped b
    → length a.components ≡ length b.components
    → desired_digest env a ≡ desired_digest env b
    → SameDesired a b ⊎ Collision env.blake3
unfolding desired_digest
desired_digest-SameDesired env a b h k l e =
    elim (digest_cases env.blake3 (desired_bytes a) (desired_bytes b) e) [
      | inl same ↦ inl (desired_bytes-injective a b h k l same)
      | inr collision ↦ inr collision
    ]
