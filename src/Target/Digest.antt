-- ===== src/Target/Digest.antt =====
-- `ObservedTarget::digest` of target.rs, in the form in which the plans and the journal hold it.
use connector_supabase.Common.{String, [], ◌∷◌, Bytes, format}
use connector_supabase.External.{External}
use connector_supabase.Target.{ObservedTarget}

module _ (env : External) where
  unfoldable pub digest : ObservedTarget → Bytes
  digest self = env.blake3 (env.observed_bytes self)

  -- `format!("blake3:{}", hex::encode(observed.digest()))`.
  unfoldable pub observed_digest : ObservedTarget → String
  unfolding digest
  observed_digest observed = format ("blake3:" ∷ env.hex_encode (digest observed) ∷ [])
