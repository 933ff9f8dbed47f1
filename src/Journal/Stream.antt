-- ===== src/Journal/Stream.antt =====
-- `OperationJournal::load` and `append` of journal.rs, over the S2 client's calls. The client is a
-- parameter: what its calls answer is an argument.
use connector_supabase.Common.{
  ℕ, zero, suc, ◌+◌, Bool, true, false, ◌&&◌, ◌||◌, not, String, List, [], ◌∷◌, Bytes, Message,
  Result, ok, err, lit, shown, debug, number, ◌>>=◌, map_err, map, ◌==◌, ltb, str_eq, format,
  if◌then◌else◌,
}
use connector_supabase.Common.Decimal.{to_string}
use connector_supabase.Common.Text.{codes, is_uppercase}
use connector_supabase.Common.Words.{saturating_add}
use connector_supabase.Journal.{api_version, JournalSnapshot, JournalEvent, JournalEnvelope}
use connector_supabase.Journal.Fold.{empty, apply}

-- `S2Error`, as far as the connector tells its cases apart.
pub data S2Error : Type 0 where
  server : (code message : String) → S2Error
  seq_num_mismatch : (current_tail : ℕ) → S2Error
  other : String → S2Error

-- A record that the stream returns.
pub record S2Record : Type 0 where
  pub seq_num : ℕ
  pub body : Bytes

-- The faults of `load` and `append`. `out_of_fuel` belongs to the model only.
pub data JournalFault : Type 0 where
  cas_conflict : (current_tail : ℕ) → JournalFault
  transient : S2Error → JournalFault
  invariant : Message → JournalFault
  out_of_fuel : JournalFault

abbrev pub is_nil : List S2Record → Bool
is_nil [] = true
is_nil (entry ∷ entries) = false

abbrev pub lower : String → List ℕ
lower s = map (λ b. if is_uppercase b then b + 32 else b) (codes s)

abbrev pub begins_with : List ℕ → List ℕ → Bool
begins_with text [] = true
begins_with [] (b ∷ bs) = false
begins_with (a ∷ text) (b ∷ bs) = a == b && begins_with text bs

-- `str::contains`.
abbrev pub has_part : List ℕ → List ℕ → Bool
has_part [] part = begins_with [] part
has_part (a ∷ text) part = begins_with (a ∷ text) part || has_part text part

-- The answer of `check_tail`, where a stream that is not found is empty.
unfoldable pub tail_of : Result ℕ S2Error → Result ℕ JournalFault
tail_of (ok tail) = ok tail
tail_of (err (server code message)) =
    if has_part (lower code) (codes "not_found") || has_part (lower message) (codes "not found")
    then ok 0
    else err (transient (server code message))
tail_of (err error) = err (transient error)

module _ (parse_envelope : Bytes → Result JournalEnvelope String) where
  -- One record: it is decoded, its version is checked, and its event is folded.
  unfoldable pub read_record : JournalSnapshot → S2Record → Result JournalSnapshot JournalFault
  read_record snapshot entry = do
    envelope ←
        map_err
          (λ error. invariant (
            lit "invalid operation journal record at "
            ∷ number entry.seq_num
            ∷ lit ": "
            ∷ shown error
            ∷ []))
          (parse_envelope entry.body)
    if not (str_eq envelope.api_version api_version)
        then err (
            invariant (
              lit "unsupported operation journal apiVersion "
              ∷ debug envelope.api_version
              ∷ lit " at "
              ∷ number entry.seq_num
              ∷ []))
        else ok (apply snapshot envelope.event)

  -- The loop over the records of a batch, with the next number to read.
  unfoldable pub read_records :
      ℕ → JournalSnapshot → List S2Record → Result (ℕ × JournalSnapshot) JournalFault
  read_records next snapshot [] = ok (next, snapshot)
  read_records next snapshot (entry ∷ entries) = do
    snapshot' ← read_record snapshot entry
    read_records (saturating_add entry.seq_num 1) snapshot' entries

  module _ (read : ℕ → Result (List S2Record) S2Error) where
    -- One round of the loop: a batch is read, which must not be empty, and folded.
    unfoldable pub read_batch : ℕ → ℕ → JournalSnapshot → Result (ℕ × JournalSnapshot) JournalFault
    read_batch tail next snapshot = do
      batch ← map_err transient (read next)
      if is_nil batch
          then err (
              invariant (
                lit "empty S2 journal batch before tail "
                ∷ number tail
                ∷ lit " at "
                ∷ number next
                ∷ []))
          else read_records next snapshot batch

    -- `while next < tail`.
    unfoldable pub read_batches : ℕ → ℕ → ℕ → JournalSnapshot → Result JournalSnapshot JournalFault
    read_batches zero tail next snapshot = if ltb next tail then err out_of_fuel else ok snapshot
    read_batches (suc fuel) tail next snapshot =
        let rest = read_batch tail next snapshot >>= λ p. read_batches fuel tail p.0 p.1 in
        if ltb next tail then rest else ok snapshot

    -- The fuel is the number of records, since each round reads at least one.
    unfoldable pub load : Result ℕ S2Error → Result JournalSnapshot JournalFault
    load checked = do tail ← tail_of checked; read_batches tail tail 0 (empty tail)

-- What `append` sends: the encoded envelope as a batch of one record, where the encoding, the
-- record and the batch can each be refused.
abbrev pub appended : Result ℕ S2Error → Result ℕ JournalFault
appended (ok start) = ok (saturating_add start 1)
appended (err (seq_num_mismatch current_tail)) = err (cas_conflict current_tail)
appended (err (server code message)) = err (transient (server code message))
appended (err (other detail)) = err (transient (other detail))

-- `append`: the conditional append of one record is given the expected tail and the batch.
module _ (envelope_batch : JournalEnvelope → Result Bytes String) where
  unfoldable pub append :
      (ℕ → Bytes → Result ℕ S2Error) → String → ℕ → JournalEvent → Result ℕ JournalFault
  append stream_append event_id expected_tail event = do
    batch ←
        map_err (λ error. invariant (shown error ∷ []))
          (envelope_batch
            (record { api_version = api_version; event_id = event_id; event = event }))
    appended (stream_append expected_tail batch)

-- Immutable evidence URI for an exact next-tail fence.
unfoldable pub evidence_uri : String → String → ℕ → String
evidence_uri basin_name stream_name tail =
    format ("s2://" ∷ basin_name ∷ "/" ∷ stream_name ∷ "@" ∷ to_string tail ∷ [])
