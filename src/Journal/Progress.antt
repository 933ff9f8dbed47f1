-- ===== src/Journal/Progress.antt =====
-- The loop of `OperationJournal::load` in journal.rs ends.
use connector_supabase.Common.{
  ℕ, zero, suc, ◌+◌, ◌≤◌, ◌<◌, Bool, true, false, String, List, [], ◌∷◌, ◌≡◌, ◌≢◌, refl, arith,
  Bytes, Result, ok, err, ◌>>=◌, >>=-eq-ok, ok-injective, map_err, map_err-eq-ok, if_keeps, subst,
  ◌||◌, ltb, ltb→lt, if◌then◌else◌,
}
use connector_supabase.Common.Decimal.{u64_limit}
use connector_supabase.Common.Text.{codes}
use connector_supabase.Common.Words.{saturating_add}
use connector_supabase.Journal.{JournalSnapshot, JournalEnvelope}
use connector_supabase.Journal.Fold.{empty}
use connector_supabase.Journal.Stream.{
  S2Error, server, seq_num_mismatch, other, S2Record, JournalFault, transient, out_of_fuel, is_nil,
  has_part, lower, tail_of, read_record, read_records, read_batch, read_batches, load,
}

-- Every record of a batch stands at or after the position that was read.
abbrev pub IsFrom : ℕ → List S2Record → Type 0
IsFrom next [] = Unit
IsFrom next (entry ∷ entries) = (next ≤ entry.seq_num) × IsFrom next entries

>>=-ne-err :
    {A B : Type 0} (e : JournalFault) (r : Result A JournalFault) (f : A → Result B JournalFault)
    → r ≢ err e
    → ((a : A) → r ≡ ok a → f a ≢ err e)
    → (r >>= f) ≢ err e
>>=-ne-err e (ok a) f h k = k a refl
>>=-ne-err e (err x) f h k = λ q. h (cc q)

map_err-ne-err :
    {A F : Type 0} (g : F → JournalFault) (r : Result A F) (e : JournalFault)
    → ((x : F) → g x ≢ e)
    → map_err g r ≢ err e
map_err-ne-err g (ok a) e h = λ q. cc q
map_err-ne-err g (err x) e h = λ q. h x (cc q)

refused-ne-err :
    {A : Type 0} (b : Bool) (x e : JournalFault) (a : A)
    → x ≢ e
    → (if b then err x else ok a) ≢ err e
refused-ne-err true x e a h = λ q. h (cc q)
refused-ne-err false x e a h = λ q. cc q

-- Past a record that is at or after the position, the next one is after it.
onward :
    (next tail seq_num : ℕ)
    → next < tail
    → tail < u64_limit
    → next ≤ seq_num
    → suc next ≤ saturating_add seq_num 1
onward next tail seq_num l t h = omega arith

not_yet : (next tail : ℕ) → next < tail → tail ≤ next + 0 → ⊥
not_yet next tail l h = omega arith

fewer : (tail next fuel after : ℕ) → tail ≤ next + suc fuel → suc next ≤ after → tail ≤ after + fuel
fewer tail next fuel after h k = omega arith

tail_of-ne-out_of_fuel : (checked : Result ℕ S2Error) → tail_of checked ≢ err out_of_fuel
unfolding tail_of
tail_of-ne-out_of_fuel (ok tail) = λ q. cc q
tail_of-ne-out_of_fuel (err (server code message)) =
    if_keeps (λ r. r ≢ err out_of_fuel)
      (has_part (lower code) (codes "not_found") || has_part (lower message) (codes "not found")) _
      _ (λ _ q. cc q) (λ _ q. cc q)
tail_of-ne-out_of_fuel (err (seq_num_mismatch n)) = λ q. cc q
tail_of-ne-out_of_fuel (err (other detail)) = λ q. cc q

found_empty :
    (b : Bool) (e : JournalFault) (tail : ℕ)
    → (if b then ok 0 else err e) ≡ ok tail
    → tail < u64_limit
found_empty true e tail h = subst (λ n. n < u64_limit) (ok-injective h) (omega arith)
found_empty false e tail h = cc

tail_of-lt :
    (checked : Result ℕ S2Error) (tail : ℕ)
    → ((n : ℕ) → checked ≡ ok n → n < u64_limit)
    → tail_of checked ≡ ok tail
    → tail < u64_limit
unfolding tail_of
tail_of-lt (ok n) tail bounded h = bounded tail (cc h)
tail_of-lt (err (server code message)) tail bounded h = found_empty _ _ tail h
tail_of-lt (err (seq_num_mismatch n)) tail bounded h = cc
tail_of-lt (err (other detail)) tail bounded h = cc

module _ (parse_envelope : Bytes → Result JournalEnvelope String) where
  read_record-ne-out_of_fuel :
      (snapshot : JournalSnapshot) (entry : S2Record)
      → read_record parse_envelope snapshot entry ≢ err out_of_fuel
  unfolding read_record
  read_record-ne-out_of_fuel snapshot entry =
      >>=-ne-err out_of_fuel (map_err _ (parse_envelope entry.body)) _
        (map_err-ne-err _ (parse_envelope entry.body) out_of_fuel (λ x q. cc q))
        (λ envelope _. refused-ne-err _ _ out_of_fuel _ (λ q. cc q))

  read_records-ne-out_of_fuel :
      (next : ℕ) (snapshot : JournalSnapshot) (batch : List S2Record)
      → read_records parse_envelope next snapshot batch ≢ err out_of_fuel
  unfolding read_records
  read_records-ne-out_of_fuel next snapshot [] = λ q. cc q
  read_records-ne-out_of_fuel next snapshot (entry ∷ batch) =
      >>=-ne-err out_of_fuel (read_record parse_envelope snapshot entry) _
        (read_record-ne-out_of_fuel snapshot entry)
        (λ s _. read_records-ne-out_of_fuel (saturating_add entry.seq_num 1) s batch)

  read_records-le :
      (tail next n : ℕ) (snapshot : JournalSnapshot) (batch : List S2Record)
      (p : ℕ × JournalSnapshot)
      → next < tail
      → tail < u64_limit
      → suc next ≤ n
      → IsFrom next batch
      → read_records parse_envelope n snapshot batch ≡ ok p
      → suc next ≤ p.0
  unfolding read_records
  read_records-le tail next n snapshot [] p l t h f e =
      subst (λ (x : ℕ × JournalSnapshot). suc next ≤ x.0) (ok-injective e) h
  read_records-le tail next n snapshot (entry ∷ batch) p l t h f e =
      let (s, (_, e')) = >>=-eq-ok (read_record parse_envelope snapshot entry) _ e in
      read_records-le tail next (saturating_add entry.seq_num 1) s batch p l t
        (onward next tail entry.seq_num l t f.0) f.1 e'

  module _ (read : ℕ → Result (List S2Record) S2Error)
      (onwards : (next : ℕ) (batch : List S2Record)
        → read next ≡ ok batch
        → IsFrom next batch) where
    read_batch-ne-out_of_fuel :
        (tail next : ℕ) (snapshot : JournalSnapshot)
        → read_batch parse_envelope read tail next snapshot ≢ err out_of_fuel
    unfolding read_batch
    read_batch-ne-out_of_fuel tail next snapshot =
        >>=-ne-err out_of_fuel (map_err transient (read next)) _
          (map_err-ne-err transient (read next) out_of_fuel (λ x q. cc q))
          (λ batch _.
            if_keeps (λ r. r ≢ err out_of_fuel) (is_nil batch) _
              (read_records parse_envelope next snapshot batch) (λ _ q. cc q)
              (λ _. read_records-ne-out_of_fuel next snapshot batch))

    batch_onward :
        (tail next : ℕ) (snapshot : JournalSnapshot) (batch : List S2Record)
        (p : ℕ × JournalSnapshot) (fault : JournalFault)
        → next < tail
        → tail < u64_limit
        → IsFrom next batch
        → (if is_nil batch then err fault else read_records parse_envelope next snapshot batch)
          ≡ ok p
        → suc next ≤ p.0
    unfolding read_records
    batch_onward tail next snapshot [] p fault l t f e = cc
    batch_onward tail next snapshot (entry ∷ batch) p fault l t f e =
        let (s, (_, e')) = >>=-eq-ok (read_record parse_envelope snapshot entry) _ e in
        read_records-le tail next (saturating_add entry.seq_num 1) s batch p l t
          (onward next tail entry.seq_num l t f.0) f.1 e'

    read_batch-le :
        (tail next : ℕ) (snapshot : JournalSnapshot) (p : ℕ × JournalSnapshot)
        → next < tail
        → tail < u64_limit
        → read_batch parse_envelope read tail next snapshot ≡ ok p
        → suc next ≤ p.0
    unfolding read_batch
    read_batch-le tail next snapshot p l t e =
        let (batch, (r, e')) = >>=-eq-ok (map_err transient (read next)) _ e in
        batch_onward tail next snapshot batch p _ l t
          (onwards next batch (map_err-eq-ok transient (read next) r)) e'

    read_batches-ne-out_of_fuel :
        (fuel tail next : ℕ) (snapshot : JournalSnapshot)
        → tail < u64_limit
        → tail ≤ next + fuel
        → read_batches parse_envelope read fuel tail next snapshot ≢ err out_of_fuel
    unfolding read_batches
    read_batches-ne-out_of_fuel zero tail next snapshot t h =
        if_keeps (λ r. r ≢ err out_of_fuel) (ltb next tail) _ (ok snapshot)
          (λ l. absurd (not_yet next tail (ltb→lt next tail l) h)) (λ _ q. cc q)
    read_batches-ne-out_of_fuel (suc fuel) tail next snapshot t h =
        if_keeps (λ r. r ≢ err out_of_fuel) (ltb next tail) _ (ok snapshot)
          (λ l.
            >>=-ne-err out_of_fuel (read_batch parse_envelope read tail next snapshot) _
              (read_batch-ne-out_of_fuel tail next snapshot)
              (λ p e. read_batches-ne-out_of_fuel fuel tail p.0 p.1 t (
                fewer tail next fuel p.0 h
                  (read_batch-le tail next snapshot p (ltb→lt next tail l) t e))))
          (λ _ q. cc q)

    -- Where each record that a read returns stands at or after the position that was read, and the
    -- tail is below 2^64, load never runs out of the fuel of the model, whatever else the stream
    -- answers: the loop of the code ends, with a snapshot or with one of its own faults.
    pub load-ne-out_of_fuel :
        (checked : Result ℕ S2Error)
        → ((tail : ℕ) → checked ≡ ok tail → tail < u64_limit)
        → load parse_envelope read checked ≢ err out_of_fuel
    unfolding load
    load-ne-out_of_fuel checked bounded =
        >>=-ne-err out_of_fuel (tail_of checked) _ (tail_of-ne-out_of_fuel checked) (λ tail e.
          read_batches-ne-out_of_fuel tail tail 0 (empty tail) (tail_of-lt checked tail bounded e)
            (omega arith))
