-- ===== src/Journal/Paging.antt =====
-- The paging loop of `OperationJournal::load` in journal.rs reads the whole stream.
use connector_supabase.Common.{
  append_assoc, ℕ, zero, suc, ◌+◌, ◌≤◌, ◌<◌, true, false, List, [], ◌∷◌, ◌++◌, ◌≡◌, refl, sym,
  subst, ◌∙◌, ap, arith, Bytes, Result, ok, err, ◌>>=◌, String, length, length-append, ltb,
}
use connector_supabase.Common.Decimal.{u64_limit}
use connector_supabase.Common.Words.{saturating_add}
use connector_supabase.Journal.{JournalSnapshot, JournalEnvelope}
use connector_supabase.Journal.Fold.{empty}
use connector_supabase.Journal.Stream.{
  S2Error, S2Record, JournalFault, tail_of, read_record, read_records, read_batch, read_batches,
  load,
}

-- Consecutive numbers from `n`.
abbrev pub IsNumbered : ℕ → List S2Record → Type 0
IsNumbered n [] = Unit
IsNumbered n (entry ∷ entries) = (entry.seq_num ≡ n) × IsNumbered (suc n) entries

-- The documented behaviour of a read: from any position before the end it returns one record or
-- more, which are the next ones.
abbrev pub ReadsOn : (ℕ → Result (List S2Record) S2Error) → List S2Record → Type 0
ReadsOn read log =
    (front : List S2Record) (entry : S2Record) (rest : List S2Record)
    → log ≡ front ++ entry ∷ rest
    → (more : List S2Record) × ((later : List S2Record) × ((rest ≡ more ++ later)
          × (read (length front) ≡ ok (entry ∷ more))))

append_nil {ℓ} : {A : Type ℓ} (xs : List A) → (xs ++ []) ≡ xs
append_nil [] = refl
append_nil (x ∷ xs) = ap (λ l. x ∷ l) (append_nil xs)

IsNumbered-back :
    (n : ℕ) (front back : List S2Record)
    → IsNumbered n (front ++ back)
    → IsNumbered (n + length front) back
IsNumbered-back n [] back h = subst (λ k. IsNumbered k back) (omega arith) h
IsNumbered-back n (entry ∷ front) back h =
    subst (λ k. IsNumbered k back) (omega arith) (IsNumbered-back (suc n) front back h.1)

IsNumbered-drop :
    (front back : List S2Record) → IsNumbered 0 (front ++ back) → IsNumbered (length front) back
IsNumbered-drop front back h =
    subst (λ k. IsNumbered k back) (omega arith) (IsNumbered-back 0 front back h)

IsNumbered-front :
    (n : ℕ) (front back : List S2Record) → IsNumbered n (front ++ back) → IsNumbered n front
IsNumbered-front n [] back h = tt
IsNumbered-front n (entry ∷ front) back h = (h.0, IsNumbered-front (suc n) front back h.1)

saturating : (s n : ℕ) → s ≡ n → suc n < u64_limit → saturating_add s 1 ≡ suc n
saturating s n e l = omega (arith, e, l)

impossible : (n : ℕ) → suc n ≤ 0 → ⊥
impossible n l = omega (arith, l)

no_fuel {ℓ} : {A : Type ℓ} {x y : A} (n : ℕ) → suc n ≤ 0 → x ≡ y
no_fuel n l = elim (impossible n l) [ ]

module _ (parse_envelope : Bytes → Result JournalEnvelope String) where
  -- The records one after the other, up to the first that cannot be read.
  abbrev pub fold_records : JournalSnapshot → List S2Record → Result JournalSnapshot JournalFault
  fold_records snapshot [] = ok snapshot
  fold_records snapshot (entry ∷ entries) =
      read_record parse_envelope snapshot entry >>= λ s. fold_records s entries

  bind_cong :
      {A B : Type 0} (r : Result A JournalFault) (f g : A → Result B JournalFault)
      → ((a : A) → f a ≡ g a)
      → (r >>= f) ≡ (r >>= g)
  bind_cong (ok a) f g h = h a
  bind_cong (err e) f g h = refl

  bind_assoc :
      {A B C : Type 0} (r : Result A JournalFault) (f : A → Result B JournalFault)
      (g : B → Result C JournalFault)
      → ((r >>= f) >>= g) ≡ (r >>= λ a. f a >>= g)
  bind_assoc (ok a) f g = refl
  bind_assoc (err e) f g = refl

  fold_records-append :
      (snapshot : JournalSnapshot) (front back : List S2Record)
      → fold_records snapshot (front ++ back)
        ≡ (fold_records snapshot front >>= λ s. fold_records s back)
  fold_records-append snapshot [] back = refl
  fold_records-append snapshot (entry ∷ front) back =
      bind_cong (read_record parse_envelope snapshot entry) _ _
        (λ s. fold_records-append s front back)
      ∙ sym (bind_assoc (read_record parse_envelope snapshot entry) _ _)

  -- One batch: the records are folded, and the next number is the one after the last.
  read_records_lem :
      (n : ℕ) (snapshot : JournalSnapshot) (batch : List S2Record)
      → IsNumbered n batch
      → n + length batch < u64_limit
      → read_records parse_envelope n snapshot batch
        ≡ (fold_records snapshot batch >>= λ s. ok (n + length batch, s))
  unfolding read_records
  read_records_lem n snapshot [] h l = ap (λ (k : ℕ). ok (k, snapshot)) (omega arith)
  read_records_lem n snapshot (entry ∷ batch) h l =
      bind_cong (read_record parse_envelope snapshot entry) _ _ (λ s.
        ap (λ (k : ℕ). read_records parse_envelope k s batch)
          (saturating entry.seq_num n h.0 (omega (arith, l)))
        ∙ read_records_lem (suc n) s batch h.1 (omega (arith, l))
        ∙ ap (λ (k : ℕ). fold_records s batch >>= λ s'. ok (k, s')) (omega arith))
      ∙ sym (bind_assoc (read_record parse_envelope snapshot entry) _ _)

  module _ (read : ℕ → Result (List S2Record) S2Error) (log : List S2Record)
      (numbered : IsNumbered 0 log) (bounded : length log < u64_limit)
      (reads : ReadsOn read log) where
    at_end : (front : List S2Record) → log ≡ front ++ [] → ltb (length front) (length log) ≡ false
    at_end front e = rw (e, append_nil front) (ground arith)

    in_middle :
        (front : List S2Record) (entry : S2Record) (rest : List S2Record)
        → log ≡ front ++ entry ∷ rest
        → ltb (length front) (length log) ≡ true
    in_middle front entry rest e =
        ground (arith, ap (λ l. length l) e, length-append front (entry ∷ rest))

    fits :
        (front : List S2Record) (entry : S2Record) (more later : List S2Record)
        → log ≡ front ++ ((entry ∷ more) ++ later)
        → length front + length (entry ∷ more) < u64_limit
    fits front entry more later e =
        let size = ap (λ l. length l) e in
        omega (
          arith,
          bounded,
          size,
          length-append front ((entry ∷ more) ++ later),
          length-append more later,
        )

    -- A batch that the stream returns at a position before the end.
    read_batch_lem :
        (front : List S2Record) (entry : S2Record) (more later : List S2Record)
        (snapshot : JournalSnapshot)
        → log ≡ front ++ ((entry ∷ more) ++ later)
        → read (length front) ≡ ok (entry ∷ more)
        → read_batch parse_envelope read (length log) (length front) snapshot ≡ (
            fold_records snapshot (entry ∷ more) >>= λ s.
            ok (length front + length (entry ∷ more), s))
    unfolding read_batch
    read_batch_lem front entry more later snapshot e r =
        let numbers =
          IsNumbered-drop front ((entry ∷ more) ++ later) (subst (IsNumbered 0) e numbered) in
        rw r (
          read_records_lem (length front) snapshot (entry ∷ more)
            (IsNumbered-front (length front) (entry ∷ more) later numbers)
            (fits front entry more later e))

    read_batches_lem :
        (fuel : ℕ) (front rest : List S2Record) (snapshot : JournalSnapshot)
        → log ≡ front ++ rest
        → length rest ≤ fuel
        → read_batches parse_envelope read fuel (length log) (length front) snapshot
          ≡ fold_records snapshot rest
    unfolding read_batches
    read_batches_lem zero front [] snapshot e l = rw (at_end front e) refl
    read_batches_lem zero front (entry ∷ rest) snapshot e l = no_fuel (length rest) l
    read_batches_lem (suc fuel) front [] snapshot e l = rw (at_end front e) refl
    read_batches_lem (suc fuel) front (entry ∷ rest) snapshot e l =
        let (more, (later, (split, r))) = reads front entry rest e in
        let whole = e ∙ ap (λ k. front ++ entry ∷ k) split in
        let sizes = ap (λ k. length k) split ∙ length-append more later in
        rw (in_middle front entry rest e) (
          ap (λ b. b >>= λ p. read_batches parse_envelope read fuel (length log) p.0 p.1)
            (read_batch_lem front entry more later snapshot whole r)
          ∙ bind_assoc (fold_records snapshot (entry ∷ more)) _ _
          ∙ bind_cong (fold_records snapshot (entry ∷ more)) _ _ (λ s.
            ap (λ (n : ℕ). read_batches parse_envelope read fuel (length log) n s)
              (sym (length-append front (entry ∷ more)))
            ∙ read_batches_lem fuel (front ++ entry ∷ more) later s
                (whole ∙ append_assoc front (entry ∷ more) later) (omega (arith, l, sizes)))
          ∙ sym (fold_records-append snapshot (entry ∷ more) later)
          ∙ ap (λ k. fold_records snapshot (entry ∷ k)) (sym split))

    read_all :
        (snapshot : JournalSnapshot)
        → read_batches parse_envelope read (length log) (length log) 0 snapshot
          ≡ fold_records snapshot log
    read_all snapshot = read_batches_lem (length log) [] log snapshot refl (omega arith)

    -- Where the records of the stream are numbered from zero, fewer than 2^64, and every read before
    -- the end returns the next one or more of them, `load` at the stream's tail ends and is the fold
    -- of all records in their order, up to the first that cannot be read: no record is skipped or
    -- read twice, however the reads cut the stream into batches.
    pub load-fold_records :
        load parse_envelope read (ok (length log)) ≡ fold_records (empty (length log)) log
    unfolding load tail_of
    load-fold_records = read_all (empty (length log))
