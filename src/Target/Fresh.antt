-- ===== src/Target/Fresh.antt =====
-- What `Target::apply` of target.rs promises.
use connector_supabase.Common.{
  not, Option, none, some, String, List, [], ◌∷◌, ◌≡◌, ◌⊎◌, inl, inr, refl, Result, ok, err, str_eq,
  eq_iff, if_keeps, arith,
}
use mathlib.Core.Option
use connector_supabase.External.{External}
use connector_supabase.Plan.{PlannedOperation, ExecutablePlan}
use connector_supabase.Slice.{DesiredSlice}
use connector_supabase.Target.{ObservedTarget, TargetError, unavailable, applied, stale}
use connector_supabase.Target.Digest.{observed_digest}
use connector_supabase.Target.Observe.{observe_with}
use connector_supabase.Target.Sql.{Statement, statements, send, execute}
use connector_supabase.Target.Transaction.{
  run, started, locked, Database, Ending, dropped, rolled_back, commit_failed, committed, Attempt,
  attempt, reported, committing, finish, reject, checked, apply,
}

-- The statements as they are recorded, the last first.
abbrev pub recorded : List Statement → List Statement → List Statement
recorded sent [] = sent
recorded sent (statement ∷ rest) = recorded (statement ∷ sent) rest

-- A commit was asked for.
abbrev pub MayCommit : Ending → Type 0
MayCommit dropped = ⊥
MayCommit rolled_back = ⊥
MayCommit commit_failed = Unit
MayCommit committed = Unit

-- What follows a statement that was sent.
abbrev next :
    Option TargetError
    → Result Unit TargetError × List Statement
    → List Statement
    → Result Unit TargetError × List Statement
next failure later sent = elim failure [ none ↦ later | some error ↦ (err error, sent) ]

-- A chain that succeeds goes on.
go_on :
    (failure : Option TargetError) (later : Result Unit TargetError × List Statement)
    (sent all : List Statement)
    → (later.0 ≡ ok tt → later.1 ≡ all)
    → (next failure later sent).0 ≡ ok tt
    → (next failure later sent).1 ≡ all
go_on none later sent all h e = h e
go_on (some error) later sent all h e = cc

send-recorded :
    (run : List Statement → Statement → Option TargetError) (sent rest : List Statement)
    → (send run sent rest).0 ≡ ok tt
    → (send run sent rest).1 ≡ recorded sent rest
unfolding send
send-recorded run sent [] h = refl
send-recorded run sent (statement ∷ rest) h =
    go_on (run sent statement) (send run (statement ∷ sent) rest) (statement ∷ sent)
      (recorded sent (statement ∷ rest)) (send-recorded run (statement ∷ sent) rest) h

succeeded : (failure : Option String) → Option.map unavailable failure ≡ none → failure ≡ none
succeeded none e = refl
succeeded (some error) e = cc

module _ (env : External) (database : Database) (desired : DesiredSlice) (plan : ExecutablePlan)
    (operation : PlannedOperation) where
  -- The transaction started and its lock was taken, and the observation after these two steps is the
  -- one that the plan was made against.
  abbrev pub IsFresh : Type 0
  IsFresh =
      ((database.start ≡ none) × (database.lock ≡ none))
      × ((observed : ObservedTarget) × ((observe_with (database.client (locked ∷ started ∷ []))
                desired
              ≡ ok observed)
            × (observed_digest env observed ≡ plan.observed_digest)))

  pub record Promise (a : Attempt) : Type 0 where
    pub fresh : (a.sent ≡ []) ⊎ IsFresh
    pub whole : MayCommit a.ending → IsFresh × (a.sent ≡ recorded [] (statements plan operation))
    pub applies : (digest : String) → a.answer ≡ ok (applied digest) → a.ending ≡ committed
    pub stales :
        (digest : String) → a.answer ≡ ok (stale digest) → (a.ending ≡ rolled_back) × (a.sent ≡ [])

  failed :
      (error : TargetError) → Promise (record { answer = err error; sent = []; ending = dropped })
  failed error = record {
    fresh = inl refl;
    whole = λ m. elim m [ ];
    applies = λ d e. cc;
    stales = λ d e. cc;
  }

  attempt-Promise :
      (failure : Option TargetError) (a : Attempt)
      → (failure ≡ none → Promise a)
      → Promise (attempt failure a)
  attempt-Promise none a p = p refl
  attempt-Promise (some error) a p = failed error

  reject-Promise :
      (observed : ObservedTarget) (failure : Option TargetError)
      → Promise (reject env database desired plan operation observed failure)
  reject-Promise observed none = record {
    fresh = inl refl;
    whole = λ m. elim m [ ];
    applies = λ d e. cc;
    stales = λ d e. (refl, refl);
  }
  reject-Promise observed (some error) = failed error

  reported-not_stale :
      (r : Result ObservedTarget TargetError) (digest : String)
      → reported env database desired plan operation r ≡ ok (stale digest)
      → ⊥
  reported-not_stale (ok after) digest e = cc
  reported-not_stale (err error) digest e = cc

  committing-Promise :
      (sent : List Statement) (failure : Option TargetError)
      → IsFresh
      → sent ≡ recorded [] (statements plan operation)
      → Promise (committing env database desired plan operation sent failure)
  committing-Promise sent none f s = record {
    fresh = inr f;
    whole = λ _. (f, s);
    applies = λ d e. refl;
    stales = λ d e. elim (reported-not_stale _ d e) [ ];
  }
  committing-Promise sent (some error) f s = record {
    fresh = inr f;
    whole = λ _. (f, s);
    applies = λ d e. cc;
    stales = λ d e. cc;
  }

  finish-Promise :
      (r : Result Unit TargetError × List Statement)
      → IsFresh
      → (r.0 ≡ ok tt → r.1 ≡ recorded [] (statements plan operation))
      → Promise (finish env database desired plan operation r)
  finish-Promise (ok done, sent) f s = committing-Promise sent _ f (s refl)
  finish-Promise (err error, sent) f s = record {
    fresh = inr f;
    whole = λ m. elim m [ ];
    applies = λ d e. cc;
    stales = λ d e. cc;
  }

  checked-Promise :
      (r : Result ObservedTarget TargetError)
      → (database.start ≡ none) × (database.lock ≡ none)
      → observe_with (database.client (locked ∷ started ∷ [])) desired ≡ r
      → Promise (checked env database desired plan operation r)
  unfolding checked execute
  checked-Promise (err error) l h = failed error
  checked-Promise (ok observed) l h =
      if_keeps Promise (not (str_eq (observed_digest env observed) plan.observed_digest))
        (reject env database desired plan operation observed
          (Option.map unavailable database.rollback))
        (finish env database desired plan operation
          (execute (run env database desired plan operation) plan operation))
        (λ _. reject-Promise observed _)
        (λ s.
          finish-Promise (execute (run env database desired plan operation) plan operation)
            (
              l,
              (
                observed,
                (
                  h,
                  (eq_iff (observed_digest env observed) plan.observed_digest).0
                      (ground (arith, s)),
                ),
              ),
            )
            (send-recorded (run env database desired plan operation) []
              (statements plan operation)))

  -- Whatever the database answers: no statement is sent, or the transaction started, its advisory lock
  -- was taken, and the observation after both has the digest that the plan was made against; a commit
  -- is asked for only where this is so and the statements of the operation were sent, all and in their
  -- order; an applied answer comes after a commit that succeeded, and a stale one after a rollback with
  -- nothing sent.
  pub apply-Promise : Promise (apply env database desired plan operation)
  unfolding apply
  apply-Promise = attempt-Promise _ _ (λ c.
      attempt-Promise (Option.map unavailable database.start) _ (λ s.
        attempt-Promise (Option.map unavailable database.lock) _ (λ l.
          checked-Promise (observe_with (database.client (locked ∷ started ∷ [])) desired)
            (succeeded database.start s, succeeded database.lock l) refl)))
