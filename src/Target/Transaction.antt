-- ===== src/Target/Transaction.antt =====
-- `Target::apply` of target.rs over a database whose answers are parameters.
use connector_supabase.Common.{
  not, Option, none, some, String, List, [], ◌∷◌, Result, ok, err, str_eq, if◌then◌else◌,
}
use mathlib.Core.Option
use connector_supabase.External.{External}
use connector_supabase.Plan.{PlannedOperation, ExecutablePlan}
use connector_supabase.Slice.{DesiredSlice}
use connector_supabase.Target.{
  ObservedTarget, TargetError, unavailable, ApplyResult, applied, stale,
}
use connector_supabase.Target.Connect.{TargetConfig, PgConfig, connect}
use connector_supabase.Target.Digest.{observed_digest}
use connector_supabase.Target.Observe.{Client, observe_with}
use connector_supabase.Target.Provider.{PgError, provider_or_unavailable}
use connector_supabase.Target.Sql.{Statement, execute}

-- What was done on the way to an observation: the transaction is started, its advisory lock is taken,
-- and it is committed with the statements that were sent, the last first.
pub data Step : Type 0 where
  started locked : Step
  committed_with : List Statement → Step

-- What the database answers: the failures of the steps, after the statements of `execute` that it was
-- sent (the last first), and the client of the observations, after the steps that were done (the last
-- first). A step that is `unavailable` fails with its display alone.
pub record Database : Type 0 where
  pub config : TargetConfig
  pub read_to_string : List Statement → String → Result String String
  pub dial : List Statement → PgConfig → Option String
  pub start : Option String
  pub lock : Option String
  pub client : List Step → Client
  pub run : List Statement → Statement → Option PgError
  pub rollback : Option String
  pub commit : List Statement → Option PgError

-- How the transaction ended; it is `dropped` where an early return drops it.
pub data Ending : Type 0 where
  dropped : Ending
  rolled_back : Ending
  commit_failed : Ending
  committed : Ending

pub record Attempt : Type 0 where
  pub answer : Result ApplyResult TargetError
  pub sent : List Statement
  pub ending : Ending

abbrev pub failure_of : Result Unit TargetError → Option TargetError
failure_of (ok done) = none
failure_of (err error) = some error

-- A step before any statement, and `?` on it.
abbrev pub attempt : Option TargetError → Attempt → Attempt
attempt none rest = rest
attempt (some error) rest = record { answer = err error; sent = []; ending = dropped }

-- A step of the transaction, which the rest comes after.
abbrev pub after_step : Option TargetError → Step → List Step → (List Step → Attempt) → Attempt
after_step failure step steps rest = attempt failure (rest (step ∷ steps))

module _ (env : External) (database : Database) (desired : DesiredSlice) (plan : ExecutablePlan)
    (operation : PlannedOperation) where
  abbrev pub connected : List Statement → Result Unit TargetError
  connected sent = connect (database.read_to_string sent) (database.dial sent) database.config

  -- `Target::observe` over a connection, after the commit.
  abbrev pub observe : List Statement → Result Unit TargetError → Result ObservedTarget TargetError
  observe sent (ok client) =
      observe_with (database.client (committed_with sent ∷ locked ∷ started ∷ [])) desired
  observe sent (err error) = err error

  -- The answer after the commit.
  abbrev pub reported : Result ObservedTarget TargetError → Result ApplyResult TargetError
  reported (ok after) = ok (applied (observed_digest env after))
  reported (err error) = err error

  abbrev pub committing : List Statement → Option TargetError → Attempt
  committing sent none = record {
    answer = reported (observe sent (connected sent));
    sent = sent;
    ending = committed;
  }
  committing sent (some error) = record { answer = err error; sent = sent; ending = commit_failed }

  abbrev pub finish : Result Unit TargetError × List Statement → Attempt
  finish (ok done, sent) =
      committing sent (Option.map provider_or_unavailable (database.commit sent))
  finish (err error, sent) = record { answer = err error; sent = sent; ending = rolled_back }

  abbrev pub reject : ObservedTarget → Option TargetError → Attempt
  reject observed none = record {
    answer = ok (stale (observed_digest env observed));
    sent = [];
    ending = rolled_back;
  }
  reject observed (some error) = record { answer = err error; sent = []; ending = dropped }

  abbrev pub run : List Statement → Statement → Option TargetError
  run sent statement = Option.map provider_or_unavailable (database.run sent statement)

  -- The freshness check under the lock.
  unfoldable pub checked : Result ObservedTarget TargetError → Attempt
  checked (err error) = record { answer = err error; sent = []; ending = dropped }
  checked (ok observed) =
      if not (str_eq (observed_digest env observed) plan.observed_digest)
      then reject observed (Option.map unavailable database.rollback)
      else finish (execute run plan operation)

  unfoldable pub apply : Attempt
  unfolding checked
  apply = attempt (failure_of (connected [])) (
      after_step (Option.map unavailable database.start) started [] (λ steps.
        after_step (Option.map unavailable database.lock) locked steps
          (λ steps. checked (observe_with (database.client steps) desired))))
