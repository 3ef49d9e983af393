-- ===== src/Configuration/Operations/Reporting.antt =====
-- How an operation reports the error of an object that it rejects: on the change that removes the
-- resource, if there is one, and else as a problem.
use ingress_nextgen.Common.{
  List, Option, String, [], if◌then◌else◌, none, some, string_eq, true, ℕ_eq, ◌+++◌, ◌==◌, ◌∷◌,
}
use ingress_nextgen.Problems.{ConfigObject, ConfigurationProblem}
use ingress_nextgen.Changes.{ResourceChange, change_key}
use ingress_nextgen.Configuration.Rebuild.{Outcome}

-- What there is to report: nothing; the error for the change of the key, or the object's problem
-- with its message; or the problem in any case.
pub data Report : Type 0 where
  no_error : Report
  on_change : String → String → ConfigObject → String → Report
  as_problem : ConfigObject → String → Report

abbrev pub error_problem : ConfigObject → String → ConfigurationProblem
error_problem object message = record {
  object = object;
  is_error = true;
  reason = "Rejected";
  message = message;
}

unfoldable pub startup_problems : Report → List ConfigurationProblem
startup_problems no_error = []
startup_problems (on_change key err object message) = error_problem object message ∷ []
startup_problems (as_problem object message) = error_problem object message ∷ []

-- The loop over the changes sets the error of the first with the key, and says whether there is one.
unfoldable pub set_error : String → String → List ResourceChange → Option (List ResourceChange)
set_error key err [] = none
set_error key err (ch ∷ chs) =
    if change_key ch == key
    then some ((record ch { error = err }) ∷ chs)
    else elim (set_error key err chs) [ none ↦ none | some chs' ↦ some (ch ∷ chs') ]

unfoldable pub add_error : Report → Outcome → Outcome
unfolding set_error
add_error no_error outcome = outcome
add_error (as_problem object message) (c, changes, problems) =
    (c, changes, problems +++ error_problem object message ∷ [])
add_error (on_change key err object message) (c, changes, problems) =
    elim (set_error key err changes) [
      | some changes' ↦ (c, changes', problems)
      | none ↦ (c, changes, problems +++ error_problem object message ∷ [])
    ]
