-- ===== src/Core/Decider/Total.antt =====
-- `decide` and `decide_all` return whenever their inputs are well-formed and the journal accepts the
-- event; whatever happens they change no store, and a decision that the journal refuses reaches nobody.
use headofcontext.Prelude.{String, Bool, Option, List}
use headofcontext.Core.Chain.{PrincipalChain}
use headofcontext.Core.Decision.{Action, DecisionContext}
use headofcontext.Core.Decider.{
  Evaluation, evaluate, conclude, decide, batch, evaluate_all, decide_all,
}
use headofcontext.World.{Env}
use headofcontext.World.Logged.{IsQuiet, Logs, quiet_rules, logs_rules}

module _ {Args : Type 0} (env : Env Args) (chain : PrincipalChain) (action : Action) where
  pub conclude-Logs :
      (resource : String) (resources : List String) (args : Option Args) (e : Evaluation)
      → Logs (conclude env chain action resource resources args e)
  unfolding conclude
  conclude-Logs resource resources args e = search logs_rules

  evaluate-IsQuiet :
      (resource : String) (args : Args) (context : DecisionContext)
      → IsQuiet (evaluate env chain action resource args context)
  unfolding evaluate
  evaluate-IsQuiet resource args context = search quiet_rules depth 8

  pub batch-IsQuiet :
      (subject relation : String) (resources : List String)
      → IsQuiet (batch env subject relation resources)
  unfolding batch
  batch-IsQuiet subject relation resources = search quiet_rules

  evaluate_all-IsQuiet :
      (resources scope_targets : List String) (explicit_scope : Bool) (args : Args)
      (context : DecisionContext)
      → IsQuiet (evaluate_all env chain action resources scope_targets explicit_scope args context)
  unfolding evaluate_all
  evaluate_all-IsQuiet resources scope_targets explicit_scope args context =
      search (quiet_rules, batch-IsQuiet) depth 10

  -- Whatever `decide` does, no store changes. If it returns a decision, the journal gained exactly
  -- one event; if it raises, the sink's refusal included, the journal is as it was.
  pub decide-Logs :
      (resource : String) (args : Option Args) (context : Option DecisionContext)
      → Logs (decide env chain action resource args context)
  unfolding decide
  decide-Logs resource args context = search (logs_rules, evaluate-IsQuiet, conclude-Logs) depth 8

  pub decide_all-Logs :
      (resources : List String) (scope_resources : Option (List String)) (resource : Option String)
      (args : Option Args) (context : Option DecisionContext)
      → Logs (decide_all env chain action resources scope_resources resource args context)
  unfolding decide_all
  decide_all-Logs resources scope_resources resource args context =
      search (logs_rules, evaluate_all-IsQuiet, conclude-Logs) depth 8
