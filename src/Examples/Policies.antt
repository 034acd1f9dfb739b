-- ===== src/Examples/Policies.antt =====
-- The checks of packages/policy/src/engine.ts at concrete rules and commands.
use avity_os.Base.{
  String, Bool, true, ◌≡◌, inl, Option, some, ◌&&◌, List, [], ◌∷◌, none, ◌===◌, string_eq,
  if◌then◌else◌, refl,
}
use avity_os.Policy.{
  allow, require_approval, maximum_autonomy, PolicyRule, Policy, is_dangerous, evaluate,
  CommandPolicy, is_command_allowed, Evaluation, matched_rule,
}
use avity_os.Policy.Globs.{glob_source}
use avity_os.Policy.Rules.{tried, Decider, allow_by_rule}

-- The expressions of the patterns below, one of which is invalid.
abbrev expression : String → Option (String → Bool)
expression source =
    if source === "^?x$"
    then none
    else if source === "^.*$"
    then some (λ value. true)
    else some (λ value. source === "^deploy\\.production$" && value === "deploy.production")

abbrev deploys : PolicyRule
deploys = record {
  id = "r1";
  description = "";
  action = "deploy.production";
  resource = "**";
  effect = allow;
}

abbrev policies : List Policy
policies = record { name = "project"; rules = deploys ∷ [] } ∷ []

push_needs_approval :
    (elim (evaluate expression policies "git.push_force.main" "repo" maximum_autonomy) [
      | none ↦ none
      | some decision ↦ some decision.effect
    ])
    ≡ some require_approval
unfolding evaluate
push_needs_approval = refl

abbrev broken : List Policy
broken = record { name = "broken"; rules = record deploys { action = "?x" } ∷ [] } ∷ policies

broken_throws : evaluate expression broken "deploy.production" "site" maximum_autonomy ≡ none
unfolding evaluate
broken_throws = refl

abbrev by_deploys : Evaluation
by_deploys = record { effect = allow; rule_id = some "r1"; reason = matched_rule "r1" "project" }

deploy_allowed :
    evaluate expression policies "deploy.production" "site" maximum_autonomy ≡ some by_deploys
unfolding evaluate
deploy_allowed = refl

allow_by_rule_example :
    (decider : Decider expression "deploy.production" "site" (tried policies) by_deploys)
    × (decider.place.rule.effect ≡ allow)
unfolding is_dangerous
allow_by_rule_example =
    allow_by_rule expression policies "deploy.production" "site" maximum_autonomy by_deploys
      (inl refl) deploy_allowed refl

abbrev commands : CommandPolicy
commands = record { allowed_executables = "git" ∷ "node" ∷ []; denied_executables = "curl" ∷ [] }

git_by_path : (is_command_allowed commands ("/usr/bin/git" ∷ "status" ∷ [])).effect ≡ allow
unfolding is_command_allowed
git_by_path = refl

source_of_star : glob_source "src/**/*.ts" ≡ "^src/.*/[^/.]*\\.ts$"
unfolding glob_source
source_of_star = refl

source_of_question : glob_source "?x***" ≡ "^?x.*[^/.]*$"
unfolding glob_source
source_of_question = refl
