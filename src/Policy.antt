-- ===== src/Policy.antt =====
-- packages/policy/src/engine.ts: the ordered rules, and the check of commands. The constructor
-- RegExp is an argument, as in Policy/Globs.
pub mod Globs
pub mod Rules
pub mod Checks
use avity_os.Base.{
  ℕ, String, Bool, true, false, not, ◌&&◌, ◌||◌, List, [], ◌∷◌, Option, none, some, ◌===◌,
  if◌then◌else◌, nat_eqb, ltb, length, any, includes, string_eq,
}
use Prim.Native.String.{[] as end, ◌∷◌ as char_then, ◌++◌ as str_append}
use Prim.Native.Char.{Char, code}
use text.Mathlib.Text.{starts_with}
use avity_os.Policy.Globs.{glob_match}

pub data PolicyEffect : Type 0 where
  allow deny require_approval : PolicyEffect

pub data AutonomyProfile : Type 0 where
  supervised autonomous_with_checkpoints maximum_autonomy : AutonomyProfile

pub record PolicyRule : Type 0 where
  pub id : String
  pub description : String
  pub action : String
  pub resource : String
  pub effect : PolicyEffect

pub record Policy : Type 0 where
  pub name : String
  pub rules : List PolicyRule

-- The sentences that the source formats, by what they are made of.
pub data Reason : Type 0 where
  described : (description : String) → Reason
  matched_rule : (rule_id policy_name : String) → Reason
  dangerous_by_default : (action : String) → Reason
  profile_default : AutonomyProfile → PolicyEffect → Reason
  empty_command : Reason
  executable_denied executable_not_listed executable_allowed : (name : String) → Reason

pub record Evaluation : Type 0 where
  pub effect : PolicyEffect
  pub rule_id : Option String
  pub reason : Reason

abbrev pub dangerous_action_prefixes : List String
dangerous_action_prefixes =
    "git.push_force" ∷ "git.merge_protected" ∷ "fs.delete_outside_worktree" ∷ "deploy.production"
    ∷ "infra.provision_paid" ∷ "secret.read" ∷ "policy.override" ∷ "worker.revoke" ∷ []

unfoldable pub is_dangerous : String → Bool
unfolding any
is_dangerous action =
    any (λ p. action === p || starts_with action (str_append p ".")) dangerous_action_prefixes

abbrev pub default_effect : AutonomyProfile → PolicyEffect
default_effect supervised = require_approval
default_effect _ = allow

-- `a && b`, where each may throw and `b` is not evaluated when `a` is false.
abbrev pub and_also : Option Bool → Option Bool → Option Bool
and_also none second = none
and_also (some false) second = some false
and_also (some true) second = second

-- How far the loops come: they throw, they find a rule, or they end.
pub data RuleSearch : Type 0 where
  threw no_rule : RuleSearch
  decided : Evaluation → RuleSearch

-- The loop over the policies goes on when no rule of one matches.
abbrev pub or_next : RuleSearch → RuleSearch → RuleSearch
or_next threw rest = threw
or_next no_rule rest = rest
or_next (decided found) rest = decided found

module _ (reg_exp : String → Option (String → Bool)) where
  unfoldable pub matches : (action resource : String) → PolicyRule → Option Bool
  unfolding glob_match
  matches action resource rule =
      and_also (glob_match reg_exp rule.action action) (glob_match reg_exp rule.resource resource)

  abbrev pub by_rule : Policy → PolicyRule → Evaluation
  by_rule policy rule = record {
    effect = rule.effect;
    rule_id = some rule.id;
    reason =
        if rule.description === ""
        then matched_rule rule.id policy.name
        else described rule.description;
  }

  -- The inner loop.
  unfoldable pub evaluate_rules : Policy → List PolicyRule → (action resource : String) → RuleSearch
  unfolding matches
  evaluate_rules policy [] action resource = no_rule
  evaluate_rules policy (rule ∷ rules) action resource =
      let rest = evaluate_rules policy rules action resource in
      elim (matches action resource rule) [
        | none ↦ threw
        | some hit ↦ if hit then decided (by_rule policy rule) else rest
      ]

  unfoldable pub evaluate_policies : List Policy → (action resource : String) → RuleSearch
  unfolding evaluate_rules
  evaluate_policies [] action resource = no_rule
  evaluate_policies (policy ∷ policies) action resource =
      or_next (evaluate_rules policy policy.rules action resource)
        (evaluate_policies policies action resource)

  -- `none` where the source throws.
  unfoldable pub evaluate :
      List Policy → (action resource : String) → AutonomyProfile → Option Evaluation
  unfolding evaluate_policies is_dangerous
  evaluate policies action resource profile = elim (evaluate_policies policies action resource) [
    | threw ↦ none
    | decided found ↦ some found
    | no_rule ↦
        if is_dangerous action
        then some (record {
          effect = require_approval;
          rule_id = none;
          reason = dangerous_by_default action;
        })
        else some (record {
          effect = default_effect profile;
          rule_id = none;
          reason = profile_default profile (default_effect profile);
        })
  ]

pub record CommandPolicy : Type 0 where
  pub allowed_executables : List String
  pub denied_executables : List String

-- `exe.split("/").pop()`, with what was read since the last slash; the code of `/` is 47.
unfoldable pub last_segment : (current : String) → String → String
last_segment current end = current
last_segment current (char_then c rest) =
    let inside = last_segment (str_append current (char_then c end)) rest in
    let after_slash = last_segment "" rest in if nat_eqb (code c) 47 then after_slash else inside

abbrev pub judged : PolicyEffect → Reason → Evaluation
judged effect reason = record { effect = effect; rule_id = none; reason = reason }

unfoldable pub is_command_allowed : CommandPolicy → (argv : List String) → Evaluation
unfolding last_segment includes
is_command_allowed policy [] = judged deny empty_command
is_command_allowed policy (exe ∷ _) =
    let name = last_segment "" exe in
    if exe === ""
    then judged deny empty_command
    else if includes policy.denied_executables name
    then judged deny (executable_denied name)
    else if not (includes policy.allowed_executables name)
    then judged deny (executable_not_listed name)
    else judged allow (executable_allowed name)
