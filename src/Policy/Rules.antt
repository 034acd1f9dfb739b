-- ===== src/Policy/Rules.antt =====
-- packages/policy/src/engine.ts: the first rule that matches decides, unless one before it throws.
use avity_os.Base.{
  String, Bool, true, false, ◌≡◌, ◌⊎◌, inl, inr, List, [], ◌∷◌, ◌++◌, Option, none, some,
  if◌then◌else◌, refl, ap, sym, subst, ◌∙◌, arith, Bool-cases, All, map,
}
use avity_os.Policy.{
  allow, require_approval, AutonomyProfile, supervised, PolicyRule, Policy, Evaluation,
  is_dangerous, matches, by_rule, evaluate_rules, evaluate_policies, default_effect, evaluate,
  RuleSearch, threw, no_rule, decided, or_next, dangerous_by_default, profile_default,
}

-- The rules in the order in which they are tried, each with its policy.
unfoldable pub tried : List Policy → List (Policy × PolicyRule)
tried [] = []
tried (policy ∷ policies) = map (λ rule. (policy, rule)) policy.rules ++ tried policies

default_not_allow :
    (action : String) (profile : AutonomyProfile)
    → (is_dangerous action ≡ true) ⊎ (profile ≡ supervised)
    → (if is_dangerous action then require_approval else default_effect profile) ≡ allow
    → ⊥
default_not_allow action supervised guarded h = ground (arith, guarded, h)
default_not_allow action profile guarded h = ground (arith, guarded, h)

outcome_cases : (o : Option Bool) → (o ≡ none) ⊎ (o ≡ some true) ⊎ (o ≡ some false)
outcome_cases none = inl refl
outcome_cases (some true) = inr (inl refl)
outcome_cases (some false) = inr (inr refl)

same_value : {a b : Evaluation} → some a ≡ some b → a ≡ b
same_value h = cc

no_value : {a : Evaluation} → none ≡ some a → ⊥
no_value h = cc

module _ (reg_exp : String → Option (String → Bool)) where
  -- No rule of these matches, and none throws.
  abbrev pub Passed : (action resource : String) → List (Policy × PolicyRule) → Type 0
  Passed action resource rules =
      All (λ entry. matches reg_exp action resource entry.1 ≡ some false) rules

  -- A rule at which the loops stop, with the rules that were tried before it, all in vain.
  pub record StopsAt (action resource : String) (rules : List (Policy × PolicyRule))
      (outcome : Option Bool) : Type 0 where
    pub before : List (Policy × PolicyRule)
    pub policy : Policy
    pub rule : PolicyRule
    pub later : List (Policy × PolicyRule)
    pub in_order : rules ≡ before ++ (policy, rule) ∷ later
    pub none_before : Passed action resource before
    pub stops : matches reg_exp action resource rule ≡ outcome

  -- The rule that decides.
  pub record Decider (action resource : String) (rules : List (Policy × PolicyRule))
      (decision : Evaluation) : Type 0 where
    pub place : StopsAt action resource rules (some true)
    pub decides : decision ≡ by_rule reg_exp place.policy place.rule

  -- The same search on one list.
  first_of : (action resource : String) → List (Policy × PolicyRule) → RuleSearch
  first_of action resource [] = no_rule
  first_of action resource ((policy, rule) ∷ rules) =
      let rest = first_of action resource rules in
      elim (matches reg_exp action resource rule) [
        | none ↦ threw
        | some hit ↦ if hit then decided (by_rule reg_exp policy rule) else rest
      ]

  evaluate_rules-first_of :
      (action resource : String) (policy : Policy) (rules : List PolicyRule)
      (rest : List (Policy × PolicyRule))
      → first_of action resource (map (λ rule. (policy, rule)) rules ++ rest)
        ≡ or_next
            (evaluate_rules reg_exp policy rules action resource)
            (first_of action resource rest)
  unfolding evaluate_rules first_of
  evaluate_rules-first_of action resource policy [] rest = refl
  evaluate_rules-first_of action resource policy (rule ∷ rules) rest =
      elim (outcome_cases (matches reg_exp action resource rule)) [
        | inl throws ↦ rw (throws, first_of, evaluate_rules) refl
        | inr (inl fits) ↦ rw (fits, first_of, evaluate_rules) refl
        | inr (inr passed) ↦
            rw (passed, first_of, evaluate_rules)
              (evaluate_rules-first_of action resource policy rules rest)
      ]

  evaluate_policies-first_of :
      (policies : List Policy) (action resource : String)
      → evaluate_policies reg_exp policies action resource
        ≡ first_of action resource (tried policies)
  unfolding evaluate_policies tried first_of
  evaluate_policies-first_of [] action resource = refl
  evaluate_policies-first_of (policy ∷ policies) action resource =
      rw (evaluate_rules-first_of action resource policy policy.rules (tried policies)) (
        ap (or_next (evaluate_rules reg_exp policy policy.rules action resource))
          (evaluate_policies-first_of policies action resource))

  stops_later :
      (action resource : String) (entry : Policy × PolicyRule) (rules : List (Policy × PolicyRule))
      (outcome : Option Bool)
      → matches reg_exp action resource entry.1 ≡ some false
      → StopsAt action resource rules outcome
      → StopsAt action resource (entry ∷ rules) outcome
  stops_later action resource entry rules outcome passed place = record {
    before = entry ∷ place.before;
    policy = place.policy;
    rule = place.rule;
    later = place.later;
    in_order = ap (λ rest. entry ∷ rest) place.in_order;
    none_before = (passed, place.none_before);
    stops = place.stops;
  }

  first_of-cases :
      (action resource : String) (rules : List (Policy × PolicyRule))
      → ((decision : Evaluation) × (first_of action resource rules ≡ decided decision)
          × Decider action resource rules decision)
        ⊎ (StopsAt action resource rules none × (first_of action resource rules ≡ threw))
        ⊎ (Passed action resource rules × (first_of action resource rules ≡ no_rule))
  unfolding first_of stops_later
  first_of-cases action resource [] = inr (inr (tt, refl))
  first_of-cases action resource ((policy, rule) ∷ rules) =
      elim (outcome_cases (matches reg_exp action resource rule)) [
        | inl throws ↦ inr (inl (stops_here none throws, rw (throws, first_of) refl))
        | inr (inl fits) ↦ inl (
          by_rule reg_exp policy rule,
          rw (fits, first_of) refl,
          record { place = stops_here (some true) fits; decides = refl },
        )
        | inr (inr passed) ↦ elim (first_of-cases action resource rules) [
          | inl (decision, found, d) ↦ inl (
            decision,
            rw (passed, first_of) found,
            record {
              place = stops_later action resource (policy, rule) rules (some true) passed d.place;
              decides = d.decides;
            },
          )
          | inr (inl (place, thrown)) ↦ inr (
              inl (
                stops_later action resource (policy, rule) rules none passed place,
                rw (passed, first_of) thrown,
              ))
          | inr (inr (all_passed, nothing)) ↦
              inr (inr ((passed, all_passed), rw (passed, first_of) nothing))
        ]
      ]
    where
      stops_here :
          (outcome : Option Bool)
          → matches reg_exp action resource rule ≡ outcome
          → StopsAt action resource ((policy, rule) ∷ rules) outcome
      stops_here outcome h = record {
        before = [];
        policy = policy;
        rule = rule;
        later = rules;
        in_order = refl;
        none_before = tt;
        stops = h;
      }

  pub evaluate_first :
      (policies : List Policy) (action resource : String) (profile : AutonomyProfile)
      → ((decision : Evaluation) × (evaluate reg_exp policies action resource profile
            ≡ some decision)
          × Decider action resource (tried policies) decision)
        ⊎ (StopsAt action resource (tried policies) none
            × (evaluate reg_exp policies action resource profile ≡ none))
        ⊎ (Passed action resource (tried policies)
            × ((decision : Evaluation) × (evaluate reg_exp policies action resource profile
                  ≡ some decision)
                × (decision.rule_id ≡ none)
                × (decision.effect
                    ≡ (if is_dangerous action then require_approval else default_effect profile))))
  unfolding evaluate
  evaluate_first policies action resource profile =
      let same = evaluate_policies-first_of policies action resource in
      elim (first_of-cases action resource (tried policies)) [
        | inl (decision, found, decider) ↦ inl (decision, rw (evaluate, same, found) refl, decider)
        | inr (inl (place, thrown)) ↦ inr (inl (place, rw (evaluate, same, thrown) refl))
        | inr (inr (passed, nothing)) ↦ inr (
            inr (
              passed,
              elim (Bool-cases (is_dangerous action)) [
                | inl dangerous ↦ (
                  record {
                    effect = require_approval;
                    rule_id = none;
                    reason = dangerous_by_default action;
                  },
                  rw (evaluate, same, nothing, dangerous) refl,
                  refl,
                  rw dangerous refl,
                )
                | inr ordinary ↦ (
                  record {
                    effect = default_effect profile;
                    rule_id = none;
                    reason = profile_default profile (default_effect profile);
                  },
                  rw (evaluate, same, nothing, ordinary) refl,
                  refl,
                  rw ordinary refl,
                )
              ],
            ))
      ]

  -- A dangerous action, or any action under the supervised profile, is allowed only by a rule
  -- that matches it, allows it, and is the first to match; the rules before it do not throw.
  pub allow_by_rule :
      (policies : List Policy) (action resource : String) (profile : AutonomyProfile)
      (decision : Evaluation)
      → (is_dangerous action ≡ true) ⊎ (profile ≡ supervised)
      → evaluate reg_exp policies action resource profile ≡ some decision
      → decision.effect ≡ allow
      → ((decider : Decider action resource (tried policies) decision) × (decider.place.rule.effect
            ≡ allow))
  allow_by_rule policies action resource profile decision guarded returned allowed =
      elim (evaluate_first policies action resource profile) [
        | inl (found, same, decider) ↦
            let equal = same_value (sym same ∙ returned) in
            let ours = subst (Decider action resource (tried policies)) equal decider in
            (ours, ap (λ e. e.effect) (sym ours.decides) ∙ allowed)
        | inr (inl (_, thrown)) ↦ absurd (no_value (sym thrown ∙ returned))
        | inr (inr (_, (found, same, _, by_default))) ↦ absurd (
            default_not_allow action profile guarded
              (sym by_default ∙ ap (λ e. e.effect) (same_value (sym same ∙ returned)) ∙ allowed))
      ]
