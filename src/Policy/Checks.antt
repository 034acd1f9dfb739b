-- ===== src/Policy/Checks.antt =====
-- packages/policy/src/engine.ts: which commands are let through.
use avity_os.Base.{String, true, false, ◌≡◌, ◌⊎◌, ◌↔◌, List, ◌∷◌, ◌===◌, string_eq, includes, arith}
use avity_os.Policy.{allow, deny, CommandPolicy, last_segment, is_command_allowed}

-- A command is allowed exactly when it is not empty and the last part of its executable's path is
-- in the list of the allowed ones and not in that of the denied ones; otherwise it is denied.
command_allowed_iff :
    (policy : CommandPolicy) (exe : String) (arguments : List String)
    → (((is_command_allowed policy (exe ∷ arguments)).effect ≡ allow) ↔ (
        ((exe === "") ≡ false)
        × (includes policy.allowed_executables (last_segment "" exe) ≡ true)
        × (includes policy.denied_executables (last_segment "" exe) ≡ false)))
      × (((is_command_allowed policy (exe ∷ arguments)).effect ≡ allow)
          ⊎ ((is_command_allowed policy (exe ∷ arguments)).effect ≡ deny))
unfolding is_command_allowed
command_allowed_iff policy exe arguments = ground arith
