-- ===== src/Policy.antt =====
-- src/systeme_local_gateway/policy.py: the capabilities that a policy declares. The YAML reader and
-- the limits of the sandbox are not modelled; `default` has the one value `deny`.
use systeme_local.Prelude.{
  String, Bool, true, false, not, ◌&&◌, Option, none, some, List, [], ◌∷◌, str_eq, if◌then◌else◌,
}

pub data Decision : Type 0 where
  allow deny require_approval : Decision

pub record CapabilityConfig : Type 0 where
  pub decision : Decision
  pub allowed_commands : List (List String)

-- `config` is `{}` where the capability is not declared.
pub record PolicyDecision : Type 0 where
  pub decision : Decision
  pub reason : String
  pub config : Option CapabilityConfig

-- The keys of `capabilities` are distinct.
pub record PolicyEngine : Type 0 where
  pub capabilities : List (String × CapabilityConfig)

abbrev decision_reason : Decision → String
decision_reason allow = "policy decision: allow"
decision_reason deny = "policy decision: deny"
decision_reason require_approval = "policy decision: require_approval"

abbrev pub declared : String → List (String × CapabilityConfig) → Option CapabilityConfig
declared capability [] = none
declared capability ((name, config) ∷ rest) =
    if str_eq name capability then some config else declared capability rest

abbrev decide : Option CapabilityConfig → PolicyDecision
decide none = record { decision = deny; reason = "capability not declared"; config = none }
decide (some config) = record {
  decision = config.decision;
  reason = decision_reason config.decision;
  config = some config;
}

unfoldable pub evaluate : PolicyEngine → String → PolicyDecision
evaluate policy capability = decide (declared capability policy.capabilities)

abbrev all_nonempty : List String → Bool
all_nonempty [] = true
all_nonempty (part ∷ parts) = not (str_eq part "") && all_nonempty parts

abbrev valid_command : List String → Bool
valid_command [] = false
valid_command command = all_nonempty command

-- `validate_commands`: every allowed command is a non-empty list of non-empty texts
pub valid_commands : List (List String) → Bool
valid_commands [] = true
valid_commands (command ∷ commands) = valid_command command && valid_commands commands
