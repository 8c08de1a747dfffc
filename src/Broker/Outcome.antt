-- ===== src/Broker/Outcome.antt =====
-- What a method of the broker comes to: its value, or the exception that it throws, one
-- constructor for each `throw`, with the values that its message names.
use bm_agents_world.Common.{String}
use bm_agents_world.Capability.{ActionStatus, ApprovalStatus}

pub data BrokerError : Type 0 where
  unknown_capability : String → BrokerError
  action_not_found : BrokerError
  needs_no_approval : BrokerError
  already_decided : ApprovalStatus → BrokerError
  hash_mismatch : BrokerError
  cannot_execute : String → ActionStatus → BrokerError
  payload_changed : BrokerError
  not_registered : String → BrokerError
  no_adapter : String → BrokerError
  policy_denied : String → BrokerError
  policy_changed : BrokerError

pub data Outcome {ℓ} (A : Type ℓ) : Type ℓ where
  returns : A → Outcome A
  throws : BrokerError → Outcome A
