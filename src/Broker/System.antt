-- ===== src/Broker/System.antt =====
-- The broker among its callers: requests, lookups, decisions and executions in any order, where an
-- adapter answers at any later time, or never, and other calls come in between.
pub mod Flights
pub mod Reachable
use bm_agents_world.Common.{String, ◌≡◌, Option, none, List, [], ◌∷◌, ◌++◌}
use bm_agents_world.Json.{Json}
use bm_agents_world.Capability.{ExecutionContext, CapabilityDefinition, CapabilityAction}
use bm_agents_world.Capability.Store.{CapabilityStore}
use bm_agents_world.Capability.Grants.{CapabilityGrantRegistry}
use bm_agents_world.Broker.State.{Host, Broker, make_broker, get_action, ask}
use bm_agents_world.Broker.Outcome.{returns, throws, BrokerError}
use bm_agents_world.Broker.Request.{request_action}
use bm_agents_world.Broker.Decide.{Decision, decide_action}
use bm_agents_world.Broker.Execute.{Execution, AdapterOutcome, begin_execution, settle_execution}

-- `flying` are the calls of adapters that have not come back.
pub record System (S : Type 0) : Type 0 where
  pub broker : Broker S
  pub flying : List Execution

module _ (host : Host) (db : CapabilityStore) where
  pub data Step (s t : System db.State) : Type 0 where
    requests :
        (k : String) (c : ExecutionContext) (payload : Json)
        → t.broker ≡ (request_action host db s.broker k c payload).1
        → t.flying ≡ s.flying
        → Step s t
    looks :
        (k : String) → t.broker ≡ (get_action host db s.broker k).1 → t.flying ≡ s.flying → Step s t
    decides :
        (k : String) (d : Decision) (by : String) (reason : Option String)
        → t.broker ≡ (decide_action host db s.broker k d by reason).1
        → t.flying ≡ s.flying
        → Step s t
    begins :
        (k : String) (e : Execution)
        → (begin_execution host db s.broker k).0 ≡ returns e
        → t.broker ≡ (begin_execution host db s.broker k).1
        → t.flying ≡ e ∷ s.flying
        → Step s t
    refuses :
        (k : String) (error : BrokerError)
        → (begin_execution host db s.broker k).0 ≡ throws error
        → t.broker ≡ (begin_execution host db s.broker k).1
        → t.flying ≡ s.flying
        → Step s t
    settles :
        (before after : List Execution) (e : Execution) (r : AdapterOutcome)
        → s.flying ≡ before ++ e ∷ after
        → t.broker ≡ (settle_execution host db s.broker e r).1
        → t.flying ≡ before ++ after
        → Step s t

  -- A broker starts with no actions, and on a store that holds none.
  pub data Reach : System db.State → Type 0 where
    start :
        {s : System db.State} (definitions : List CapabilityDefinition) (adapters : List String)
        (store : Option db.State) (grants : Option CapabilityGrantRegistry)
        → ((k : String) → ask store (db.get_action k) ≡ none)
        → s.broker ≡ make_broker definitions adapters store grants
        → s.flying ≡ []
        → Reach s
    later : {s t : System db.State} → Reach s → Step s t → Reach t
