-- ===== src/Broker/Expiry.antt =====
-- Approvals that come too late.
use bm_agents_world.Common.{ℕ, suc, ◌≤◌, String, ◌≡◌, refl, Option, some, arith}
use bm_agents_world.Capability.{CapabilityAction, ActionStatus, ApprovalContract, ApprovalStatus}
use bm_agents_world.Capability.Store.{CapabilityStore}
use bm_agents_world.Broker.State.{Host, Broker, peek, get_action, refresh, expire}
use bm_agents_world.Broker.Outcome.{throws, cannot_execute, already_decided}
use bm_agents_world.Broker.Decide.{Decision, decide_action, decide_loaded}
use bm_agents_world.Broker.Execute.{begin_execution, begin_loaded}

module _ (host : Host) (db : CapabilityStore) where
  reads-refresh : (b : Broker db.State) (k : String) → (refresh host db b k).reads ≡ b.reads
  reads-refresh b k = unfold refresh in ground arith

  -- What a lookup does at an approval that has lapsed.
  lapsed_action :
      (b : Broker db.State) (k : String) (a : CapabilityAction) (p : ApprovalContract)
      → peek host db b k ≡ some a
      → a.approval ≡ some p
      → p.status ≡ ApprovalStatus.pending
      → ((n : ℕ) → b.reads ≤ n → p.expires_at ≤ host.now n)
      → (t : ℕ) × ((get_action host db b k).0 ≡ some (expire a t))
  lapsed_action b k a p e held waiting late = (
    host.now (suc (refresh host db b k).reads),
    unfold get_action in
        rw (e, get_action) (ground (arith, late (refresh host db b k).reads, reads-refresh b k)),
  )

  decide_expired :
      (b : Broker db.State) (a : CapabilityAction) (p : ApprovalContract) (t : ℕ) (d : Decision)
      (by : String) (reason : Option String)
      → a.approval ≡ some p
      → (decide_loaded host db b (some (expire a t)) d by reason).0
        ≡ throws (already_decided ApprovalStatus.expired)
  unfolding decide_loaded
  decide_expired b a p t d by reason held = rw held refl

  -- Once the clock has reached the expiry of a pending approval: a decision throws `already
  -- expired`, and an execution throws that the action cannot be executed from the status rejected.
  pub decide_action_expired :
      (b : Broker db.State) (k : String) (a : CapabilityAction) (p : ApprovalContract)
      (d : Decision) (by : String) (reason : Option String)
      → peek host db b k ≡ some a
      → a.approval ≡ some p
      → p.status ≡ ApprovalStatus.pending
      → ((n : ℕ) → b.reads ≤ n → p.expires_at ≤ host.now n)
      → ((decide_action host db b k d by reason).0
          ≡ throws (already_decided ApprovalStatus.expired))
        × ((begin_execution host db b k).0 ≡ throws (cannot_execute a.id ActionStatus.rejected))
  decide_action_expired b k a p d by reason e held waiting late =
      let (t, found) = lapsed_action b k a p e held waiting late in
      (
        unfold decide_action in rw found (decide_expired _ a p t d by reason held),
        unfold begin_execution in rw found (unfold begin_loaded in refl),
      )
