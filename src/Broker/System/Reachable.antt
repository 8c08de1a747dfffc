-- ===== src/Broker/System/Reachable.antt =====
-- Every reachable state satisfies the invariant, and holds its executions in flight.
use bm_agents_world.Common.{
  String, false, ◌≡◌, ◌≢◌, refl, sym, ◌∙◌, subst, Option, none, some, List, [], ◌∷◌, ◌++◌, All,
}
use bm_agents_world.Common.Dict.{get}
use bm_agents_world.Capability.{CapabilityAction, CapabilityDefinition}
use bm_agents_world.Capability.Store.{CapabilityStore}
use bm_agents_world.Capability.Grants.{CapabilityGrantRegistry}
use bm_agents_world.Broker.State.{Host, Broker, peek, make_broker, get_action, ask}
use bm_agents_world.Broker.Execute.{Execution, AdapterOutcome, settle_execution, begin_execution}
use bm_agents_world.Broker.Effects.{executions}
use bm_agents_world.Broker.Soundness.{Inv, Progress}
use bm_agents_world.Broker.Lookup.{get_action-Found}
use bm_agents_world.Broker.Preserved.{
  decide_action-Progress, begin_execution-Progress, settle_execution-Progress,
}
use bm_agents_world.Broker.Requested.{DrawsApart, request_action-Progress}
use bm_agents_world.Broker.System.{
  System, Step, requests, looks, decides, begins, refuses, settles, Reach, start, later,
}
use bm_agents_world.Broker.System.Flights.{
  InFlight, InFlight-stays, Begun, Begun-apart, begin_execution-Begun, settle_InFlight,
}

-- No two of the executions are of one action.
abbrev pub ApartFrom : String → List Execution → Type 0
ApartFrom k = All (λ f. f.action.id ≢ k)

abbrev pub AreApart : List Execution → Type 0
AreApart [] = Unit {0}
AreApart (e ∷ es) = ApartFrom e.action.id es × AreApart es

module _ (host : Host) (db : CapabilityStore) where
  pub record Good (s : System db.State) : Type 0 where
    pub inv : Inv host db s.broker
    pub flights : All (InFlight host db s.broker) s.flying
    pub apart : AreApart s.flying

  All-stays :
      {b b' : Broker db.State} (es : List Execution)
      → Progress host db false b b'
      → All (InFlight host db b) es
      → All (InFlight host db b') es
  All-stays [] p h = tt
  All-stays (e ∷ es) p (x, h) = (InFlight-stays host db p x, All-stays es p h)

  -- A step that leaves the executions in flight.
  quiet :
      {s t : System db.State} {b' : Broker db.State}
      → Good s
      → Progress host db false s.broker b'
      → t.broker ≡ b'
      → t.flying ≡ s.flying
      → Good t
  quiet {s} {t} g p same flying = record {
    inv = rw same p.inv;
    flights = rw (same, flying) (All-stays s.flying p g.flights);
    apart = rw flying g.apart;
  }

  All-apart :
      {b b' : Broker db.State} {e : Execution} (es : List Execution)
      → Begun host db b e b'
      → All (InFlight host db b) es
      → ApartFrom e.action.id es
  All-apart [] g h = tt
  All-apart (f ∷ es) g (x, h) = (Begun-apart host db g x, All-apart es g h)

  -- What is left when one execution of a list ends.
  pub remove_flights :
      (b : Broker db.State) (e : Execution) (r : AdapterOutcome) (before after : List Execution)
      → All (InFlight host db b) (before ++ e ∷ after)
      → AreApart (before ++ e ∷ after)
      → All (InFlight host db (settle_execution host db b e r).1) (before ++ after)
        × AreApart (before ++ after)
        × InFlight host db b e
  remove_flights b e r [] after (x, h) (a, d) = (others after h a, d, x)
    where
      others :
          (es : List Execution)
          → All (InFlight host db b) es
          → ApartFrom e.action.id es
          → All (InFlight host db (settle_execution host db b e r).1) es
      others [] h a = tt
      others (f ∷ es) (x, h) (n, a) =
          (settle_InFlight host db b e f r x (λ q. n (sym q)), others es h a)
  remove_flights b e r (f ∷ before) after (x, h) (a, d) =
      let (flights, apart, flight) = remove_flights b e r before after h d in
      let (n, rest) = split before a in
      ((settle_InFlight host db b e f r x n, flights), (rest, apart), flight)
    where
      split :
          (xs : List Execution)
          → ApartFrom f.action.id (xs ++ e ∷ after)
          → (e.action.id ≢ f.action.id) × ApartFrom f.action.id (xs ++ after)
      split [] (n, a) = (n, a)
      split (y ∷ xs) (n, a) = let (m, rest) = split xs a in (m, (n, rest))

  module _ (unique : DrawsApart host) where
    pub Step-Good : {s t : System db.State} → Step host db s t → Good s → Good t
    Step-Good {s} (requests k c payload same flying) g =
        quiet g (request_action-Progress host db unique s.broker k c payload g.inv) same flying
    Step-Good {s} (looks k same flying) g =
        quiet g (get_action-Found host db s.broker k g.inv).progress same flying
    Step-Good {s} (decides k d by reason same flying) g =
        quiet g (decide_action-Progress host db s.broker k d by reason g.inv) same flying
    Step-Good {s} (refuses k error _ same flying) g =
        quiet g (begin_execution-Progress host db s.broker k g.inv) same flying
    Step-Good {s} {t} (begins k e result same flying) g = record {
      inv = rw same p.inv;
      flights = rw (same, flying) (begun.flight, All-stays s.flying p g.flights);
      apart = rw flying (
        All-apart s.flying begun
            (All-stays s.flying (get_action-Found host db s.broker k g.inv).progress g.flights),
        g.apart,
      );
    }
      where
        p : Progress host db false s.broker (begin_execution host db s.broker k).1
        p = begin_execution-Progress host db s.broker k g.inv

        begun :
            Begun host db (get_action host db s.broker k).1 e (begin_execution host db s.broker k).1
        begun = begin_execution-Begun host db s.broker k e g.inv result
    Step-Good {s} {t} (settles before after e r flew same flying) g =
        let (flights, apart, flight) =
          remove_flights s.broker e r before after
            (subst (All (InFlight host db s.broker)) flew g.flights)
            (subst AreApart flew g.apart) in
        record {
          inv =
              rw same
                (settle_execution-Progress host db s.broker e r g.inv flight.stored
                  flight.running).inv;
          flights = rw (same, flying) flights;
          apart = rw flying apart;
        }

    start-Good :
        {s : System db.State} (definitions : List CapabilityDefinition) (adapters : List String)
        (store : Option db.State) (grants : Option CapabilityGrantRegistry)
        → ((k : String) → ask store (db.get_action k) ≡ none)
        → s.broker ≡ make_broker definitions adapters store grants
        → s.flying ≡ []
        → Good s
    start-Good definitions adapters store grants empty same flying = record {
      inv = rw same (record {
        known = λ k a e. absurd (clash (sym (nothing k) ∙ e));
        unknown = λ k e. none_yet k;
        fresh = λ n h. nothing (host.uuid n);
      });
      flights = rw flying tt;
      apart = rw flying tt;
    }
      where
        clash : {a : CapabilityAction} → none ≡ some a → ⊥
        clash h = cc

        nothing :
            (k : String) → peek host db (make_broker definitions adapters store grants) k ≡ none
        nothing k = unfold peek make_broker get in rw (empty k)

        none_yet :
            (k : String)
            → executions k (make_broker definitions adapters store grants).audit_events ≡ 0
        none_yet k = unfold executions make_broker in refl

    pub Reach-Good : {s : System db.State} → Reach host db s → Good s
    Reach-Good (start definitions adapters store grants empty same flying) =
        start-Good definitions adapters store grants empty same flying
    Reach-Good (later r step) = Step-Good step (Reach-Good r)
