-- ===== src/TrafficSpecialization/Remains.antt =====
-- What the destructor of a specialization leaves behind.
use tu_thesis.XTables.Chain.Kept as ChainKept
use tu_thesis.Base.{
  ℕ, ◌<◌, ◌≡◌, ◌≢◌, refl, Option, some, Option-cases, inl, inr, List, [], ◌∷◌, arith,
}
use tu_thesis.Text.Bytes.{Bytes}
use tu_thesis.Exec.{Exec}
use tu_thesis.Exec.Preserves.{Preserves, bind-Preserves, pure-Preserves}
use tu_thesis.Exec.Leads.{Leads, bind-Leads, of_Preserves}
use tu_thesis.Shared
use tu_thesis.Shared.{Heap, Cell, release, object_at}
use tu_thesis.World.{World, Chain, Route, TrafficSpecialization}
use tu_thesis.System.{call_only}
use tu_thesis.Route.{delete_route}
use tu_thesis.Route.Commands.{delete_route_lem}
use tu_thesis.RouteRule.{delete_route_rule}
use tu_thesis.IpSet.{delete_ipset}
use tu_thesis.NetworkFactory.{release_route, release_rule, release_ipset}
use tu_thesis.XTables.Chain.{delete_last, release_chain}
use tu_thesis.TrafficSpecialization.{release_routes, delete_specialization}

module _ (Q : Heap Chain → Type 0) where
  -- A step that leaves what is said of the chains true.
  abbrev Keeps : {A : Type 0} → Exec World A → Type 0
  Keeps m = Preserves (λ w. Q w.chains) m

  call_only-Keeps : (cmd : Bytes) → Keeps (call_only cmd)
  unfolding call_only
  call_only-Keeps cmd = record { holds = λ w q. q }

  delete_route-Keeps : (r : Route) → Keeps (delete_route r)
  delete_route-Keeps r = record { holds = λ w q. rw (delete_route_lem r w) q }

  release_route-Keeps : (p : ℕ) → Keeps (release_route p)
  unfolding release_route
  release_route-Keeps p = record {
    holds = λ w q. elim (Option-cases (Shared.release p w.route_objects).0) [
      | inl kept ↦ rw (kept, release_route) q
      | inr (r, last) ↦
          rw (last, release_route)
            ((delete_route-Keeps r).holds
              (record w { route_objects = (Shared.release p w.route_objects).1 }) q)
    ];
  }

  release_ipset-Keeps : (p : ℕ) → Keeps (release_ipset p)
  unfolding release_ipset delete_ipset call_only
  release_ipset-Keeps p = record {
    holds = λ w q. elim (Option-cases (Shared.release p w.ipset_objects).0) [
      | inl kept ↦ rw (kept, release_ipset) q
      | inr (set, last) ↦ rw (last, release_ipset) q
    ];
  }

  release_rule-Keeps : (p : ℕ) → Keeps (release_rule p)
  unfolding release_rule delete_route_rule call_only
  release_rule-Keeps p = record {
    holds = λ w q. elim (Option-cases (Shared.release p w.rule_objects).0) [
      | inl kept ↦ rw (kept, release_rule) q
      | inr (r, last) ↦ rw (last, release_rule) q
    ];
  }

  release_routes-Keeps : (ps : List ℕ) → Keeps (release_routes ps)
  unfolding release_routes
  release_routes-Keeps [] = pure-Preserves _
  release_routes-Keeps (p ∷ ps) =
      bind-Preserves _ _ (release_route-Keeps p) (λ _. release_routes-Keeps ps)

  delete_last-Keeps : (o : Option Chain) → Keeps (delete_last o)
  delete_last-Keeps = ChainKept.delete_last-Keeps (λ r. Q r.chains)

-- The pointer to a chain that goes away changes the heap of the chains, and nothing else does.
release_chain-Leads :
    (Q R : Heap Chain → Type 0) (p : ℕ)
    → ((h : Heap Chain) → Q h → R (Shared.release p h).1)
    → Leads (λ w. Q w.chains) (λ w. R w.chains) (release_chain p)
unfolding release_chain
release_chain-Leads Q R p step = record {
  holds = λ w q.
      (delete_last-Keeps R (Shared.release p w.chains).0).holds
        (record w { chains = (Shared.release p w.chains).1 }) (step w.chains q);
}

release_other :
    (p q : ℕ) (c : Cell Chain) (h : Heap Chain)
    → p ≢ q
    → h.cell q ≡ some c
    → (Shared.release p h).1.cell q ≡ some c
unfolding Shared.release
release_other p q c h other live = ground arith

release_held :
    (q : ℕ) (c : Cell Chain) (h : Heap Chain)
    → 1 < c.uses
    → h.cell q ≡ some c
    → object_at q (Shared.release q h).1 ≡ some c.object
unfolding Shared.release object_at
release_held q c h held live = ground (arith, live)

object_of_cell :
    (q : ℕ) (c : Cell Chain) (h : Heap Chain) → h.cell q ≡ some c → object_at q h ≡ some c.object
unfolding object_at
object_of_cell q c h live = rw live refl

-- While another specialization, or anybody else, holds the PREROUTING chain, the destructor leaves the
-- chain as it is, with the rule that marks the traffic of the destroyed specialization.
pub delete_specialization_remains :
    (t : TrafficSpecialization) (w : World) (c : Cell Chain)
    → w.chains.cell t.mangle_prerouting_chain ≡ some c
    → 1 < c.uses
    → t.mangle_output_chain ≢ t.mangle_prerouting_chain
    → object_at t.mangle_prerouting_chain (delete_specialization t w).1.chains ≡ some c.object
unfolding delete_specialization
delete_specialization_remains t w c live held other =
    let q = t.mangle_prerouting_chain in
    let Held : Heap Chain → Type 0 = λ h. h.cell q ≡ some c in
    let Stays : Heap Chain → Type 0 = λ h. object_at q h ≡ some c.object in
    (bind-Leads _ _
        (release_chain-Leads Held Held t.mangle_output_chain
          (λ h e. release_other t.mangle_output_chain q c h other e))
        (λ _.
          bind-Leads _ _ (release_chain-Leads Held Stays q (λ h e. release_held q c h held e))
            (λ _. of_Preserves _ (
              bind-Preserves _ _ (release_ipset-Keeps Stays t.ipset) (λ _.
                bind-Preserves _ _ (release_routes-Keeps Stays t.routes)
                  (λ _. release_rule-Keeps Stays t.route_rule))))
            (λ s e. e))
        (λ s e. object_of_cell q c s.chains e)).holds
      w live
