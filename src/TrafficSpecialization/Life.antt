-- ===== src/TrafficSpecialization/Life.antt =====
-- A specialization gives back all that it takes, also when its constructor fails on the way.
use tu_thesis.Base.{◌≢◌, ℕ, ◌+◌, ◌≡◌, ◌≢◌, subst, refl, [], ◌∷◌, ◌++◌}
use tu_thesis.Base.Int.{pos}
use tu_thesis.Text.Bytes.{Bytes, bytes}
use tu_thesis.Text.Number.{to_string}
use tu_thesis.Map.{bytes_key}
use tu_thesis.Exec.{Outcome, ok, throw, undefined, ◌>>=◌, ◌>>◌}
use tu_thesis.Exec.Preserves.{try-Preserves}
use tu_thesis.Exec.Returns.{Ends, Returns, of_Preserves, bind-Returns, pure-Returns, never_throws}
use tu_thesis.Shared.{Heap, IsWellFormed}
use tu_thesis.Shared.Balance.{Same, Taken, same}
use tu_thesis.World.{World, Route, RouteRule, IpSet, TrafficSpecialization}
use tu_thesis.Untouched.{release_chain-Keeps}
use tu_thesis.EthernetController.{get_gw}
use tu_thesis.XTables.Chain.Release.{release_chain_returns}
use tu_thesis.NetworkFactory.Routes.{release_route_lem}
use tu_thesis.NetworkFactory.{get_interface, release_route, release_rule, release_ipset}
use tu_thesis.TrafficSpecialization.{
  marking_rule, next_mark, new_specialization, release_routes, delete_specialization,
}
use tu_thesis.TrafficSpecialization.Owned.{
  Heaps, On, get_route_rule-Returns, release_rule-Returns, get_ipset-Returns, release_ipset_returns,
  release_ipset-Returns, add_route-Returns, release_route-Returns,
}
use tu_thesis.TrafficSpecialization.Unwinding.{
  unwinding-Returns, next_mark-Keeps, set_up_chains-Keeps, unknown_interface-Keeps,
  get_interface-Keeps,
}

module _ (routes : Heap Route) (rules : Heap RouteRule) (sets : Heap IpSet)
    (vr : IsWellFormed routes) (vu : IsWellFormed rules) (vs : IsWellFormed sets) where
  -- Nothing but what was there.
  abbrev pub Restored : World → Type 0
  Restored = On (Heaps (Same routes) (Same rules) (Same sets))

  -- One route, one rule and one set more, which are those of the specialization.
  abbrev Owns : TrafficSpecialization → World → Type 0
  Owns t w =
      (r : ℕ) × (t.routes ≡ r ∷ [])
      × On (Heaps (Taken routes r) (Taken rules t.route_rule) (Taken sets t.ipset)) w

  -- The set, and then the route.
  release_both :
      (rule set route : ℕ)
      → Returns
          (On (Heaps (Taken routes route) (Taken rules rule) (Taken sets set)))
          (λ _. On (Heaps (Same routes) (Taken rules rule) (Same sets)))
          (On (Heaps (Same routes) (Taken rules rule) (Same sets)))
          (release_ipset set >> release_route route)
  release_both rule set route =
      bind-Returns _ _
        (never_throws _ tt (release_ipset_returns set)
          (release_ipset-Returns (Taken routes route) (Taken rules rule) sets vs set))
        (λ _. release_route-Returns (Taken rules rule) (Same sets) routes vr route)

  new_specialization-Returns :
      (name : Bytes) → Returns Restored Owns Restored (new_specialization name)
  unfolding new_specialization
  new_specialization-Returns name =
      let Q = Heaps (Same routes) (Same rules) (Same sets) in
      bind-Returns _ _
        (of_Preserves _ (
          try-Preserves (get_interface name) _ (get_interface-Keeps Q name)
            (unknown_interface-Keeps Q name)))
        (λ interface. bind-Returns _ _ (of_Preserves next_mark (next_mark-Keeps Q)) (λ mark.
          bind-Returns _ _
            (get_route_rule-Returns (Same routes) (Same sets) rules vu (100 + mark) (100 + mark)
              (bytes "fwmark " ++ to_string mark))
            (λ rule.
              unwinding-Returns (release_rule rule) _
                (bind-Returns _ _
                  (get_ipset-Returns (Same routes) (Taken rules rule) sets vs
                    (name ++ bytes "_ipset") (bytes "hash:ip"))
                  (λ set.
                    bind-Returns _ _
                      (unwinding-Returns (release_ipset set) _
                        (add_route-Returns (Taken rules rule) (Taken sets set) routes vr
                          (bytes "0.0.0.0/0") (get_gw interface) name (pos 0)
                          (to_string (100 + mark)))
                        (release_ipset-Returns (Same routes) (Taken rules rule) sets vs set))
                      (λ route.
                        bind-Returns _ _
                          (unwinding-Returns (release_ipset set >> release_route route) _
                            (of_Preserves _ (
                              set_up_chains-Keeps
                                (Heaps (Taken routes route) (Taken rules rule) (Taken sets set))
                                (marking_rule (name ++ bytes "_ipset") mark)))
                            (release_both rule set route))
                          (λ chains.
                            pure-Returns
                              (record {
                                route_rule = rule;
                                routes = route ∷ [];
                                ipset = set;
                                mangle_prerouting_chain = chains.0;
                                mangle_output_chain = chains.1;
                              })
                              (λ w q. (route, refl, q))))))
                (release_rule-Returns (Same routes) (Same sets) rules vu rule))))

  delete_owned :
      (t : TrafficSpecialization) (r : ℕ)
      → t.routes ≡ r ∷ []
      → Returns
          (On (Heaps (Taken routes r) (Taken rules t.route_rule) (Taken sets t.ipset)))
          (λ _. Restored)
          Restored
          (delete_specialization t)
  unfolding delete_specialization release_routes
  delete_owned t r e =
      let Q = Heaps (Taken routes r) (Taken rules t.route_rule) (Taken sets t.ipset) in
      bind-Returns _ _
        (never_throws _ tt (release_chain_returns t.mangle_output_chain)
          (of_Preserves _ (release_chain-Keeps Q t.mangle_output_chain)))
        (λ _.
          bind-Returns _ _
            (never_throws _ tt (release_chain_returns t.mangle_prerouting_chain)
              (of_Preserves _ (release_chain-Keeps Q t.mangle_prerouting_chain)))
            (λ _.
              bind-Returns _ _
                (never_throws _ tt (release_ipset_returns t.ipset) (
                  release_ipset-Returns (Taken routes r) (Taken rules t.route_rule) sets vs
                    t.ipset))
                (λ _.
                  bind-Returns (release_routes t.routes) _
                    (rw e (
                      bind-Returns _ _
                        (never_throws _ tt (λ w. (release_route_lem r w).0)
                          (release_route-Returns (Taken rules t.route_rule) (Same sets) routes vr
                            r))
                        (λ _. pure-Returns tt (λ w q. q))))
                    (λ _. release_rule-Returns (Same routes) (Same sets) rules vu t.route_rule))))

  delete_specialization-Returns :
      (t : TrafficSpecialization)
      → Returns (Owns t) (λ _. Restored) Restored (delete_specialization t)
  delete_specialization-Returns t = record { ends = λ w (r, e, q). (delete_owned t r e).ends w q }

restored_ended :
    (T : World → Type 0) (r : Outcome (Unit {0})) (w : World)
    → Ends (λ _. T) T r w
    → r ≢ undefined
    → T w
restored_ended T (ok a) w e defined = e
restored_ended T (throw x) w e defined = e
restored_ended T undefined w e defined = absurd (defined refl)

-- The life of a specialization, whether its constructor throws, wherever that is, or it is destroyed
-- later: if no undefined behaviour was met, the routes, rules and sets that are alive, and the pointers
-- to them, are those of before. The factory knows no route, rule or set.
pub life_restores :
    (name : Bytes) (w w' : World) (r : Outcome (Unit {0}))
    → IsWellFormed w.route_objects
    → IsWellFormed w.rule_objects
    → IsWellFormed w.ipset_objects
    → (w.routes ≡ []) × (w.route_rules ≡ []) × (w.ipsets ≡ [])
    → (new_specialization name >>= delete_specialization) w ≡ (r, w')
    → r ≢ undefined
    → ((q : ℕ) → w'.route_objects.cell q ≡ w.route_objects.cell q)
      × ((q : ℕ) → w'.rule_objects.cell q ≡ w.rule_objects.cell q)
      × ((q : ℕ) → w'.ipset_objects.cell q ≡ w.ipset_objects.cell q)
life_restores name w w' r vr vu vs (x, y, z) ran defined =
    let life =
      (bind-Returns (new_specialization name) delete_specialization
          (new_specialization-Returns w.route_objects w.rule_objects w.ipset_objects vr vu vs name)
          (delete_specialization-Returns w.route_objects w.rule_objects w.ipset_objects vr vu
            vs)).ends
        w (same w.route_objects, same w.rule_objects, same w.ipset_objects, x, y, z) in
    let (a, b, c, _, _, _) =
      restored_ended (Restored w.route_objects w.rule_objects w.ipset_objects vr vu vs) r w'
        (subst
          (λ (o, v).
            Ends (λ _. Restored w.route_objects w.rule_objects w.ipset_objects vr vu vs)
              (Restored w.route_objects w.rule_objects w.ipset_objects vr vu vs) o v)
          ran life)
        defined in
    (a.cells, b.cells, c.cells)
