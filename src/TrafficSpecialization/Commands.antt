-- ===== src/TrafficSpecialization/Commands.antt =====
-- The commands of a specialization's life.
use tu_thesis.Base.{
  append_assoc, ◌≡◌, ℕ, refl, ◌+◌, ◌^◌, ◌<◌, arith, some, none, List, [], ◌∷◌, ◌++◌, length,
}
use tu_thesis.Text.Bytes.{Bytes, bytes}
use tu_thesis.Exec.{ok}
use tu_thesis.Map
use tu_thesis.Map.{Map, bytes_key, lookup-insert, lookup-insert_self}
use tu_thesis.Shared
use tu_thesis.Shared.{Heap, object_at, release, release-allocate}
use tu_thesis.World.{ChainRule, World, EthernetController, Table, Chain}
use tu_thesis.System.{issue}
use tu_thesis.Route.{route_command}
use tu_thesis.NetworkFactory.Made.{
  release_rule_last, release_route_last, release_ipset_last, destroy_command,
}
use tu_thesis.XTables.ChainRule.{strip_counters}
use tu_thesis.XTables.Chain.Pair.{second_last, first_last, release_chain_last}
use tu_thesis.TrafficSpecialization.{release_routes, delete_specialization, new_specialization}
use tu_thesis.TrafficSpecialization.Made.{
  Succeeds, new_specialization_lem, made, marked, tear_down_commands, set_up_commands, chain,
  marking, set_name, route, rule, output, prerouting, chain_command,
}

five :
    (t : List Bytes) (a b c d e : Bytes)
    → t ++ (a ∷ []) ++ (b ∷ []) ++ (c ∷ []) ++ (d ∷ []) ++ (e ∷ []) ≡ t ++ (a ∷ b ∷ c ∷ d ∷ e ∷ [])
five t a b c d e = simp append_assoc

module _ (name : Bytes) (e : EthernetController) (table : Table) (w : World) (succeeds : Succeeds w)
    (mangle : Map.lookup (bytes "mangle") w.tables ≡ some table)
    (no_prerouting : Map.lookup (bytes "PREROUTING") table.chains ≡ none)
    (no_output : Map.lookup (bytes "OUTPUT") table.chains ≡ none)
    (one_order : (k : ℕ) (r : ChainRule) → w.clear_order ((k, r) ∷ []) ≡ (k, r) ∷ []) where
  abbrev rule_in : Bytes → ChainRule
  rule_in chain_name = record {
    table_name = table.name;
    chain_name = chain_name;
    rule = marking name e table w;
  }

  -- The two chains with their rules.
  abbrev once : Chain × Chain
  once = (
    record (chain name e table w (bytes "PREROUTING")) {
      package_rules = record { entries = (w.rule_id, rule_in (bytes "PREROUTING")) ∷ [] };
    },
    record (chain name e table w (bytes "OUTPUT")) {
      package_rules = record { entries = (w.rule_id + 1, rule_in (bytes "OUTPUT")) ∷ [] };
    },
  )

  delete_specialization_lem :
      let (r, w') = delete_specialization (made name e table w) (marked name e table w) in
      (r ≡ ok tt) × (w'.trace ≡ (marked name e table w).trace ++ tear_down_commands name e table w)
  unfolding delete_specialization release_routes Map.insert Shared.allocate
  delete_specialization_lem =
      let text = strip_counters (length (marking name e table w)) (marking name e table w) in
      let last_out =
        second_last (chain name e table w (bytes "PREROUTING"))
          (chain name e table w (bytes "OUTPUT")) w.chains once.0 once.1 in
      let last_pre =
        first_last (chain name e table w (bytes "PREROUTING"))
          (chain name e table w (bytes "OUTPUT")) w.chains once.0 once.1 in
      let v =
        issue (chain_command name e table w (bytes "-D") (bytes "OUTPUT") text)
          (record (marked name e table w) {
            chains = (release (output name e table w) (marked name e table w).chains).1;
          }) in
      let v' =
        issue (chain_command name e table w (bytes "-D") (bytes "PREROUTING") text)
          (record v { chains = (release (prerouting name e table w) v.chains).1 }) in
      let u =
        issue (destroy_command (set_name name e table w))
          (record v' { ipset_objects = (release w.ipset_objects.next v'.ipset_objects).1 }) in
      let u' =
        issue (route_command (bytes "del") (route name e table w))
          (record u { route_objects = (release w.route_objects.next u.route_objects).1 }) in
      rw
        (release_chain_last (output name e table w) (w.rule_id + 1) once.1
          (rule_in (bytes "OUTPUT")) (marked name e table w) last_out refl refl (one_order _ _))
        (rw
          (release_chain_last (prerouting name e table w) w.rule_id once.0
            (rule_in (bytes "PREROUTING")) v last_pre refl refl (one_order _ _))
          (rw
            (release_ipset_last v' w.ipset_objects.next
              (record { name = set_name name e table w; ips = [] })
              (release-allocate _ w.ipset_objects))
            (rw
              (release_route_last u w.route_objects.next (route name e table w)
                (release-allocate _ w.route_objects))
              (rw
                (release_rule_last u' w.rule_objects.next (rule name e table w)
                  (release-allocate _ w.rule_objects))
                (refl, five (marked name e table w).trace _ _ _ _ _)))))

  -- A specialization of a known interface, with no route, rule or set known to the factory and neither
  -- chain asked for before, on a machine where every command succeeds, while the number of the routing
  -- table is one that an int holds and a map of one rule is cleared by destroying it: the constructor runs the commands that add the routing rule, create
  -- the set, add the route, and add the rules that mark the traffic to PREROUTING and to OUTPUT, in this
  -- order; the destructor runs the five that undo them in the order OUTPUT, PREROUTING, set, route,
  -- routing rule.
  pub specialization_commands :
      w.mark + 101 < 2 ^ 31
      → w.route_rules ≡ []
      → w.ipsets ≡ []
      → w.routes ≡ []
      → Map.lookup name w.interfaces ≡ some e
      → let (r, w') = new_specialization name w in
        (r ≡ ok (made name e table w))
        × (w'.trace ≡ w.trace ++ set_up_commands name e table w)
        × (let (r, w'') = delete_specialization (made name e table w) w' in
            (r ≡ ok tt) × (w''.trace ≡ w'.trace ++ tear_down_commands name e table w))
  specialization_commands in_int no_rules no_sets no_routes known =
      rw
        (new_specialization_lem name e table w succeeds mangle no_prerouting no_output
          (ground arith) no_rules no_sets no_routes known)
        (refl, five w.trace _ _ _ _ _, delete_specialization_lem)
