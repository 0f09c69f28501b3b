-- ===== src/TrafficSpecialization/Made.antt =====
-- The constructor of a specialization on a machine where every command succeeds.
use tu_thesis.Base.{
  ltb, ◌^◌, false, ◌==◌, ap, false, ◌≡◌, ◌∙◌, refl, ℕ, ◌+◌, true, some, none, List, [], ◌∷◌, ◌++◌,
  length,
}
use tu_thesis.Base.Int.{pos}
use tu_thesis.Text.Bytes.{Bytes, bytes, same}
use tu_thesis.Text.Number.{to_string}
use tu_thesis.Exec.{ok}
use tu_thesis.Map
use tu_thesis.Map.{Map, bytes_key, lookup-insert, lookup-insert_self}
use tu_thesis.Shared
use tu_thesis.Shared.{Heap, object_at, release, release-allocate}
use tu_thesis.World.{
  World, EthernetController, Table, Chain, RouteRule, Route, TrafficSpecialization,
}
use tu_thesis.Ip.{new_ip}
use tu_thesis.System.{issue}
use tu_thesis.Route.{route_of, route_command}
use tu_thesis.RouteRule
use tu_thesis.EthernetController.{get_gw}
use tu_thesis.NetworkFactory.{get_interface_known, get_xtable}
use tu_thesis.NetworkFactory.Made.{
  get_ipset_made, get_route_rule_made, create_command, destroy_command,
}
use tu_thesis.NetworkFactory.Routes.{add_route_ok, with_routes}
use tu_thesis.XTables.ChainRule
use tu_thesis.XTables.ChainRule.{delete_chain_rule, strip_counters}
use tu_thesis.XTables.Chain.Pair.{first_live, second_live}
use tu_thesis.XTables.Chain.Rules.{add_rule_lem, after_add}
use tu_thesis.XTables.Table.{is_listed, main_chains}
use tu_thesis.XTables.Table.Lookups.{get_chain_made, with_builtin}
use tu_thesis.TrafficSpecialization.{next_mark, new_specialization, set_up_chains, marking_rule}

pub get_xtable_known :
    (name : Bytes) (t : Table) (w : World)
    → Map.lookup name w.tables ≡ some t
    → get_xtable name w ≡ (ok name, w)
unfolding get_xtable
get_xtable_known name t w known = rw (known, get_xtable) refl

is_main :
    (is_listed (bytes "PREROUTING") main_chains ≡ true)
    × (is_listed (bytes "OUTPUT") main_chains ≡ true)
unfolding bytes same is_listed
is_main = (refl, refl)

-- The two chains have different names.
other_chain :
    (p : ℕ) (m : Map Bytes ℕ)
    → Map.lookup (bytes "OUTPUT") (Map.insert (bytes "PREROUTING") p m)
      ≡ Map.lookup (bytes "OUTPUT") m
unfolding bytes same
other_chain p m = lookup-insert (bytes "PREROUTING") (bytes "OUTPUT") p m

-- Every command succeeds, whatever was run before.
abbrev pub Succeeds : World → Type 0
Succeeds w = (trace : List Bytes) (cmd : Bytes) → w.shell trace cmd ≡ 0

module _ (name : Bytes) (e : EthernetController) (table : Table) (w : World) where
  abbrev pub mark : ℕ
  mark = w.mark + 1

  abbrev pub rule : RouteRule
  rule = record {
    priority = 100 + mark;
    lookup = 100 + mark;
    additional_data = bytes "fwmark " ++ to_string mark;
  }

  abbrev pub set_name : Bytes
  set_name = name ++ bytes "_ipset"

  abbrev pub route : Route
  route =
      route_of (new_ip (bytes "0.0.0.0/0")) (new_ip (get_gw e)) name (pos 0)
        (to_string (100 + mark))

  abbrev pub marking : Bytes
  marking = marking_rule set_name mark

  abbrev pub chain_command : Bytes → Bytes → Bytes → Bytes
  chain_command option chain text = ChainRule.rule_command table.name option chain text

  -- The rule, the set, the route, and the two rules that mark the traffic.
  abbrev pub set_up_commands : List Bytes
  set_up_commands =
      RouteRule.rule_command (bytes "add") rule
      ∷ create_command set_name (bytes "hash:ip")
      ∷ route_command (bytes "add") route
      ∷ chain_command (bytes "-A") (bytes "PREROUTING") marking
      ∷ chain_command (bytes "-A") (bytes "OUTPUT") marking
      ∷ []

  -- What undoes each of them, in the order in which the members are destroyed: the set before the route.
  abbrev pub tear_down_commands : List Bytes
  tear_down_commands =
      let text = strip_counters (length marking) marking in
      chain_command (bytes "-D") (bytes "OUTPUT") text
      ∷ chain_command (bytes "-D") (bytes "PREROUTING") text
      ∷ destroy_command set_name
      ∷ route_command (bytes "del") route
      ∷ RouteRule.rule_command (bytes "del") rule
      ∷ []

  abbrev pub with_rule : World
  with_rule =
      record (issue (RouteRule.rule_command (bytes "add") rule) (record w { mark = mark })) {
        rule_objects = Shared.allocate rule w.rule_objects;
      }

  abbrev pub with_set : World
  with_set = record (issue (create_command set_name (bytes "hash:ip")) with_rule) {
    ipset_objects = Shared.allocate (record { name = set_name; ips = [] }) w.ipset_objects;
  }

  abbrev pub with_route : World
  with_route =
      with_routes (Shared.allocate route w.route_objects)
        (issue (route_command (bytes "add") route) with_set)

  abbrev pub table' : Table
  table' = record table { chains = Map.insert (bytes "PREROUTING") w.chains.next table.chains }

  abbrev pub chain : Bytes → Chain
  chain chain_name = record {
    created = false;
    table_name = table.name;
    name = chain_name;
    package_rules = Map.empty;
  }

  abbrev pub with_chains : World
  with_chains =
      with_builtin (bytes "mangle") (bytes "OUTPUT") table'
        (with_builtin (bytes "mangle") (bytes "PREROUTING") table with_route)

  abbrev pub prerouting : ℕ
  prerouting = w.chains.next

  abbrev pub output : ℕ
  output = w.chains.next + 1

  abbrev pub marked_once : World
  marked_once = after_add prerouting marking (bytes "-A") (chain (bytes "PREROUTING")) with_chains

  abbrev pub marked : World
  marked = after_add output marking (bytes "-A") (chain (bytes "OUTPUT")) marked_once

  abbrev pub made : TrafficSpecialization
  made = record {
    route_rule = w.rule_objects.next;
    routes = w.route_objects.next ∷ [];
    ipset = w.ipset_objects.next;
    mangle_prerouting_chain = prerouting;
    mangle_output_chain = output;
  }

  module _ (succeeds : Succeeds w) (mangle : Map.lookup (bytes "mangle") w.tables ≡ some table)
      (no_prerouting : Map.lookup (bytes "PREROUTING") table.chains ≡ none)
      (no_output : Map.lookup (bytes "OUTPUT") table.chains ≡ none) where
    set_up_chains_lem : set_up_chains marking with_route ≡ (ok (prerouting, output), marked)
    unfolding set_up_chains Shared.allocate
    set_up_chains_lem = rw (get_xtable_known (bytes "mangle") table with_route mangle) (
        rw
          (get_chain_made (bytes "mangle") (bytes "PREROUTING") table with_route mangle
            no_prerouting is_main.0)
          (rw
            (get_xtable_known (bytes "mangle") table'
              (with_builtin (bytes "mangle") (bytes "PREROUTING") table with_route)
              (lookup-insert_self _ _ _))
            (rw
              (get_chain_made (bytes "mangle") (bytes "OUTPUT") table'
                (with_builtin (bytes "mangle") (bytes "PREROUTING") table with_route)
                (lookup-insert_self _ _ _) (other_chain w.chains.next table.chains ∙ no_output)
                is_main.1)
              (rw
                (add_rule_lem prerouting marking (bytes "-A") (chain (bytes "PREROUTING"))
                  with_chains (first_live _ _ w.chains))
                (rw succeeds (
                  rw
                    (add_rule_lem output marking (bytes "-A") (chain (bytes "OUTPUT")) marked_once
                      (second_live _ _ w.chains _))
                    (rw succeeds refl)))))))

    pub new_specialization_lem :
        ltb (w.mark + 101) (2 ^ 31) ≡ true
        → w.route_rules ≡ []
        → w.ipsets ≡ []
        → w.routes ≡ []
        → Map.lookup name w.interfaces ≡ some e
        → new_specialization name w ≡ (ok made, marked)
    unfolding new_specialization next_mark
    new_specialization_lem in_int no_rules no_sets no_routes known =
        rw (get_interface_known name w e known, in_int)
          (rw
            (get_route_rule_made (record w { mark = mark }) (100 + mark) (100 + mark)
              (bytes "fwmark " ++ to_string mark) no_rules (ap (λ n. n == 0) (succeeds _ _)))
            (rw
              (get_ipset_made with_rule set_name (bytes "hash:ip") no_sets
                (ap (λ n. n == 0) (succeeds _ _)))
              (rw
                (add_route_ok (bytes "0.0.0.0/0") (get_gw e) name (pos 0) (to_string (100 + mark))
                  with_set no_routes (succeeds _ _))
                (rw set_up_chains_lem refl))))
