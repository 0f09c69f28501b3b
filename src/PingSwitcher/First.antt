-- ===== src/PingSwitcher/First.antt =====
-- The first switch, on a machine where every command succeeds.
use tu_thesis.PingSwitcher.Rounds.{via}
use tu_thesis.Base.{false, ◌≡◌, refl, true, some, none, List, [], ◌∷◌, ◌++◌, append_assoc}
use tu_thesis.Base.Int.{pos}
use tu_thesis.Text.Bytes.{Bytes, bytes, same}
use tu_thesis.Exec.{ok}
use tu_thesis.Map
use tu_thesis.Map.{bytes_key}
use tu_thesis.Shared
use tu_thesis.Shared.{object_at-allocate}
use tu_thesis.World.{World, EthernetController, Table, Chain}
use tu_thesis.System.{issue, call_only}
use tu_thesis.EthernetController.{get_gw, get_dns_servers}
use tu_thesis.DnsMasq.Configuration.{new_configuration, write_configuration}
use tu_thesis.DnsMasq.Configuration.InSync.{Shows}
use tu_thesis.DnsMasq.Controller.{add_configuration, create, file_of, reload}
use tu_thesis.DhcpServer.Served.{new_name-Shows}
use tu_thesis.NetworkFactory.Routes.{add_route_ok, with_routes}
use tu_thesis.XTables.ChainRule.{rule_command}
use tu_thesis.XTables.Chain.Rules.{add_rule_lem, after_add}
use tu_thesis.XTables.Table.{is_listed, main_chains}
use tu_thesis.XTables.Table.Lookups.{get_chain_made, with_builtin}
use tu_thesis.TrafficSpecialization.Made.{Succeeds, get_xtable_known}
use tu_thesis.PingSwitcher.{
  PingSwitcher, switch_to, share_internet, set_chain, set_dns_configuration, dns_lines,
  drop_default,
}
use tu_thesis.PingSwitcher.Switch.{default_command}

is_main : is_listed (bytes "POSTROUTING") main_chains ≡ true
unfolding bytes same is_listed
is_main = refl

-- Making a configuration of a new name runs no command.
add_configuration_trace :
    (name : Bytes) (lines : List (Bytes × Bytes)) (w : World)
    → Map.lookup name w.configurations ≡ none
    → w.writable (file_of name) ≡ true
    → (add_configuration name lines w).1.trace ≡ w.trace
unfolding add_configuration create new_configuration write_configuration
add_configuration_trace name lines w unknown writable =
    rw (unknown, add_configuration) (rw writable refl)

four :
    (t : List Bytes) (a b c d : Bytes)
    → t ++ (a ∷ []) ++ (b ∷ []) ++ (c ∷ []) ++ (d ∷ []) ≡ t ++ (a ∷ b ∷ c ∷ d ∷ [])
four t a b c d = simp append_assoc

module _ (name : Bytes) (e : EthernetController) (table : Table) (w : World) where
  abbrev masquerade : Bytes
  masquerade = bytes "--out-interface " ++ (name ++ bytes " -j MASQUERADE")

  -- The default route, the rule that masks the addresses, the reverse-path filter, and dnsmasq.
  abbrev pub switch_commands : List Bytes
  switch_commands =
      default_command e
      ∷ rule_command table.name (bytes "-A") (bytes "POSTROUTING") masquerade
      ∷ (bytes "sysctl net.ipv4.conf." ++ (name ++ bytes ".rp_filter=2"))
      ∷ bytes "systemctl reload dnsmasq"
      ∷ []

  -- What the switcher holds then.
  abbrev pub switched : PingSwitcher → PingSwitcher
  switched p = record p {
    default_gw = some w.route_objects.next;
    current_interface = name;
    masquarade_chain = some w.chains.next;
    dns_configaration = some w.confs.next;
  }

  abbrev postrouting : Chain
  postrouting = record {
    created = false;
    table_name = table.name;
    name = bytes "POSTROUTING";
    package_rules = Map.empty;
  }

  abbrev routed : World
  routed =
      with_routes (Shared.allocate (via (bytes "0.0.0.0/0") e) w.route_objects)
        (issue (default_command e) w)

  abbrev masked : World
  masked =
      after_add w.chains.next masquerade (bytes "-A") postrouting
        (with_builtin (bytes "nat") (bytes "POSTROUTING") table routed)

  abbrev filtered : World
  filtered = issue (bytes "sysctl net.ipv4.conf." ++ (name ++ bytes ".rp_filter=2")) masked

  -- A switcher that has not switched yet, with no route known to the factory, neither the chain asked for
  -- nor the configuration made before, a file that can be written, where every command succeeds: after the
  -- switch the interface is in use, the switcher holds the route, the chain and the configuration, the
  -- commands were the four in their order, and the file of dnsmasq shows the name servers of the interface.
  pub switch_first :
      (p : PingSwitcher)
      → Succeeds w
      → w.routes ≡ []
      → Map.lookup (bytes "nat") w.tables ≡ some table
      → Map.lookup (bytes "POSTROUTING") table.chains ≡ none
      → Map.lookup (bytes "resolvconf") w.configurations ≡ none
      → w.writable (file_of (bytes "resolvconf")) ≡ true
      → p.default_gw ≡ none
      → p.masquarade_chain ≡ none
      → p.dns_configaration ≡ none
      → let (r, (p', w')) = switch_to name e (p, w) in
        (r ≡ ok tt)
        × (p' ≡ switched p)
        × (w'.trace ≡ w.trace ++ switch_commands)
        × Shows w.confs.next (file_of (bytes "resolvconf")) (dns_lines (get_dns_servers e)) w'
  unfolding switch_to share_internet drop_default set_chain set_dns_configuration reload call_only
  switch_first p succeeds no_routes nat fresh unknown writable no_gw no_chain no_conf =
      let (conf, shows) =
        new_name-Shows (bytes "resolvconf") (dns_lines (get_dns_servers e)) filtered unknown
          writable in
      rw no_gw (
        rw (add_route_ok (bytes "0.0.0.0/0") (get_gw e) [] (pos 0) [] w no_routes (succeeds _ _)) (
          rw (get_xtable_known (bytes "nat") table routed nat) (
            rw (get_chain_made (bytes "nat") (bytes "POSTROUTING") table routed nat fresh is_main) (
              rw no_chain (
                rw
                  (add_rule_lem w.chains.next masquerade (bytes "-A") postrouting
                    (with_builtin (bytes "nat") (bytes "POSTROUTING") table routed)
                    (object_at-allocate _ w.chains))
                  (rw succeeds (
                    rw conf (
                      rw no_conf (
                        refl,
                        refl,
                        rw
                            (add_configuration_trace (bytes "resolvconf")
                              (dns_lines (get_dns_servers e)) filtered unknown writable)
                            (four w.trace _ _ _ _),
                        record {
                          object = shows.object;
                          file = shows.file;
                          writable = shows.writable;
                        },
                      )))))))))
