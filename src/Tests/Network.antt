-- ===== src/Tests/Network.antt =====
-- The network factory and what it hands out, on concrete machines.
use tu_thesis.Base.{arith, ◌≡◌, refl, false, none, some, List, [], ◌∷◌, ◌++◌}
use tu_thesis.Base.Int.{pos}
use tu_thesis.Text.Bytes.{Bytes, bytes, same, before}
use tu_thesis.Exec.{ok, throw, invalid_argument, ◌>>=◌}
use tu_thesis.IpSet.Kernel.{run_calls, add, clear, run_calls-Kernel}
use tu_thesis.IpSet.Kernel.Log.{log_kernel-empty, log_kernel}
use tu_thesis.Map
use tu_thesis.Map.{bytes_key, nat_key}
use tu_thesis.Shared
use tu_thesis.System.{call_only, issue}
use tu_thesis.Ip.{new_ip}
use tu_thesis.World.{World, Chain, Table, Configuration}
use tu_thesis.Route.{route_command, route_of, new_route, delete_route}
use tu_thesis.Route.Commands.{new_route-delete_route}
use tu_thesis.XTables.Table.{new_table, get_chain, is_listed}
use tu_thesis.XTables.Table.Lookups.{with_builtin, get_chain_twice}
use tu_thesis.XTables.Chain.{release_chain}
use tu_thesis.XTables.Table.Released.{get_chain_released}
use tu_thesis.IpSet.{contains, add_ip}
use tu_thesis.IpSet.Members.{IsNodup, add_ip-IsNodup}
use tu_thesis.DnsMasq.Configuration.{replace}
use tu_thesis.DnsMasq.Controller.{add_configuration}
use tu_thesis.DnsMasq.Controller.Known.{add_configuration-Shows}
use tu_thesis.DnsMasq.Configuration.InSync.{Shows, replace-Shows}
use tu_thesis.EthernetController.{new_controller}
use tu_thesis.NetworkFactory.{add_route, start, is_ethernet, new_factory}
use tu_thesis.NetworkFactory.Start.{lookup-start}
use tu_thesis.NetworkFactory.Routes.{add_route_twice}
use tu_thesis.TrafficSpecialization.{new_specialization}
use tu_thesis.TrafficSpecialization.Failure.{new_specialization_unknown}
use tu_thesis.Tests.{quiet, eth0}

add_route_twice_example :
    (add_route
      (bytes "10.0.0.0/8")
      (bytes "10.0.0.1")
      []
      (pos 0)
      []
      (add_route (bytes "10.0.0.0/8") (bytes "10.0.0.1") [] (pos 0) [] quiet).1).1.trace
    ≡ route_command
        (bytes "add")
        (route_of (new_ip (bytes "10.0.0.0/8")) (new_ip (bytes "10.0.0.1")) [] (pos 0) [])
      ∷ route_command
          (bytes "add")
          (route_of (new_ip (bytes "10.0.0.0/8")) (new_ip (bytes "10.0.0.1")) [] (pos 0) [])
      ∷ []
add_route_twice_example =
    add_route_twice (bytes "10.0.0.0/8") (bytes "10.0.0.1") [] (pos 0) [] quiet refl

abbrev system_names : List Bytes
system_names = eth0 ∷ bytes "docker0" ∷ bytes "lo" ∷ []

lookup-start_example :
    ((start system_names quiet).0 ≡ ok tt)
    × (Map.lookup eth0 (start system_names quiet).1.interfaces ≡ some (new_controller eth0))
unfolding is_listed same bytes is_ethernet
lookup-start_example = lookup-start system_names eth0 quiet

new_route-delete_route_example :
    (new_route (new_ip (bytes "10.0.0.0/8")) (new_ip (bytes "10.0.0.1")) eth0 (pos 5) []
        >>= delete_route)
      quiet
    ≡ (
      ok tt,
      issue
          (route_command
            (bytes "del")
            (route_of (new_ip (bytes "10.0.0.0/8")) (new_ip (bytes "10.0.0.1")) eth0 (pos 5) []))
          (issue
            (route_command
              (bytes "add")
              (route_of (new_ip (bytes "10.0.0.0/8")) (new_ip (bytes "10.0.0.1")) eth0 (pos 5) []))
            quiet),
    )
new_route-delete_route_example =
    new_route-delete_route (new_ip (bytes "10.0.0.0/8")) (new_ip (bytes "10.0.0.1")) eth0 (pos 5) []
      quiet refl

-- A configuration with two lines, which is object 0.
abbrev two_lines : Configuration
two_lines = record {
  file_name = bytes "/etc/dnsmasq.d/resolvconf.conf";
  configuration = (bytes "port", bytes "53") ∷ (bytes "server", bytes "1.1.1.1") ∷ [];
}

abbrev with_lines : World
with_lines = record quiet { confs = Shared.allocate two_lines quiet.confs }

abbrev known : World
known = record with_lines { configurations = Map.insert (bytes "resolvconf") 0 Map.empty }

add_configuration-Shows_example :
    ((add_configuration (bytes "resolvconf") ((bytes "server", bytes "9.9.9.9") ∷ []) known).0
      ≡ ok 0)
    × Shows 0 two_lines.file_name
        (two_lines.configuration ++ ((bytes "server", bytes "9.9.9.9") ∷ []))
        (add_configuration (bytes "resolvconf") ((bytes "server", bytes "9.9.9.9") ∷ []) known).1
unfolding Shared.allocate Shared.object_at Map.insert Map.lookup bytes same
add_configuration-Shows_example =
    add_configuration-Shows (bytes "resolvconf") ((bytes "server", bytes "9.9.9.9") ∷ []) 0
      two_lines known refl (refl, refl)

replace-Shows_example :
    ((replace 0 (bytes "server") (bytes "1.1.1.1") (bytes "9.9.9.9") with_lines).0 ≡ ok tt)
    × Shows 0 two_lines.file_name
        ((bytes "port", bytes "53") ∷ (bytes "server", bytes "9.9.9.9") ∷ [])
        (replace 0 (bytes "server") (bytes "1.1.1.1") (bytes "9.9.9.9") with_lines).1
unfolding Shared.allocate Shared.object_at bytes same
replace-Shows_example =
    replace-Shows 0 two_lines.file_name (bytes "server") (bytes "1.1.1.1") (bytes "9.9.9.9")
      with_lines ((bytes "port", bytes "53") ∷ []) [] (refl, refl) refl

abbrev filter_table : Table
filter_table = new_table (bytes "filter")

abbrev factory : World
factory = (new_factory quiet).1

get_chain_twice_example :
    (get_chain (bytes "filter") (bytes "INPUT") factory
      ≡ (ok (some 0), with_builtin (bytes "filter") (bytes "INPUT") filter_table factory))
    × ((with_builtin (bytes "filter") (bytes "INPUT") filter_table factory).trace ≡ factory.trace)
    × ((get_chain
          (bytes "filter")
          (bytes "INPUT")
          (with_builtin (bytes "filter") (bytes "INPUT") filter_table factory)).0
        ≡ ok (some 0))
unfolding new_factory call_only Map.lookup Map.insert same before bytes is_listed
get_chain_twice_example =
    get_chain_twice (bytes "filter") (bytes "INPUT") filter_table factory refl refl refl

-- The table names chain 0, which is gone.
abbrev old_table : Table
old_table = record filter_table { chains = Map.insert (bytes "INPUT") 0 Map.empty }

abbrev old_factory : World
old_factory = record quiet { tables = Map.insert (bytes "filter") old_table Map.empty }

abbrev used_factory : World
used_factory = record old_factory {
  chains =
      Shared.allocate
        (record {
          created = false;
          table_name = bytes "filter";
          name = bytes "INPUT";
          package_rules = Map.empty;
        })
        quiet.chains;
}

get_chain_released_example :
    let (r, w') = release_chain 0 used_factory in
    ((get_chain (bytes "filter") (bytes "INPUT") used_factory).0 ≡ ok (some 0))
    × (r ≡ ok tt)
    × (get_chain (bytes "filter") (bytes "INPUT") w' ≡ (ok none, w'))
unfolding Map.lookup Map.insert same bytes Shared.allocate
get_chain_released_example =
    get_chain_released (bytes "filter") (bytes "INPUT") old_table used_factory 0
      (record {
        uses = 1;
        object = record {
          created = false;
          table_name = bytes "filter";
          name = bytes "INPUT";
          package_rules = Map.empty;
        };
      })
      refl refl refl refl

abbrev input : Chain
input = record {
  created = false;
  table_name = bytes "filter";
  name = bytes "INPUT";
  package_rules = Map.empty;
}

abbrev with_input : World → World
with_input w = record w { chains = Shared.allocate input w.chains }

add_ip-IsNodup_example :
    IsNodup
      (add_ip
        (bytes "1.1.1.1")
        (record { name = bytes "set"; ips = bytes "9.9.9.9" ∷ [] }, quiet)).1.0.ips
unfolding contains
add_ip-IsNodup_example =
    add_ip-IsNodup (bytes "1.1.1.1") (record { name = bytes "set"; ips = bytes "9.9.9.9" ∷ [] })
      quiet (refl, tt)

new_specialization_unknown_example :
    new_specialization eth0 quiet
    ≡ (throw (invalid_argument (bytes "Unknown '" ++ (eth0 ++ bytes "' interface."))), quiet)
unfolding Map.lookup
new_specialization_unknown_example = new_specialization_unknown eth0 quiet refl

run_calls-Kernel_example :
    let s =
      (run_calls
        (add (bytes "1.1.1.1") ∷ clear ∷ add (bytes "9.9.9.9") ∷ [])
        (record { name = bytes "set"; ips = [] }, quiet)).1 in
    contains (bytes "9.9.9.9") s.0.ips
    ≡ (log_kernel quiet.shell (bytes "set")).holds (bytes "9.9.9.9") s.1.trace
unfolding bytes tu_thesis.Text.Number.to_string tu_thesis.Text.Number.int_to_string
run_calls-Kernel_example =
    run_calls-Kernel quiet (bytes "set") (log_kernel quiet.shell (bytes "set"))
      (add (bytes "1.1.1.1") ∷ clear ∷ add (bytes "9.9.9.9") ∷ [])
      (
        (1, 1, 1, 1, omega arith, omega arith, omega arith, omega arith, refl),
        (tt, ((9, 9, 9, 9, omega arith, omega arith, omega arith, omega arith, refl), tt)),
      )
      (log_kernel-empty quiet.shell (bytes "set")) (bytes "9.9.9.9")
