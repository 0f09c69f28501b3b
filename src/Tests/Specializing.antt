-- ===== src/Tests/Specializing.antt =====
-- Specializations of traffic on concrete machines.
use tu_thesis.TrafficSpecialization.Commands.{specialization_commands}
use tu_thesis.XTables.Table.{new_table}
use tu_thesis.EthernetController.{new_controller}
use tu_thesis.Base.{
  List, ℕ, ◌≡◌, ◌≢◌, subst, refl, some, [], ◌∷◌, ◌==◌, if◌then◌else◌, length, arith, false,
}
use tu_thesis.Text.Bytes.{Bytes, bytes, same, before}
use tu_thesis.Text.Number.{to_string, int_to_string}
use tu_thesis.Text.Stream.{break_at, getline, getlines, getlines_from}
use tu_thesis.Exec.{◌>>=◌, Outcome, ok, throw, undefined}
use tu_thesis.Map
use tu_thesis.Base.{◌++◌}
use tu_thesis.TrafficSpecialization.Made.{made, set_up_commands, tear_down_commands}
use tu_thesis.Map.{bytes_key, nat_key}
use tu_thesis.Shared
use tu_thesis.Shared.{Cell, Heap, IsWellFormed, no_objects, object_at, allocate, lock}
use tu_thesis.World.{Table, World, Chain, TrafficSpecialization}
use tu_thesis.NetworkFactory.{new_factory}
use tu_thesis.TrafficSpecialization.{new_specialization, delete_specialization, marking_rule}
use tu_thesis.TrafficSpecialization.Life.{life_restores}
use tu_thesis.TrafficSpecialization.Remains.{delete_specialization_remains}
use tu_thesis.IpSet.{contains}
use tu_thesis.IpSet.Kernel.Log.{log_kernel}
use tu_thesis.RoutingSpecializer.{fill, ips_of}
use tu_thesis.RoutingSpecializer.Filled.{fill-Kernel}
use tu_thesis.World.{IpSet}
use tu_thesis.Tests.{quiet, machine, with_interfaces, eth0}

no_objects-IsWellFormed : {A : Type 0} → IsWellFormed (no_objects {A = A})
no_objects-IsWellFormed = record { unused = λ p le. refl; owned = λ p c e. absurd (cc) }

-- The rule of the second chain, which is the sixth command, is refused.
abbrev refusing : World
refusing =
    (new_factory (with_interfaces (machine (λ trace _. if length trace == 5 then 1 else 0)))).1

abbrev IsThrown : Outcome (Unit {0}) → Type 0
IsThrown (throw e) = Unit
IsThrown (ok a) = ⊥
IsThrown undefined = ⊥

refusing_defined : ((new_specialization eth0 >>= delete_specialization) refusing).0 ≢ undefined
unfolding new_factory new_specialization tu_thesis.TrafficSpecialization.next_mark bytes same before
    Map.lookup Map.insert to_string int_to_string tu_thesis.NetworkFactory.get_interface
    tu_thesis.NetworkFactory.get_route_rule tu_thesis.NetworkFactory.get_ipset
    tu_thesis.NetworkFactory.add_route tu_thesis.NetworkFactory.get_xtable
    tu_thesis.NetworkFactory.release_route tu_thesis.NetworkFactory.release_rule
    tu_thesis.NetworkFactory.release_ipset tu_thesis.NetworkFactory.Registry.get_weak_element
    tu_thesis.TrafficSpecialization.set_up_chains tu_thesis.XTables.Table.get_chain
    tu_thesis.XTables.Chain.add_rule tu_thesis.XTables.Chain.release_chain allocate lock
    tu_thesis.XTables.Chain.new_chain Shared.release object_at tu_thesis.System.call_only
    tu_thesis.NetworkFactory.Registry.first_live tu_thesis.NetworkFactory.Registry.any_gone
    tu_thesis.RouteRule.new_route_rule tu_thesis.IpSet.new_ipset tu_thesis.Route.new_route
    tu_thesis.XTables.Table.is_listed tu_thesis.XTables.ChainRule.new_chain_rule Shared.write
    tu_thesis.XTables.Chain.delete_chain tu_thesis.XTables.Chain.delete_rules
    tu_thesis.XTables.ChainRule.delete_chain_rule tu_thesis.Route.delete_route
    tu_thesis.IpSet.delete_ipset tu_thesis.RouteRule.delete_route_rule
refusing_defined h = subst IsThrown h tt

life_restores_example :
    let w' = ((new_specialization eth0 >>= delete_specialization) refusing).1 in
    ((q : ℕ) → w'.route_objects.cell q ≡ refusing.route_objects.cell q)
    × ((q : ℕ) → w'.rule_objects.cell q ≡ refusing.rule_objects.cell q)
    × ((q : ℕ) → w'.ipset_objects.cell q ≡ refusing.ipset_objects.cell q)
unfolding new_factory tu_thesis.System.call_only
life_restores_example =
    life_restores eth0 refusing ((new_specialization eth0 >>= delete_specialization) refusing).1
      ((new_specialization eth0 >>= delete_specialization) refusing).0 no_objects-IsWellFormed
      no_objects-IsWellFormed no_objects-IsWellFormed (refl, refl, refl) refl refusing_defined

abbrev marked : Chain
marked = record {
  created = false;
  table_name = bytes "mangle";
  name = bytes "PREROUTING";
  package_rules =
      Map.insert 0
        (record {
          table_name = bytes "mangle";
          chain_name = bytes "PREROUTING";
          rule = marking_rule (bytes "eth0_ipset") 1;
        })
        Map.empty;
}

abbrev output : Chain
output = record {
  created = false;
  table_name = bytes "mangle";
  name = bytes "OUTPUT";
  package_rules = Map.empty;
}

-- Two specializations hold the PREROUTING chain.
abbrev with_chains : World
with_chains = record quiet { chains = (lock 0 (allocate output (allocate marked no_objects))).1 }

abbrev first_specialization : TrafficSpecialization
first_specialization = record {
  route_rule = 0;
  routes = 0 ∷ [];
  ipset = 0;
  mangle_prerouting_chain = 0;
  mangle_output_chain = 1;
}

delete_specialization_remains_example :
    object_at 0 (delete_specialization first_specialization with_chains).1.chains ≡ some marked
unfolding allocate lock
delete_specialization_remains_example =
    delete_specialization_remains first_specialization with_chains
      (record { uses = 2; object = marked }) refl (omega arith) (λ e. omega (arith, e))

-- The second address is refused.
abbrev refusing_one : World
refusing_one =
    machine (λ trace cmd. if same cmd (bytes "ipset add eth0_ipset 9.9.9.9") then 1 else 0)

abbrev old_set : IpSet
old_set = record { name = bytes "eth0_ipset"; ips = bytes "8.8.8.8" ∷ [] }

abbrev with_set : World
with_set = record refusing_one {
  ipset_objects = allocate old_set no_objects;
  specializations = allocate first_specialization no_objects;
}

fill-Kernel_example :
    let (r, w') = fill (some 0) (bytes "1.1.1.1,9.9.9.9") with_set in
    (r ≡ ok tt)
    × ((ips : List Bytes) × ((ips_of (some 0) w').0 ≡ ok ips)
        × ((ip : Bytes)
            → contains ip ips
              ≡ (log_kernel refusing_one.shell (bytes "eth0_ipset")).holds ip w'.trace))
unfolding allocate object_at bytes same to_string int_to_string getlines getlines_from getline
    break_at
fill-Kernel_example =
    fill-Kernel with_set 0 first_specialization old_set
      (log_kernel refusing_one.shell (bytes "eth0_ipset")) (bytes "1.1.1.1,9.9.9.9") refl refl refl
      (
        (1, 1, 1, 1, omega arith, omega arith, omega arith, omega arith, refl),
        ((9, 9, 9, 9, omega arith, omega arith, omega arith, omega arith, refl), tt),
      )

-- The factory with its tables, on a machine where every command succeeds.
abbrev ready : World
ready = (new_factory (with_interfaces quiet)).1

abbrev mangle_table : Table
mangle_table = new_table (bytes "mangle")

specialization_commands_example :
    let t = made eth0 (new_controller eth0) mangle_table ready in
    let (r, w') = new_specialization eth0 ready in
    (r ≡ ok t)
    × (w'.trace ≡ ready.trace ++ set_up_commands eth0 (new_controller eth0) mangle_table ready)
    × (let (r, w'') = delete_specialization t w' in
        (r ≡ ok tt)
        × (w''.trace
            ≡ w'.trace ++ tear_down_commands eth0 (new_controller eth0) mangle_table ready))
unfolding new_factory bytes same before Map.lookup Map.insert tu_thesis.System.call_only
specialization_commands_example =
    specialization_commands eth0 (new_controller eth0) mangle_table ready (λ trace cmd. refl) refl
      refl refl (λ k r. refl) (omega arith) refl refl refl refl
