-- ===== src/NetworkFactory.antt =====
-- NetworkFactory/src/NetworkFactory.cpp: the registry of what the program has set up.
pub mod Start
pub mod Routes
pub mod Registry
pub mod Made
use tu_thesis.Base.{
  ◌≡◌, ap, ℕ, ◌+◌, Bool, true, false, ◌||◌, ◌&&◌, Option, none, some, List, [], ◌∷◌, ◌++◌, ◌==◌,
  take, if◌then◌else◌,
}
use tu_thesis.Base.Int.{ℤ, same_int}
use tu_thesis.Text.Bytes.{Bytes, bytes, same}
use tu_thesis.Exec.{
  Outcome, ok, throw, Exec, Exception, out_of_range, runtime_error, pure, raise, stuck, modify,
  continue, handle, try, ◌>>=◌, ◌>>◌,
}
use tu_thesis.Map
use tu_thesis.Map.{Map, empty, bytes_key}
use tu_thesis.Shared
use tu_thesis.World.{World, EthernetController, Ip, Route, RouteRule, IpSet}
use tu_thesis.Ip.{new_ip, same_ip}
use tu_thesis.Route.{new_route, delete_route}
use tu_thesis.RouteRule.{new_route_rule, delete_route_rule}
use tu_thesis.IpSet.{new_ipset, delete_ipset}
use tu_thesis.XTables.Table.{new_table}
use tu_thesis.DnsMasq.Controller.{start_dnsmasq}
use tu_thesis.EthernetController.{new_controller}
use tu_thesis.NetworkFactory.Registry.{get_weak_element}

abbrev set_tables : World → World
set_tables w = record w {
  tables = Map.insert (bytes "mangle") (new_table (bytes "mangle")) (
      Map.insert (bytes "nat") (new_table (bytes "nat"))
        (Map.insert (bytes "filter") (new_table (bytes "filter")) empty));
}

-- `NetworkFactory::NetworkFactory`: the controller of dnsmasq starts it, and the three tables.
unfoldable pub new_factory : Exec World (Unit {0})
new_factory = do start_dnsmasq; modify set_tables

-- The test on `interface_name.substr(0,2)`.
unfoldable pub is_ethernet : Bytes → Bool
is_ethernet name =
    let type = take 2 name in
    same type (bytes "en")
    || (same type (bytes "et") || (same type (bytes "us") || same type (bytes "lo")))

-- `addInterface`
unfoldable pub add_interface : Bytes → Exec World (Unit {0})
add_interface name =
    if is_ethernet name
    then modify (λ w. record w { interfaces = Map.insert name (new_controller name) w.interfaces })
    else raise (runtime_error (bytes "Unknown interface type"))

-- `catch(std::runtime_error& e)` around it: other exceptions pass.
abbrev only_runtime_error : Exception → Exec World (Unit {0})
only_runtime_error (runtime_error message) = pure tt
only_runtime_error e = raise e

-- `getSystemInterfacesList`, on the names that `readdir` gives for /sys/class/net, or `none` if
-- `opendir` fails: `closedir` is then called on a null pointer.
abbrev pub get_system_interfaces_list : Option (List Bytes) → Outcome (List Bytes)
get_system_interfaces_list (some names) = ok names
get_system_interfaces_list none = Outcome.undefined

-- `start`, that is `checkerThread`, on the names that `getSystemInterfacesList` reads from
-- /sys/class/net.
unfoldable pub start : List Bytes → Exec World (Unit {0})
start [] = pure tt
start (name ∷ names) = do try (add_interface name) only_runtime_error; start names

abbrev at_interface : Option EthernetController → Exec World EthernetController
at_interface none = raise (out_of_range (bytes "map::at"))
at_interface (some e) = pure e

-- `getInterface`: `at` throws. The pointer is the name under which the controller is kept.
unfoldable pub get_interface : Bytes → Exec World EthernetController
get_interface name w = at_interface (Map.lookup name w.interfaces) w

module _ (name : Bytes) (w : World) where
  pub get_interface_known :
      (e : EthernetController)
      → Map.lookup name w.interfaces ≡ some e
      → get_interface name w ≡ (ok e, w)
  unfolding get_interface
  get_interface_known e h = ap (λ o. at_interface o w) h

  pub get_interface_unknown :
      Map.lookup name w.interfaces ≡ none
      → get_interface name w ≡ (throw (out_of_range (bytes "map::at")), w)
  unfolding get_interface
  get_interface_unknown h = ap (λ o. at_interface o w) h

-- `getXTable`
unfoldable pub get_xtable : Bytes → Exec World Bytes
get_xtable name w = elim (Map.lookup name w.tables) [
  | none ↦ raise (out_of_range (bytes "map::at")) w
  | some _ ↦ pure name w
]

-- `std::make_shared` of an object whose constructor is given.
abbrev pub make_route : Exec World Route → Exec World ℕ
make_route constructor = do
  r ← constructor
  (λ w. pure w.route_objects.next (record w { route_objects = Shared.allocate r w.route_objects }))

abbrev pub make_rule : Exec World RouteRule → Exec World ℕ
make_rule constructor = do
  r ← constructor
  (λ w. pure w.rule_objects.next (record w { rule_objects = Shared.allocate r w.rule_objects }))

abbrev pub make_ipset : Exec World IpSet → Exec World ℕ
make_ipset constructor = do
  set ← constructor
  (λ w.
      pure w.ipset_objects.next (record w { ipset_objects = Shared.allocate set w.ipset_objects }))

-- The test of `addRoute`.
unfoldable pub is_route : Ip → ℤ → Bytes → Route → Bool
is_route destination metric table r =
    same_ip r.destination destination && (same_int r.metric metric && same r.table_name table)

-- `addRoute`
unfoldable pub add_route : Bytes → Bytes → Bytes → ℤ → Bytes → Exec World ℕ
add_route destination gateway interface_name metric table w =
    get_weak_element w.route_objects w.routes (is_route (new_ip destination) metric table)
      (λ p w. pure p (record w { route_objects = (Shared.lock p w.route_objects).1 }))
      (make_route (new_route (new_ip destination) (new_ip gateway) interface_name metric table)) w

-- `getRouteRule`
unfoldable pub get_route_rule : ℕ → ℕ → Bytes → Exec World ℕ
get_route_rule priority lookup additional_data w =
    get_weak_element w.rule_objects w.route_rules
      (λ r. r.priority == priority && r.lookup == lookup)
      (λ p w. pure p (record w { rule_objects = (Shared.lock p w.rule_objects).1 }))
      (make_rule (new_route_rule priority lookup additional_data)) w

-- `getIPSet`
unfoldable pub get_ipset : Bytes → Bytes → Exec World ℕ
get_ipset name type w =
    get_weak_element w.ipset_objects w.ipsets (λ set. same set.name name)
      (λ p w. pure p (record w { ipset_objects = (Shared.lock p w.ipset_objects).1 }))
      (make_ipset (new_ipset name type)) w

-- A shared pointer to a route, a rule or a set goes away.
unfoldable pub release_route : ℕ → Exec World (Unit {0})
release_route p w =
    let (last, objects) = Shared.release p w.route_objects in
    let w' = record w { route_objects = objects } in
    elim last [ none ↦ pure tt w' | some r ↦ delete_route r w' ]

unfoldable pub release_rule : ℕ → Exec World (Unit {0})
release_rule p w =
    let (last, objects) = Shared.release p w.rule_objects in
    let w' = record w { rule_objects = objects } in
    elim last [ none ↦ pure tt w' | some r ↦ delete_route_rule r w' ]

unfoldable pub release_ipset : ℕ → Exec World (Unit {0})
release_ipset p w =
    let (last, objects) = Shared.release p w.ipset_objects in
    let w' = record w { ipset_objects = objects } in
    elim last [ none ↦ pure tt w' | some set ↦ delete_ipset set w' ]
