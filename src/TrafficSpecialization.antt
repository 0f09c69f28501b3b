-- ===== src/TrafficSpecialization.antt =====
-- TrafficSpecialization/src/TrafficSpecialization.cpp: traffic to a set of addresses is marked and
-- routed through one interface.
pub mod Failure
pub mod Unwinding
pub mod Owned
pub mod Life
pub mod Remains
pub mod Made
pub mod Commands
use tu_thesis.Base.{ℕ, ◌+◌, ◌^◌, ltb, if◌then◌else◌, Option, none, some, List, [], ◌∷◌, ◌++◌}
use tu_thesis.Base.Int.{pos}
use tu_thesis.Text.Bytes.{Bytes, bytes}
use tu_thesis.Text.Number.{to_string}
use tu_thesis.Exec.{
  Exec, Exception, out_of_range, invalid_argument, pure, raise, stuck, try, ◌>>=◌, ◌>>◌,
}
use tu_thesis.Shared
use tu_thesis.World.{World, EthernetController, IpSet, TrafficSpecialization}
use tu_thesis.EthernetController.{get_gw}
use tu_thesis.IpSet
use tu_thesis.NetworkFactory.{
  get_interface, get_xtable, add_route, get_route_rule, get_ipset, release_route, release_rule,
  release_ipset,
}
use tu_thesis.XTables.Table.{get_chain}
use tu_thesis.XTables.Chain.{add_rule, release_chain}

-- `catch(std::out_of_range& e)` around `getInterface`.
abbrev pub unknown_interface : Bytes → Exception → Exec World EthernetController
unknown_interface name (out_of_range _) =
    raise (invalid_argument (bytes "Unknown '" ++ (name ++ bytes "' interface.")))
unknown_interface name e = raise e

-- What an exception in a part of the constructor releases. The members that are set by then are
-- destroyed in the reverse order of their declarations: the chains, the set, the routes, the rule.
abbrev pub unwinding {ℓ} : {A : Type ℓ} → Exec World (Unit {0}) → Exec World A → Exec World A
unwinding release m = try m (λ e. release >> raise e)

abbrev pub marking_rule : Bytes → ℕ → Bytes
marking_rule ipset_name mark =
    bytes "-m set --match-set "
    ++ (ipset_name ++ (bytes " dst -m mark --mark 0 -j MARK --set-mark " ++ to_string mark))

abbrev pub release_chain_maybe : Option ℕ → Exec World (Unit {0})
release_chain_maybe none = pure tt
release_chain_maybe (some p) = release_chain p

-- The two rules, through pointers that may be null.
abbrev pub mark_traffic : Option ℕ → Option ℕ → Bytes → Exec World (ℕ × ℕ)
mark_traffic none output rule = stuck
mark_traffic (some prerouting) none rule = do add_rule prerouting rule (bytes "-A"); stuck
mark_traffic (some prerouting) (some output) rule = do
  add_rule prerouting rule (bytes "-A")
  add_rule output rule (bytes "-A")
  pure (prerouting, output)

unfoldable pub set_up_chains : Bytes → Exec World (ℕ × ℕ)
set_up_chains rule = do
  mangle ← get_xtable (bytes "mangle")
  prerouting ← get_chain mangle (bytes "PREROUTING")
  unwinding (release_chain_maybe prerouting) (do
    mangle ← get_xtable (bytes "mangle")
    output ← get_chain mangle (bytes "OUTPUT")
    unwinding (release_chain_maybe output) (mark_traffic prerouting output rule))

-- `static int mark = 0; mark++; uint routing_table_id = 100+mark;`, where both sums are of type `int`:
-- past its maximum they are undefined.
unfoldable pub next_mark : Exec World ℕ
next_mark w =
    if ltb (w.mark + 101) (2 ^ 31)
    then pure (w.mark + 1) (record w { mark = w.mark + 1 })
    else stuck w

-- The constructor.
unfoldable pub new_specialization : Bytes → Exec World TrafficSpecialization
new_specialization interface_name = do
  interface ← try (get_interface interface_name) (unknown_interface interface_name)
  mark ← next_mark
  let routing_table_id = 100 + mark
  let ipset_name = interface_name ++ bytes "_ipset"
  rule ← get_route_rule routing_table_id routing_table_id (bytes "fwmark " ++ to_string mark)
  unwinding (release_rule rule) (do
    set ← get_ipset ipset_name (bytes "hash:ip")
    route ← unwinding (release_ipset set) (
        add_route (bytes "0.0.0.0/0") (get_gw interface) interface_name (pos 0)
          (to_string routing_table_id))
    chains ←
        unwinding (release_ipset set >> release_route route)
          (set_up_chains (marking_rule ipset_name mark))
    pure (record {
      route_rule = rule;
      routes = route ∷ [];
      ipset = set;
      mangle_prerouting_chain = chains.0;
      mangle_output_chain = chains.1;
    }))

unfoldable pub release_routes : List ℕ → Exec World (Unit {0})
release_routes [] = pure tt
release_routes (p ∷ ps) = do release_route p; release_routes ps

-- The destructor: the members go in the reverse order of their declarations.
unfoldable pub delete_specialization : TrafficSpecialization → Exec World (Unit {0})
delete_specialization t = do
  release_chain t.mangle_output_chain
  release_chain t.mangle_prerouting_chain
  release_ipset t.ipset
  release_routes t.routes
  release_rule t.route_rule

abbrev pub on_set {ℓ} : {A : Type ℓ} → ℕ → Exec (IpSet × World) A → Option IpSet → Exec World A
on_set p m none w = stuck w
on_set p m (some set) w =
    let (r, s) = m (set, w) in
    (r, record s.1 { ipset_objects = Shared.write p s.0 s.1.ipset_objects })

-- A method call through the pointer to the set: undefined if the pointer is dangling.
abbrev pub on_ipset {ℓ} : {A : Type ℓ} → ℕ → Exec (IpSet × World) A → Exec World A
on_ipset p m w = on_set p m (Shared.object_at p w.ipset_objects) w

-- `addIP`, `clearIPs` and `getIPs`
unfoldable pub add_ip : TrafficSpecialization → Bytes → Exec World (Unit {0})
add_ip t ip = on_ipset t.ipset (IpSet.add_ip ip)

unfoldable pub clear_ips : TrafficSpecialization → Exec World (Unit {0})
clear_ips t = on_ipset t.ipset IpSet.clear_ips

unfoldable pub get_ips : TrafficSpecialization → Exec World (List Bytes)
get_ips t = on_ipset t.ipset (λ (set, w). pure set.ips (set, w))
