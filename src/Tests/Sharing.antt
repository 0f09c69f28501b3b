-- ===== src/Tests/Sharing.antt =====
-- The first switch of a switcher, to the interface `eth0`.
use tu_thesis.PingSwitcher.Masquerade.{switch_keeps_rules}
use tu_thesis.Base.{false, some, ◌≡◌, refl, ◌++◌, [], ◌∷◌}
use tu_thesis.Text.Bytes.{bytes, same, before}
use tu_thesis.Exec.{ok}
use tu_thesis.Map
use tu_thesis.Shared
use tu_thesis.Map.{nat_key}
use tu_thesis.Shared.{no_objects, object_at}
use tu_thesis.Map.{bytes_key}
use tu_thesis.World.{Chain, World, EthernetController, Table}
use tu_thesis.EthernetController.{new_controller, get_dns_servers}
use tu_thesis.NetworkFactory.{new_factory}
use tu_thesis.XTables.Table.{new_table}
use tu_thesis.DnsMasq.Configuration.InSync.{Shows}
use tu_thesis.DnsMasq.Controller.{file_of}
use tu_thesis.PingSwitcher.{PingSwitcher, new_switcher, switch_to, dns_lines}
use tu_thesis.PingSwitcher.First.{switch_first, switched, switch_commands}
use tu_thesis.Tests.{quiet, with_interfaces, eth0, eth1}

abbrev ready : World
ready = (new_factory (with_interfaces quiet)).1

abbrev nat_table : Table
nat_table = new_table (bytes "nat")

-- A controller with a name server.
abbrev e : EthernetController
e = record (new_controller eth0) {
  interface = record (new_controller eth0).interface {
    dns_servers = record { ip = bytes "8.8.8.8" } ∷ [];
  };
}

switch_first_example :
    let (r, (p', w')) = switch_to eth0 e (new_switcher, ready) in
    (r ≡ ok tt)
    × (p' ≡ switched eth0 e nat_table ready new_switcher)
    × (w'.trace ≡ ready.trace ++ switch_commands eth0 e nat_table ready)
    × Shows ready.confs.next (file_of (bytes "resolvconf")) (dns_lines (get_dns_servers e)) w'
unfolding new_factory bytes same before Map.lookup Map.insert tu_thesis.System.call_only
switch_first_example =
    switch_first eth0 e nat_table ready new_switcher (λ trace cmd. refl) refl refl refl refl refl
      refl refl refl

-- `eth1` is in use, and its rule is in the chain that the switcher holds.
abbrev held_chain : Chain
held_chain = record {
  created = false;
  table_name = bytes "nat";
  name = bytes "POSTROUTING";
  package_rules =
      Map.insert 0
        (record {
          table_name = bytes "nat";
          chain_name = bytes "POSTROUTING";
          rule = bytes "--out-interface eth1 -j MASQUERADE";
        })
        Map.empty;
}

abbrev held_table : Table
held_table = record nat_table { chains = Map.insert (bytes "POSTROUTING") 0 Map.empty }

abbrev sharing : World
sharing = record ready {
  rule_id = 1;
  chains = Shared.allocate held_chain no_objects;
  tables = Map.insert (bytes "nat") held_table ready.tables;
}

abbrev sharer : PingSwitcher
sharer = record new_switcher { masquarade_chain = some 0; current_interface = eth1 }

switch_keeps_rules_example :
    object_at 0 (switch_to eth0 e (sharer, sharing)).1.1.chains
    ≡ some (record held_chain {
      package_rules =
          Map.insert 1
            (record {
              table_name = bytes "nat";
              chain_name = bytes "POSTROUTING";
              rule = bytes "--out-interface eth0 -j MASQUERADE";
            })
            held_chain.package_rules;
    })
unfolding new_factory bytes same before Map.lookup Map.insert Shared.allocate object_at
    tu_thesis.System.call_only
switch_keeps_rules_example =
    switch_keeps_rules eth0 e sharer sharing held_table 0 0 held_chain (λ trace cmd. refl) refl refl
      refl refl refl refl
