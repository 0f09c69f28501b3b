-- ===== src/PingSwitcher.antt =====
-- InternetSwitchers/src/PingInternetSwitcher.cpp: the interface that the internet is reached by.
pub mod First
pub mod Masquerade
pub mod Configuration
pub mod Rounds
pub mod Switch
pub mod Choice
pub mod Fixed
pub mod Sharing
pub mod Settles
use tu_thesis.Base.{
  ℕ, Bool, true, false, not, Option, none, some, List, [], ◌∷◌, ◌++◌, map, ◌==◌, if◌then◌else◌,
}
use tu_thesis.Base.Int.{pos}
use tu_thesis.Text.Bytes.{Bytes, bytes, same}
use tu_thesis.Text.Stream.{getlines}
use tu_thesis.Text.Stream.Split.{join_with}
use tu_thesis.Exec.{Exec, pure, stuck, try, on_world, assign, ◌>>=◌, ◌>>◌}
use tu_thesis.Map
use tu_thesis.Map.{Map, empty, bytes_key, value_or_empty}
use tu_thesis.World.{World, EthernetController}
use tu_thesis.System.{call, call_only}
use tu_thesis.EthernetController.{get_gw, get_dns_servers}
use tu_thesis.NetworkFactory.{get_interface, get_xtable, add_route, release_route}
use tu_thesis.XTables.Table.{get_chain}
use tu_thesis.XTables.Chain.{add_rule, release_chain}
use tu_thesis.DnsMasq.Configuration.{release_configuration}
use tu_thesis.DnsMasq.Controller.{add_configuration, reload}

-- The constructor leaves `running` unset. `default_gw` is the local variable of `Run`.
pub record PingSwitcher : Type 0 where
  pub running : Option Bool
  pub interfaces : List Bytes
  pub current_interface : Bytes
  pub masquarade_chain : Option ℕ
  pub dns_configaration : Option ℕ
  pub default_gw : Option ℕ

abbrev pub new_switcher : PingSwitcher
new_switcher = record {
  running = none;
  interfaces = [];
  current_interface = [];
  masquarade_chain = none;
  dns_configaration = none;
  default_gw = none;
}

-- `configure`
unfoldable pub configure : Map Bytes Bytes → PingSwitcher → PingSwitcher
configure conf p = record p {
  interfaces = getlines b',' (value_or_empty (Map.lookup (bytes "interfaces") conf));
}

-- `getConfiguration`
unfoldable pub get_configuration : PingSwitcher → Map Bytes Bytes
get_configuration p = Map.insert (bytes "interfaces") (join_with b',' p.interfaces) empty

-- `exec`: reading `running` before it is set is undefined. The thread runs `Run`.
unfoldable pub exec : Exec PingSwitcher (Unit {0})
exec p = elim p.running [
  | none ↦ stuck p
  | some running ↦ if running then pure tt p else pure tt (record p { running = some true })
]

abbrev pub release_maybe : (ℕ → Exec World (Unit {0})) → Option ℕ → Exec World (Unit {0})
release_maybe release none = pure tt
release_maybe release (some p) = release p

-- `default_gw = nullptr;`
unfoldable pub drop_default : Exec (PingSwitcher × World) (Unit {0})
drop_default (p, w) =
    (do
      assign (λ p. record p { default_gw = none })
      on_world (release_maybe release_route p.default_gw))
      (p, w)

-- `this->masquarade_chain = …;`: the pointer that it held goes away.
unfoldable pub set_chain : Option ℕ → Exec (PingSwitcher × World) (Unit {0})
set_chain chain (p, w) =
    (do
      assign (λ p. record p { masquarade_chain = chain })
      on_world (release_maybe release_chain p.masquarade_chain))
      (p, w)

-- `this->dns_configaration = …;`
unfoldable pub set_dns_configuration : ℕ → Exec (PingSwitcher × World) (Unit {0})
set_dns_configuration conf (p, w) =
    (do
      assign (λ p. record p { dns_configaration = some conf })
      on_world (release_maybe release_configuration p.dns_configaration))
      (p, w)

-- A method call through the pointer to the chain, which may be null.
abbrev pub add_masquerade : Option ℕ → Bytes → Exec World (Unit {0})
add_masquerade none name = stuck
add_masquerade (some chain) name = do
  add_rule chain (bytes "--out-interface " ++ (name ++ bytes " -j MASQUERADE")) (bytes "-A")
  pure tt

abbrev pub dns_lines : List Bytes → List (Bytes × Bytes)
dns_lines = map (λ server. (bytes "server", server))

-- What follows the default route, once `current_interface` is set.
unfoldable pub share_internet : Bytes → EthernetController → Exec (PingSwitcher × World) (Unit {0})
share_internet name e = do
  nat ← on_world (get_xtable (bytes "nat"))
  chain ← on_world (get_chain nat (bytes "POSTROUTING"))
  set_chain chain
  on_world (add_masquerade chain name)
  on_world (call_only (bytes "sysctl net.ipv4.conf." ++ (name ++ bytes ".rp_filter=2")))
  conf ← on_world (add_configuration (bytes "resolvconf") (dns_lines (get_dns_servers e)))
  set_dns_configuration conf
  on_world reload

-- The inner `try` block: the default route is moved to the interface.
abbrev pub move_default : Bytes → EthernetController → Exec (PingSwitcher × World) (Unit {0})
move_default name e = do
  drop_default
  route ← on_world (add_route (bytes "0.0.0.0/0") (get_gw e) [] (pos 0) [])
  assign (λ p. record p { default_gw = some route; current_interface = name })
  share_internet name e

-- Every exception of it is logged.
unfoldable pub switch_to : Bytes → EthernetController → Exec (PingSwitcher × World) (Unit {0})
switch_to name e = try (move_default name e) (λ _. pure tt)

abbrev pub ping_command : Bytes
ping_command = bytes "ping -W 1 -c 1 8.8.8.8 > /dev/null"

-- `System::call` of the ping, over a route that lasts as long as the call.
unfoldable pub ping : EthernetController → Exec World Bool
ping e = do
  ping_route ← add_route (bytes "8.8.8.8/32") (get_gw e) [] (pos 0) []
  ping_result ← call ping_command
  release_route ping_route
  pure (ping_result == 0)

-- `if(0 == ping_result)`: the result says whether the loop breaks.
abbrev pub answer : Bool → Bytes → EthernetController → Exec (PingSwitcher × World) Bool
answer alive name e (p, w) =
    if alive
    then (if not (same name p.current_interface) then switch_to name e >> pure true else pure true)
        (p, w)
    else pure false (p, w)

-- The body of the loop over the interfaces. Every exception is logged.
unfoldable pub check_interface : Bytes → Exec (PingSwitcher × World) Bool
check_interface name =
    try (do e ← on_world (get_interface name); alive ← on_world (ping e); answer alive name e)
      (λ _. pure false)

-- The loop over the copy of the interfaces, up to the first that answers.
unfoldable pub check_all : List Bytes → Exec (PingSwitcher × World) (Unit {0})
check_all [] = pure tt
check_all (name ∷ names) =
    let rest = check_all names in do stop ← check_interface name; if stop then pure tt else rest

-- One round of `Run`, between two waits of a second.
unfoldable pub round : Exec (PingSwitcher × World) (Unit {0})
round (p, w) = check_all p.interfaces (p, w)

-- The command before the loop of `Run`.
unfoldable pub enable_forwarding : Exec World (Unit {0})
enable_forwarding = call_only (bytes "echo 1 > /proc/sys/net/ipv4/ip_forward")

-- The thread of `Run` has been told to stop and joined; it lets its route go.
abbrev join_thread : PingSwitcher → Exec World (Unit {0})
join_thread p = elim p.running [
  | none ↦ stuck
  | some running ↦ if running then release_maybe release_route p.default_gw else pure tt
]

-- `~PingInternetSwitcher`, and then the members; reading `running` before it is set is undefined.
unfoldable pub delete_switcher : PingSwitcher → Exec World (Unit {0})
delete_switcher p = do
  join_thread p
  release_maybe release_configuration p.dns_configaration
  release_maybe release_chain p.masquarade_chain
