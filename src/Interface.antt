-- ===== src/Interface.antt =====
-- Interface/src/Interface.cpp: a network interface and the callbacks on its changes.
pub mod Changes
use tu_thesis.Base.{ℕ, ◌+◌, true, false, none, some, List, [], ◌∷◌, ◌++◌}
use tu_thesis.Text.Bytes.{Bytes, bytes}
use tu_thesis.Exec.{Exec, pure, on_world, assign, ◌>>◌}
use tu_thesis.Map
use tu_thesis.Map.{Map, empty, nat_key}
use tu_thesis.World.{World, Interface, Ip, Notice, gateway_is, ip_is, dns_is, status_is, Spawn}
use tu_thesis.Ip.{new_ip}
use tu_thesis.System.{call_or_throw}

-- `Interface::Interface`
abbrev pub new_interface : Bytes → Interface
new_interface name = record {
  interface_name = name;
  status = none;
  ip = new_ip [];
  mask = new_ip [];
  gateway = new_ip [];
  dns_servers = [];
  gateway_callbacks = empty;
  ip_callbacks = empty;
  dns_callbacks = empty;
  status_callbacks = empty;
}

unfoldable pub notices : Notice → List (ℕ × ℕ) → List Spawn
notices notice [] = []
notices notice ((_, callback) ∷ rest) =
    record { callback = callback; notice = notice } ∷ notices notice rest

-- `callCallbacksOf`: a detached thread for each callback, in the order of their numbers.
unfoldable pub call_callbacks : Map ℕ ℕ → Notice → Exec World (Unit {0})
unfolding notices
call_callbacks callbacks notice w =
    pure tt (record w { spawned = w.spawned ++ notices notice callbacks.entries })

-- `getName`, `getGW`, `getDNSServers`
abbrev pub get_name : Interface → Bytes
get_name i = i.interface_name

abbrev pub get_gw : Interface → Ip
get_gw i = i.gateway

abbrev pub get_dns_servers : Interface → List Ip
get_dns_servers i = i.dns_servers

-- `enable`. The message is the source's.
unfoldable pub enable : Exec (Interface × World) (Unit {0})
unfolding call_or_throw call_callbacks
enable (i, w) =
    (do
      on_world (
          call_or_throw (bytes "ifconfig " ++ (i.interface_name ++ bytes " up"))
            (bytes "Failed to disable the interface"))
      assign (λ i. record i { status = some true })
      on_world (call_callbacks i.status_callbacks (status_is true)))
      (i, w)

-- `disable`
unfoldable pub disable : Exec (Interface × World) (Unit {0})
unfolding call_or_throw call_callbacks
disable (i, w) =
    (do
      on_world (
          call_or_throw (bytes "ifconfig " ++ (i.interface_name ++ bytes " down"))
            (bytes "Failed to disable the interface"))
      assign (λ i. record i { status = some false })
      on_world (call_callbacks i.status_callbacks (status_is false)))
      (i, w)

abbrev pub ip_command : Bytes → Ip → Ip → Bytes
ip_command name ip mask =
    bytes "ifconfig " ++ (name ++ (bytes " " ++ (ip.ip ++ (bytes " netmask " ++ mask.ip))))

-- `setIP`
unfoldable pub set_ip : Ip → Ip → Exec (Interface × World) (Unit {0})
unfolding call_or_throw call_callbacks
set_ip ip mask (i, w) =
    (do
      on_world (
          call_or_throw (ip_command i.interface_name ip mask)
            (bytes "Failed to setup the interface"))
      assign (λ i. record i { ip = ip; mask = mask })
      on_world (call_callbacks i.ip_callbacks (ip_is ip mask)))
      (i, w)

-- `setGW`
unfoldable pub set_gw : Ip → Exec (Interface × World) (Unit {0})
unfolding call_callbacks
set_gw ip (i, w) =
    (do
      assign (λ i. record i { gateway = ip })
      on_world (call_callbacks i.gateway_callbacks (gateway_is ip)))
      (i, w)

-- `setDNS`
unfoldable pub set_dns : List Ip → Exec (Interface × World) (Unit {0})
unfolding call_callbacks
set_dns servers (i, w) =
    (do
      assign (λ i. record i { dns_servers = servers })
      on_world (call_callbacks i.dns_callbacks (dns_is servers)))
      (i, w)

-- `registerGatewayCallback` and its three siblings return the number under which the callback is
-- kept. `registerCallback` has a counter for each of them, shared by all interfaces.
unfoldable pub register_gateway_callback : ℕ → Exec (Interface × World) ℕ
unfolding Map.insert
register_gateway_callback callback (i, w) =
    let id = w.callback_ids.next_gateway in
    pure id (
      record i { gateway_callbacks = Map.insert id callback i.gateway_callbacks },
      record w { callback_ids = record w.callback_ids { next_gateway = id + 1 } },
    )

unfoldable pub register_ip_callback : ℕ → Exec (Interface × World) ℕ
unfolding Map.insert
register_ip_callback callback (i, w) =
    let id = w.callback_ids.next_ip in
    pure id (
      record i { ip_callbacks = Map.insert id callback i.ip_callbacks },
      record w { callback_ids = record w.callback_ids { next_ip = id + 1 } },
    )

unfoldable pub register_dns_callback : ℕ → Exec (Interface × World) ℕ
unfolding Map.insert
register_dns_callback callback (i, w) =
    let id = w.callback_ids.next_dns in
    pure id (
      record i { dns_callbacks = Map.insert id callback i.dns_callbacks },
      record w { callback_ids = record w.callback_ids { next_dns = id + 1 } },
    )

unfoldable pub register_status_callback : ℕ → Exec (Interface × World) ℕ
unfolding Map.insert
register_status_callback callback (i, w) =
    let id = w.callback_ids.next_status in
    pure id (
      record i { status_callbacks = Map.insert id callback i.status_callbacks },
      record w { callback_ids = record w.callback_ids { next_status = id + 1 } },
    )
