-- ===== src/EthernetController.antt =====
-- InterfaceControllers/src: the controller of an interface.
pub mod Server
pub mod Leased
pub mod Static
pub mod Thread
use tu_thesis.Base.{ℕ, Option, none, some, List, [], ◌∷◌, ◌++◌, map}
use tu_thesis.Text.Bytes.{Bytes, bytes}
use tu_thesis.Exec.{Exec, Outcome, pure, on_world, assign, ◌>>=◌, ◌>>◌}
use tu_thesis.World.{World, Interface, DhcpClient, EthernetController, Ip}
use tu_thesis.Ip.{new_ip}
use tu_thesis.Interface.{new_interface, get_name, set_ip, set_gw, set_dns, enable}
use tu_thesis.DhcpClient.{new_client, receive, start, stop}
use tu_thesis.DhcpServer.{create_configuration}
use tu_thesis.DnsMasq.Configuration.{release_configuration}
use tu_thesis.System.{exec}

-- The constructor.
abbrev pub new_controller : Bytes → EthernetController
new_controller interface_name = record {
  interface = new_interface interface_name;
  dhcp_client = new_client interface_name;
  dhcp_server_configuration = none;
}

-- `InterfaceController::getGW`, `getName` and `getDNSServers`
abbrev pub get_gw : EthernetController → Bytes
get_gw e = e.interface.gateway.ip

abbrev pub get_dns_servers : EthernetController → List Bytes
get_dns_servers e = map (λ (a : Ip). a.ip) e.interface.dns_servers

-- A call of a method of the member `interface`.
abbrev pub on_interface {ℓ} :
    {A : Type ℓ} → Exec (Interface × World) A → Exec (EthernetController × World) A
on_interface m (e, w) = let (r, s) = m (e.interface, w) in (r, (record e { interface = s.0 }, s.1))

-- A call of a method of the member `dhcp_client` that uses nothing else.
abbrev pub on_client {ℓ} : {A : Type ℓ} → Exec DhcpClient A → Exec (EthernetController × World) A
on_client m (e, w) = let (r, c) = m e.dhcp_client in (r, (record e { dhcp_client = c }, w))

-- `configureInterface`, which is also the callback of the DHCP client.
unfoldable pub configure_interface :
    Bytes → Bytes → Bytes → List Bytes → Exec (EthernetController × World) (Unit {0})
configure_interface ip netmask gateway dns_servers = on_interface (do
  set_ip (new_ip ip) (new_ip netmask)
  set_gw (new_ip gateway)
  set_dns (map new_ip dns_servers))

-- `setStatic`. Stopping the client ends its thread, if one runs.
unfoldable pub set_static :
    Bytes → Bytes → Bytes → List Bytes → Exec (EthernetController × World) (Unit {0})
set_static ip netmask gateway dns_servers = do
  on_client stop
  configure_interface ip netmask gateway dns_servers

-- `useDHCP`. Starting the client starts its thread, if none runs.
unfoldable pub use_dhcp : Exec (EthernetController × World) (Unit {0})
use_dhcp = do on_interface enable; on_client start

abbrev pub deliver :
    Bytes → EthernetController × World → Outcome (Unit {0}) × (EthernetController × World)
deliver [] = pure tt
deliver (x ∷ text) = do
  on_client (receive (x ∷ text))
  (λ (e, w).
      configure_interface e.dhcp_client.ip e.dhcp_client.mask e.dhcp_client.gateway
        e.dhcp_client.dns_servers (e, w))

-- One round of `DHCPClient::run`: an exception ends the thread, and with it the program.
unfoldable pub renew : Exec (EthernetController × World) (Unit {0})
renew (e, w) =
    (do
      text ← on_world (exec (bytes "./dhcpresolver -T " ++ e.dhcp_client.interface))
      deliver text)
      (e, w)

abbrev release_old : Option ℕ → Exec World (Unit {0})
release_old none = pure tt
release_old (some p) = release_configuration p

-- `setDHCPServer`: the new configuration is made before the pointer to the old one goes away.
unfoldable pub set_dhcp_server : Bytes → Bytes → ℕ → Exec (EthernetController × World) (Unit {0})
set_dhcp_server ip_range_start ip_range_end lease (e, w) =
    (do
      conf ←
          on_world (create_configuration (get_name e.interface) ip_range_start ip_range_end lease)
      assign (λ e. record e { dhcp_server_configuration = some conf })
      on_world (release_old e.dhcp_server_configuration))
      (e, w)
