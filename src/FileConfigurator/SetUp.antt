-- ===== src/FileConfigurator/SetUp.antt =====
-- What a section of the file makes of its interface.
use tu_thesis.Base.{◌≡◌, inl, inr, refl, true, false, some, [], ◌∷◌, ◌++◌, ◌==◌, map, Bool-cases}
use tu_thesis.Text.Bytes.{Bytes, bytes}
use tu_thesis.Exec.{ok}
use tu_thesis.World.{World, EthernetController, DhcpClient}
use tu_thesis.Ip.{new_ip}
use tu_thesis.System.{call_or_throw_lem}
use tu_thesis.Interface.{ip_command, set_gw, set_dns, enable}
use tu_thesis.Interface.Changes.{set_ip_lem}
use tu_thesis.DhcpClient.{start, stop}
use tu_thesis.EthernetController.{set_static, use_dhcp, configure_interface}
use tu_thesis.FileConfigurator.{Reader, dns_servers, set_up}

start_lem : (c : DhcpClient) → start c ≡ (ok tt, record c { running = true })
unfolding start
start_lem c = elim (Bool-cases c.running) [ inl runs ↦ rw runs refl | inr idle ↦ rw idle refl ]

stop_lem : (c : DhcpClient) → stop c ≡ (ok tt, record c { running = false })
unfolding stop
stop_lem c = elim (Bool-cases c.running) [ inl runs ↦ rw runs refl | inr idle ↦ rw idle refl ]

module _ (reader : Reader) (name : Bytes) where
  abbrev netmask : Bytes
  netmask = reader.get name (bytes "netmask") (bytes "255.255.255.0")

  -- The command that the set-up of the interface runs.
  abbrev pub command_of : Bytes → EthernetController → Bytes
  command_of [] e = bytes "ifconfig " ++ (e.interface.interface_name ++ bytes " up")
  command_of (c ∷ cs) e = ip_command e.interface.interface_name (new_ip (c ∷ cs)) (new_ip netmask)

  -- With an address the client is stopped and the interface has what the file says; without one the
  -- interface is up and the client runs.
  abbrev pub configured_of : Bytes → EthernetController → EthernetController
  configured_of [] e = record e {
    interface = record e.interface { status = some true };
    dhcp_client = record e.dhcp_client { running = true };
  }
  configured_of (c ∷ cs) e = record e {
    interface = record e.interface {
      ip = new_ip (c ∷ cs);
      mask = new_ip netmask;
      gateway = new_ip (reader.get name (bytes "gateway") []);
      dns_servers = map new_ip (
          dns_servers (reader.get name (bytes "dns_server1") [])
            (reader.get name (bytes "dns_server2") []));
    };
    dhcp_client = record e.dhcp_client { running = false };
  }

  pub set_up_lem :
      (ip : Bytes) (e : EthernetController) (w : World)
      → reader.get name (bytes "dhcp-range") [] ≡ []
      → (w.shell w.trace (command_of ip e) == 0) ≡ true
      → let (r, (e', w')) = set_up reader name ip (e, w) in
        (r ≡ ok tt)
        × (e' ≡ configured_of ip e)
        × (w'.interfaces ≡ w.interfaces)
        × (w'.shell ≡ w.shell)
  unfolding use_dhcp enable set_static configure_interface set_gw set_dns
  set_up_lem [] e w no_range takes =
      rw call_or_throw_lem (rw takes (rw (start_lem e.dhcp_client) (refl, refl, refl, refl)))
  set_up_lem (c ∷ cs) e w no_range takes =
      rw (stop_lem e.dhcp_client) (rw set_ip_lem (rw takes (rw no_range (refl, refl, refl, refl))))
