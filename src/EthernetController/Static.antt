-- ===== src/EthernetController/Static.antt =====
-- A static address of an interface.
use tu_thesis.Base.{◌≡◌, refl, false, Bool-cases, inl, inr, ◌==◌, List, map, if◌then◌else◌}
use tu_thesis.Text.Bytes.{Bytes, bytes}
use tu_thesis.Exec.{ok, throw, runtime_error}
use tu_thesis.World.{World, EthernetController}
use tu_thesis.Ip.{new_ip}
use tu_thesis.Interface.{ip_command, set_gw, set_dns}
use tu_thesis.Interface.Changes.{set_ip_lem}
use tu_thesis.DhcpClient.{stop}
use tu_thesis.EthernetController.{set_static, configure_interface}

-- `setStatic` stops the DHCP client in any case. If ifconfig accepts the address, the interface has the
-- address, the mask, the gateway and the name servers that were given; if it refuses, an exception
-- tells, and the interface has none of them but is as it was.
pub set_static_lem :
    (ip netmask gateway : Bytes) (servers : List Bytes) (e : EthernetController) (w : World)
    → let accepted =
        w.shell w.trace (ip_command e.interface.interface_name (new_ip ip) (new_ip netmask)) == 0 in
      let done = set_static ip netmask gateway servers (e, w) in
      (done.0 ≡ (
        if accepted then ok tt else throw (runtime_error (bytes "Failed to setup the interface"))))
      × (done.1.0.dhcp_client.running ≡ false)
      × (done.1.0.interface ≡ (
          if accepted
          then record e.interface {
            ip = new_ip ip;
            mask = new_ip netmask;
            gateway = new_ip gateway;
            dns_servers = map new_ip servers;
          }
          else e.interface))
unfolding set_static configure_interface stop set_gw set_dns
set_static_lem ip netmask gateway servers e w =
    let accepted =
      w.shell w.trace (ip_command e.interface.interface_name (new_ip ip) (new_ip netmask)) == 0 in
    elim (Bool-cases e.dhcp_client.running) [
      | inl running ↦ rw running (
          rw set_ip_lem (elim (Bool-cases accepted) [
            | inl takes ↦ rw takes (refl, refl, refl)
            | inr fails ↦ rw fails (refl, refl, refl)
          ]))
      | inr stopped ↦ rw stopped (
          rw set_ip_lem (elim (Bool-cases accepted) [
            | inl takes ↦ rw takes (refl, refl, refl)
            | inr fails ↦ rw fails (refl, refl, refl)
          ]))
    ]
