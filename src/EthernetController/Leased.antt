-- ===== src/EthernetController/Leased.antt =====
-- A round of the DHCP client's thread, from the resolver's output to the interface.
use tu_thesis.Base.{
  ap, ◌≡◌, ◌≢◌, ◌<◌, ◌^◌, refl, true, false, some, List, [], ◌∷◌, ◌++◌, ◌==◌, map, has,
}
use tu_thesis.Text.Bytes.{Bytes, bytes}
use tu_thesis.Exec.{ok}
use tu_thesis.World.{World, EthernetController, DhcpClient}
use tu_thesis.Ip.{new_ip}
use tu_thesis.System.{issue}
use tu_thesis.System.Output.{exec_whole}
use tu_thesis.Interface.{ip_command, set_gw, set_dns}
use tu_thesis.Interface.Changes.{set_ip_lem}
use tu_thesis.DhcpClient.{receive}
use tu_thesis.DhcpClient.Receive.{Answer, IsAnswer, answer_line, received, receive_answer}
use tu_thesis.EthernetController.{renew, deliver, configure_interface}

configure_interface_accepted :
    (ip netmask gateway : Bytes) (servers : List Bytes) (e : EthernetController) (w : World)
    → (w.shell w.trace (ip_command e.interface.interface_name (new_ip ip) (new_ip netmask)) == 0)
      ≡ true
    → let done = configure_interface ip netmask gateway servers (e, w) in
      (done.0 ≡ ok tt)
      × (done.1.0 ≡ record e {
        interface = record e.interface {
          ip = new_ip ip;
          mask = new_ip netmask;
          gateway = new_ip gateway;
          dns_servers = map new_ip servers;
        };
      })
unfolding configure_interface set_gw set_dns
configure_interface_accepted ip netmask gateway servers e w takes =
    rw set_ip_lem (rw takes (refl, refl))

deliver_received :
    (text : Bytes) (c : DhcpClient) (e : EthernetController) (w : World)
    → text ≢ []
    → receive text e.dhcp_client ≡ (ok tt, c)
    → deliver text (e, w)
      ≡ configure_interface c.ip c.mask c.gateway c.dns_servers (record e { dhcp_client = c }, w)
deliver_received [] c e w h received = absurd (h refl)
deliver_received (x ∷ text) c e w h received = rw received refl

append_cons-ne-nil {ℓ} : {A : Type ℓ} (xs : List A) (y : A) (ys : List A) → (xs ++ (y ∷ ys)) ≢ []
append_cons-ne-nil [] y ys h = cc
append_cons-ne-nil (x ∷ xs) y ys h = cc

-- If the resolver prints a line of five fields without commas, a lease that an int holds and name
-- servers, as pt_recvmessage_dhcp does, no NUL among them, and ifconfig accepts the address: the round
-- returns, the client has the lease, and the interface has the address, the mask and the gateway of the
-- line, and the name servers of the line behind those of all earlier lines; the last one of the line
-- keeps the end of the line.
pub renew_leased :
    (a : Answer) (e : EthernetController) (w : World)
    → IsAnswer a
    → a.lease < 2 ^ 31
    → has 0 (answer_line a) ≡ false
    → let cmd = bytes "./dhcpresolver -T " ++ e.dhcp_client.interface in
      w.output w.trace cmd ≡ some (answer_line a)
      → (w.shell
            (issue cmd w).trace
            (ip_command e.interface.interface_name (new_ip a.ip) (new_ip a.mask))
          == 0)
        ≡ true
      → let done = renew (e, w) in
        (done.0 ≡ ok tt)
        × (done.1.0.dhcp_client.lease ≡ some a.lease)
        × (done.1.0.dhcp_client.dns_servers ≡ e.dhcp_client.dns_servers ++ received a.dns_servers)
        × (done.1.0.interface ≡ record e.interface {
          ip = new_ip a.ip;
          mask = new_ip a.mask;
          gateway = new_ip a.gateway;
          dns_servers = map new_ip (e.dhcp_client.dns_servers ++ received a.dns_servers);
        })
unfolding renew
renew_leased a e w fields small clean prints takes =
    let cmd = bytes "./dhcpresolver -T " ++ e.dhcp_client.interface in
    let c : DhcpClient = record e.dhcp_client {
      dhcp_server = a.server;
      ip = a.ip;
      mask = a.mask;
      broadcast = a.broadcast;
      gateway = a.gateway;
      lease = some a.lease;
      dns_servers = e.dhcp_client.dns_servers ++ received a.dns_servers;
    } in
    let (done, is) =
      configure_interface_accepted a.ip a.mask a.gateway c.dns_servers
        (record e { dhcp_client = c }) (issue cmd w) takes in
    rw (exec_whole cmd (answer_line a) w prints clean) (
      rw
        (deliver_received (answer_line a) c e (issue cmd w) (append_cons-ne-nil a.server b',' _)
          (receive_answer a e.dhcp_client fields small))
        (
          done,
          ap (λ (d : EthernetController). d.dhcp_client.lease) is,
          ap (λ (d : EthernetController). d.dhcp_client.dns_servers) is,
          ap (λ (d : EthernetController). d.interface) is,
        ))
