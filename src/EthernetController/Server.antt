-- ===== src/EthernetController/Server.antt =====
-- InterfaceControllers/src: what `setDHCPServer` leaves behind.
use tu_thesis.DnsMasq.Configuration.Uses.{release_configuration-Shows}
use tu_thesis.Shared.Uses.{uses_at}
use tu_thesis.DhcpServer.Served.{
  known_name-Shows, create_configuration-Shows, new_name-Shows, served,
}
use tu_thesis.DnsMasq.Configuration.InSync.{Shows}
use tu_thesis.Exec.{ok}
use tu_thesis.DhcpServer.Lease.{Written}
use tu_thesis.Map
use tu_thesis.World.{World, EthernetController}
use tu_thesis.EthernetController.{set_dhcp_server}
use tu_thesis.Base.{List, ℕ, ◌≤◌, ◌≡◌, ◌≢◌, refl, true, none, some, [], ◌++◌, ◌+◌, ◌∙◌}
use tu_thesis.Text.Bytes.{Bytes, bytes}
use tu_thesis.DnsMasq.Controller.{file_of}
use tu_thesis.Interface.{get_name}
use tu_thesis.Map.{bytes_key}

-- On a controller that serves no range yet, a range whose two ends are not empty and a lease of at
-- least two minutes, for a first address that no configuration is named after and a file that can be
-- written: the method succeeds, the controller holds the configuration made, and the file
-- of dnsmasq shows the interface and the range with the time of the lease, and no other line.
pub set_dhcp_server-serves :
    (first last : Bytes) (lease : ℕ) (e : EthernetController) (w : World)
    → first ≢ []
    → last ≢ []
    → 120 ≤ lease
    → e.dhcp_server_configuration ≡ none
    → Map.lookup (bytes "dhcp-" ++ first) w.configurations ≡ none
    → w.writable (file_of (bytes "dhcp-" ++ first)) ≡ true
    → (time : Bytes) × Written lease time
      × ((set_dhcp_server first last lease (e, w)).0 ≡ ok tt)
      × ((set_dhcp_server first last lease (e, w)).1.0
          ≡ record e { dhcp_server_configuration = some w.confs.next })
      × Shows w.confs.next
          (file_of (bytes "dhcp-" ++ first))
          (served (get_name e.interface) first last time)
          (set_dhcp_server first last lease (e, w)).1.1
unfolding set_dhcp_server
set_dhcp_server-serves first last lease e w f l long free unknown writable =
    let (made, shows) = new_name-Shows (bytes "dhcp-" ++ first) [] w unknown writable in
    let (time, written, done, s, _) =
      create_configuration-Shows (get_name e.interface) first last lease w _ _ _ f l long made
        shows in
    (
      time,
      written,
      rw (done, free) refl,
      rw done refl,
      rw (done, free) (record { object = s.object; file = s.file; writable = s.writable }),
    )

-- On a controller that serves the configuration named after the same first address, whose file can be
-- written, a range whose two ends are not empty and a lease of at least two minutes: the method succeeds, the controller is as it was, and the lines of the new range follow the
-- lines of the old one, which stay in the object and in the file.
pub set_dhcp_server_again :
    (first last file : Bytes) (lines : List (Bytes × Bytes)) (lease p n : ℕ)
    (e : EthernetController) (w : World)
    → first ≢ []
    → last ≢ []
    → 120 ≤ lease
    → e.dhcp_server_configuration ≡ some p
    → Map.lookup (bytes "dhcp-" ++ first) w.configurations ≡ some p
    → Shows p file lines w
    → uses_at p w.confs ≡ some (n + 1)
    → (time : Bytes) × Written lease time
      × ((set_dhcp_server first last lease (e, w)).0 ≡ ok tt)
      × ((set_dhcp_server first last lease (e, w)).1.0 ≡ e)
      × Shows p file
          (lines ++ served (get_name e.interface) first last time)
          (set_dhcp_server first last lease (e, w)).1.1
unfolding set_dhcp_server
set_dhcp_server_again first last file lines lease p n e w f l long serves known s several =
    let (made, shows, more) =
      known_name-Shows (bytes "dhcp-" ++ first) file lines p n w known s several in
    let (time, written, done, s', uses) =
      create_configuration-Shows (get_name e.interface) first last lease w p file lines f l long
        made shows in
    let (released, s'') = release_configuration-Shows p n file _ _ s' (uses ∙ more) in
    (
      time,
      written,
      rw (done, serves) (rw released refl),
      rw (done, ← serves) refl,
      rw (done, serves) s'',
    )
