-- ===== src/Tests/Serving.antt =====
-- An interface on which a range of addresses is served.
use tu_thesis.Shared.{object_at-allocate}
use tu_thesis.DnsMasq.Configuration.{render}
use tu_thesis.EthernetController.Server.{set_dhcp_server_again, set_dhcp_server-serves}
use tu_thesis.DnsMasq.Configuration.InSync.{Shows}
use tu_thesis.Exec.{ok}
use tu_thesis.EthernetController.{set_dhcp_server, new_controller}
use tu_thesis.DhcpServer.Lease.{Written}
use tu_thesis.Base.{List, ◌≡◌, refl, arith, some, ◌++◌}
use tu_thesis.Text.Bytes.{Bytes, bytes}
use tu_thesis.DnsMasq.Controller.{file_of}
use tu_thesis.DhcpServer.Served.{served}
use tu_thesis.Map
use tu_thesis.Shared
use tu_thesis.Map.{lookup-insert_self, bytes_key}
use tu_thesis.World.{World, EthernetController}
use tu_thesis.Tests.{quiet, eth0}

abbrev first : Bytes
first = bytes "10.0.0.2"

abbrev last : Bytes
last = bytes "10.0.0.9"

abbrev controller : EthernetController
controller = new_controller eth0

set_dhcp_server-serves_example :
    (time : Bytes) × Written 7205 time
    × ((set_dhcp_server first last 7205 (controller, quiet)).0 ≡ ok tt)
    × ((set_dhcp_server first last 7205 (controller, quiet)).1.0
        ≡ record controller { dhcp_server_configuration = some quiet.confs.next })
    × Shows quiet.confs.next
        (file_of (bytes "dhcp-" ++ first))
        (served eth0 first last time)
        (set_dhcp_server first last 7205 (controller, quiet)).1.1
unfolding bytes Map.lookup
set_dhcp_server-serves_example =
    set_dhcp_server-serves first last 7205 controller quiet (λ h. cc) (λ h. cc) (omega arith) refl
      refl refl

abbrev old_lines : List (Bytes × Bytes)
old_lines = served eth0 first (bytes "10.0.0.5") (bytes ",2h")

-- The configuration of the address is in use.
abbrev in_use : World
in_use = record quiet {
  confs =
      Shared.allocate
        (record { file_name = file_of (bytes "dhcp-" ++ first); configuration = old_lines })
        quiet.confs;
  configurations = Map.insert (bytes "dhcp-" ++ first) quiet.confs.next Map.empty;
  files = Map.insert (file_of (bytes "dhcp-" ++ first)) (render old_lines) Map.empty;
}

abbrev serving : EthernetController
serving = record controller { dhcp_server_configuration = some quiet.confs.next }

set_dhcp_server_again_example :
    (time : Bytes) × Written 7205 time
    × ((set_dhcp_server first last 7205 (serving, in_use)).0 ≡ ok tt)
    × ((set_dhcp_server first last 7205 (serving, in_use)).1.0 ≡ serving)
    × Shows quiet.confs.next
        (file_of (bytes "dhcp-" ++ first))
        (old_lines ++ served eth0 first last time)
        (set_dhcp_server first last 7205 (serving, in_use)).1.1
unfolding bytes Shared.allocate
set_dhcp_server_again_example =
    set_dhcp_server_again first last (file_of (bytes "dhcp-" ++ first)) old_lines 7205
      quiet.confs.next 0 serving in_use (λ h. cc) (λ h. cc) (omega arith) refl
      (lookup-insert_self _ _ _)
      (record {
        object = object_at-allocate _ quiet.confs;
        file = lookup-insert_self _ _ _;
        writable = refl;
      })
      refl
