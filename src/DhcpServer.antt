-- ===== src/DhcpServer.antt =====
-- src/DHCPServer: a range of addresses that dnsmasq serves.
pub mod Lease
pub mod Served
use tu_thesis.Base.{ℕ, ◌/◌, [], ◌∷◌, ◌++◌, ltb, if◌then◌else◌}
use tu_thesis.Text.Bytes.{Bytes, bytes}
use tu_thesis.Text.Number.{to_string}
use tu_thesis.Exec.{Exec, Outcome, ok, throw, invalid_argument, pure, lift, ◌>>=◌, ◌>>◌}
use tu_thesis.World.{World}
use tu_thesis.DnsMasq.Configuration.{add_one}
use tu_thesis.DnsMasq.Controller.{add_configuration, reload}

-- `if(text.empty()) throw std::invalid_argument(message);`
abbrev pub not_empty : Bytes → Bytes → Outcome (Unit {0})
not_empty [] message = throw (invalid_argument message)
not_empty (_ ∷ _) message = ok tt

-- `lease_string`: whole hours above an hour, and whole minutes up to it.
unfoldable pub lease_string : ℕ → Outcome Bytes
lease_string lease =
    if ltb lease 120
    then throw (invalid_argument (bytes "(lease time cannot be less then 2 minutes(120s)"))
    else if ltb 3600 lease
    then ok (bytes "," ++ (to_string (lease / 60 / 60) ++ bytes "h"))
    else ok (bytes "," ++ (to_string (lease / 60) ++ bytes "m"))

-- `DNSMasqDHCPServerConfiguration::DNSMasqDHCPServerConfiguration`, which `DHCPServer::createConfiguration`
-- calls. The result is the pointer `conf`.
unfoldable pub create_configuration : Bytes → Bytes → Bytes → ℕ → Exec World ℕ
create_configuration interface_name ip_range_start ip_range_end lease = do
  lift (not_empty ip_range_start (bytes "starting ip is empty!"))
  lift (not_empty ip_range_end (bytes "ending ip is empty!"))
  time ← lift (lease_string lease)
  conf ← add_configuration (bytes "dhcp-" ++ ip_range_start) []
  add_one conf (bytes "interface") interface_name
  add_one conf (bytes "dhcp-range")
      (interface_name ++ (bytes "," ++ (ip_range_start ++ (bytes "," ++ (ip_range_end ++ time)))))
  reload
  pure conf
