-- ===== src/Tests/Startup.antt =====
-- What the program reads at its start, and a static address, on concrete machines.
use tu_thesis.Base.{true, if◌then◌else◌, ◌≡◌, refl, false, none, some, [], ◌∷◌}
use tu_thesis.Text.Bytes.{bytes, same}
use tu_thesis.Exec.{throw, runtime_error}
use tu_thesis.Map
use tu_thesis.Map.{bytes_key, nat_key}
use tu_thesis.XTables.Table.{is_listed}
use tu_thesis.Interface.{new_interface}
use tu_thesis.EthernetController.{new_controller}
use tu_thesis.Text.Stream.Split.{split}
use tu_thesis.NetworkManager.{Ini, get_plugin_configuration}
use tu_thesis.NetworkManager.Destinations.{routing_specializer_entries}
use tu_thesis.FileConfigurator.{Reader, to_lower, configure_sections}
use tu_thesis.FileConfigurator.Sections.{sections_skipped}
use tu_thesis.Base.{inl}
use tu_thesis.Tests.{with_interfaces, eth1, eth1, quiet, broken, eth0}
use tu_thesis.EthernetController.{set_static}
use tu_thesis.EthernetController.Static.{set_static_lem}

-- A configuration file with two interfaces for either plugin, and destinations for one of them.
abbrev reader : Ini
reader section name =
    if same name (bytes "interfaces")
    then some (bytes "eth0,eth1")
    else if same name eth0
    then some (bytes "10.0.0.1,10.0.0.2")
    else none

routing_specializer_entries_example :
    Map.lookup eth1 (get_plugin_configuration reader (bytes "routing_specializer")) ≡ some []
unfolding bytes same split is_listed
routing_specializer_entries_example = routing_specializer_entries reader eth1

-- Every section has an address, and each but that of eth0 is of type wifi.
abbrev file_reader : Reader
file_reader = record {
  parsed = true;
  sections = bytes "wlan0" ∷ eth0 ∷ [];
  get = λ section name default.
      if same name (bytes "type")
      then if same section eth0 then bytes "Ethernet" else bytes "wifi"
      else if same name (bytes "ip")
      then bytes "10.0.0.2"
      else default;
  get_integer = λ section name default. default;
}

sections_skipped_example :
    configure_sections file_reader (bytes "wlan0" ∷ eth1 ∷ eth0 ∷ []) (with_interfaces quiet)
    ≡ configure_sections file_reader (eth0 ∷ []) (with_interfaces quiet)
unfolding bytes same to_lower
sections_skipped_example =
    sections_skipped file_reader (bytes "wlan0" ∷ eth1 ∷ []) (eth0 ∷ []) (with_interfaces quiet)
      (inl refl, (inl refl, tt))

set_static_lem_example :
    let done =
      set_static
        (bytes "10.0.0.2")
        (bytes "255.0.0.0")
        (bytes "10.0.0.1")
        (bytes "9.9.9.9" ∷ [])
        (new_controller eth0, broken) in
    (done.0 ≡ throw (runtime_error (bytes "Failed to setup the interface")))
    × (done.1.0.dhcp_client.running ≡ false)
    × (done.1.0.interface ≡ new_interface eth0)
set_static_lem_example =
    set_static_lem (bytes "10.0.0.2") (bytes "255.0.0.0") (bytes "10.0.0.1") (bytes "9.9.9.9" ∷ [])
      (new_controller eth0) broken
