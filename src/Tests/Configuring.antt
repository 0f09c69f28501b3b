-- ===== src/Tests/Configuring.antt =====
-- Interfaces that are set up by a file, and by an answer of the resolver.
use tu_thesis.Base.{
  ◌≡◌, ◌++◌, ◌&&◌, true, refl, some, none, inl, List, [], ◌∷◌, arith, if◌then◌else◌, All,
}
use tu_thesis.Text.Bytes.{Bytes, bytes, same, before}
use tu_thesis.Exec.{ok}
use tu_thesis.Map
use tu_thesis.Text.Number.{to_string}
use tu_thesis.Map.{Map, bytes_key}
use tu_thesis.World.{World}
use tu_thesis.Ip.{new_ip}
use tu_thesis.DhcpClient.Receive.{Answer, answer_line, newline}
use tu_thesis.EthernetController.{renew, new_controller}
use tu_thesis.EthernetController.Leased.{renew_leased}
use tu_thesis.FileConfigurator.{Reader, configure, to_lower}
use tu_thesis.FileConfigurator.Configured.{Section, Fits, after, configure_interfaces}
use tu_thesis.Tests.{quiet, eth0, eth1, with_interfaces}

abbrev wlan0 : Bytes
wlan0 = bytes "wlan0"

-- `eth0` has an address, `eth1` has none, and `wlan0` is of another type.
abbrev get : Bytes → Bytes → Bytes → Bytes
get section key default =
    if same key (bytes "type")
    then (if same section wlan0 then bytes "wireless" else bytes "Ethernet")
    else if same section eth0 && same key (bytes "ip")
    then bytes "192.168.1.1"
    else default

abbrev open_reader : Bytes → Reader
open_reader file = record {
  parsed = true;
  sections = eth0 ∷ eth1 ∷ wlan0 ∷ [];
  get = get;
  get_integer = λ section key default. default;
}

abbrev sections : List Section
sections =
    record { name = eth0; controller = some (new_controller eth0) }
    ∷ record { name = eth1; controller = some (new_controller eth1) }
    ∷ record { name = wlan0; controller = none }
    ∷ []

abbrev machine : World
machine = with_interfaces quiet

abbrev conf : Map Bytes Bytes
conf = Map.insert (bytes "file") (bytes "interfaces.ini") Map.empty

sections-Fits : All (Fits (open_reader (bytes "interfaces.ini")) machine) sections
unfolding bytes same before Map.lookup Map.insert to_lower
sections-Fits = (
  record { ethernet = refl; known = refl; no_range = refl; accepts = λ trace. refl },
  (
    record { ethernet = refl; known = refl; no_range = refl; accepts = λ trace. refl },
    (inl refl, tt),
  ),
)

configure_interfaces_example :
    let (r, (file', w')) = configure open_reader conf ([], machine) in
    (r ≡ ok tt)
    × (file' ≡ bytes "interfaces.ini")
    × (Map.lookup eth0 w'.interfaces
        ≡ after
            (open_reader (bytes "interfaces.ini"))
            sections
            eth0
            (Map.lookup eth0 machine.interfaces))
unfolding bytes same before Map.lookup Map.insert
configure_interfaces_example =
    configure_interfaces open_reader conf [] (bytes "interfaces.ini") sections eth0 machine refl
      refl refl ((refl, (refl, tt)), ((refl, tt), (tt, tt))) sections-Fits

abbrev answer : Answer
answer = record {
  server = bytes "10.0.0.1";
  ip = bytes "10.0.0.7";
  mask = bytes "255.255.255.0";
  broadcast = bytes "10.0.0.255";
  gateway = bytes "10.0.0.1";
  lease = 7200;
  dns_servers = bytes "1.1.1.1" ∷ bytes "8.8.8.8" ∷ [];
}

abbrev leasing : World
leasing = record quiet { output = λ trace cmd. some (answer_line answer) }

renew_leased_example :
    let done = renew (new_controller eth0, leasing) in
    (done.0 ≡ ok tt)
    × (done.1.0.dhcp_client.lease ≡ some 7200)
    × (done.1.0.dhcp_client.dns_servers ≡ bytes "1.1.1.1" ∷ (bytes "8.8.8.8" ++ newline) ∷ [])
    × (done.1.0.interface ≡ record (new_controller eth0).interface {
      ip = new_ip (bytes "10.0.0.7");
      mask = new_ip (bytes "255.255.255.0");
      gateway = new_ip (bytes "10.0.0.1");
      dns_servers = new_ip (bytes "1.1.1.1") ∷ new_ip (bytes "8.8.8.8" ++ newline) ∷ [];
    })
unfolding bytes to_string
renew_leased_example =
    renew_leased answer (new_controller eth0) leasing
      (refl, refl, refl, refl, refl, (refl, (refl, tt))) (omega arith) refl refl refl
