-- ===== src/World/Data.antt =====
-- The fields of the classes whose objects are shared or are named in the world's state.
use tu_thesis.Base.{ℕ, Bool, List, Option}
use tu_thesis.Base.Int.{ℤ}
use tu_thesis.Text.Bytes.{Bytes}
use tu_thesis.Map.{Map}

-- class IP (Interface/include/IP.hpp)
pub record Ip : Type 0 where
  pub ip : Bytes

-- class Interface (Interface/include/Interface.hpp). The constructor leaves `status` unset.
pub record Interface : Type 0 where
  pub interface_name : Bytes
  pub status : Option Bool
  pub ip : Ip
  pub mask : Ip
  pub gateway : Ip
  pub dns_servers : List Ip
  pub gateway_callbacks : Map ℕ ℕ
  pub ip_callbacks : Map ℕ ℕ
  pub dns_callbacks : Map ℕ ℕ
  pub status_callbacks : Map ℕ ℕ

-- class DHCPClient (DHCPClient/include/DHCPClient.hpp). The constructor leaves `lease` unset.
pub record DhcpClient : Type 0 where
  pub interface : Bytes
  pub running : Bool
  pub dhcp_server : Bytes
  pub ip : Bytes
  pub mask : Bytes
  pub broadcast : Bytes
  pub gateway : Bytes
  pub dns_servers : List Bytes
  pub lease : Option ℕ

-- class EthernetController (InterfaceControllers/include/EthernetController.hpp). Its configuration
-- of the DHCP server is a pointer to a dnsmasq configuration.
pub record EthernetController : Type 0 where
  pub interface : Interface
  pub dhcp_client : DhcpClient
  pub dhcp_server_configuration : Option ℕ

-- class Route (Route/include/Route.hpp)
pub record Route : Type 0 where
  pub destination : Ip
  pub gateway : Ip
  pub metric : ℤ
  pub interface_name : Bytes
  pub table_name : Bytes

-- class RouteRule (RouteRule/include/RouteRule.hpp)
pub record RouteRule : Type 0 where
  pub priority : ℕ
  pub lookup : ℕ
  pub additional_data : Bytes

-- class IPSet (IPSet/include/IPSet.hpp)
pub record IpSet : Type 0 where
  pub name : Bytes
  pub ips : List Bytes

-- class TrafficSpecialization (TrafficSpecialization/include/TrafficSpecialization.hpp)
pub record TrafficSpecialization : Type 0 where
  pub route_rule : ℕ
  pub routes : List ℕ
  pub ipset : ℕ
  pub mangle_prerouting_chain : ℕ
  pub mangle_output_chain : ℕ

-- What a callback of an interface is called with.
pub data Notice : Type 0 where
  gateway_is : Ip → Notice
  ip_is : Ip → Ip → Notice
  dns_is : List Ip → Notice
  status_is : Bool → Notice

-- A detached thread that runs a callback. A callback is named by a number.
pub record Spawn : Type 0 where
  pub callback : ℕ
  pub notice : Notice

-- `static int id` of `registerCallback`: one counter for each instantiation of the template.
pub record CallbackIds : Type 0 where
  pub next_gateway : ℕ
  pub next_ip : ℕ
  pub next_dns : ℕ
  pub next_status : ℕ

-- class ChainRule (XTables/include/ChainRule.hpp)
pub record ChainRule : Type 0 where
  pub table_name : Bytes
  pub chain_name : Bytes
  pub rule : Bytes

-- class Chain (XTables/include/Chain.hpp)
pub record Chain : Type 0 where
  pub created : Bool
  pub table_name : Bytes
  pub name : Bytes
  pub package_rules : Map ℕ ChainRule

-- class Table (XTables/include/Table.hpp): the weak pointers are numbers
pub record Table : Type 0 where
  pub name : Bytes
  pub chains : Map Bytes ℕ

-- class DNSMasqConfiguration (DNSMasqConfiguration/include/DNSMasqConfiguration.hpp)
pub record Configuration : Type 0 where
  pub file_name : Bytes
  pub configuration : List (Bytes × Bytes)
