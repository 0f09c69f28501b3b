-- ===== src/Lib.antt =====
-- The network manager of a Linux router: a program that shares internet connections, routes traffic
-- by its destination, and is configured through a web page. Paths are from the repository's root.
--
-- The parts, and the modules that model them:
--   src/System                    System: `call` and `exec` run commands of the shell
--   src/Interface                 Ip, Interface: an interface with callbacks on its changes
--   src/DHCPClient                DhcpClient: what the line of the resolver sets, and `stop`
--   src/InterfaceControllers      EthernetController: an interface with its DHCP client and server;
--                                 its Thread: the client's thread beside the callers' calls
--   src/Route, RouteRule, IPSet   Route, RouteRule, IpSet: objects whose constructors and destructors
--                                 run `ip route`, `ip rule` and `ipset`
--   src/XTables                   XTables: rules, chains and tables of iptables
--   src/DNSMasqConfiguration      DnsMasq.Configuration: a file of lines, and its object
--   src/DNSMasqController         DnsMasq.Controller: the files by name, and the service
--   src/DHCPServer                DhcpServer: a range of addresses, as lines for dnsmasq
--   src/NetworkFactory            NetworkFactory: the registry from which the plugins take all of these
--   src/InternetSwitchers         PingSwitcher: the plugin that chooses the interface to the internet
--   src/TrafficSpecialization     TrafficSpecialization: marked traffic with a routing table of its own
--   src/RoutingSpecializer        RoutingSpecializer: the plugin that keeps one for each interface
--   src/NetworkManager            NetworkManager: the configuration that a plugin is started with, and `main`
--   src/FileConfigurators         FileConfigurator: interfaces that are configured from a file
--   src/WebPluginConfigurator     Web: a request from the socket, parsed, the plugin that it names, its
--                                 configuration and the page that answers
--   src/Plugin                    Plugin: the classes of plugins, with the calls of their methods
--   src/PluginConfigurator        PluginConfigurator: the plugins by number
--   src/DLoader                   DLoader: a plugin from a shared library
-- Function names are those of the source with underscores: `getWeakElement` is `get_weak_element`, a
-- constructor `X::X` is `new_x` and a destructor `X::~X` is `delete_x`; `release_x` is the end of a
-- shared pointer, which runs the destructor if it was the last one. `start_dnsmasq` and
-- `stop_dnsmasq` are those of DNSMasqController.
--
-- How it is modelled. Exec holds methods that change a state and may throw; what was written before a
-- throw stays, and undefined behaviour is a result of its own that no handler catches. World is what
-- the objects share: the operating system (the status of a command and the output of a pipe are
-- functions of the commands that were run before, which are kept in order; files by name), the order in
-- which the C++ library destroys the entries of a map that is cleared, which is a parameter, the static
-- counters of the classes, and the objects behind shared and weak pointers. Shared has these pointers:
-- numbers that are never used again, with a count of the shared ones. A method of an object with fields
-- of its own acts on the pair of the object and the world. Text has the streams, searches and numbers of
-- the C++ library that the sources use, and Map its ordered map. Strings are lists of bytes.
-- Untouched, DnsMasq.Kept and XTables.Chain.Kept say which fields of the world the operations on
-- chains, on dnsmasq configurations and on commands do not write; Exec.Preserves, Exec.Leads and
-- Exec.Returns are rules for what holds after an action.
-- A number of 32 bits wraps where it is written so (`% 2 ^ 32`); past the maximum of the `int` that
-- numbers the specializations the constructor is undefined, while the numbers of rules and callbacks
-- are without bound. IpSet.Kernel is what `ipset` does with single addresses; of the networks, ranges
-- and host names that `addIP` passes on unchecked nothing is assumed.
--
-- Fuel: `getlines` and `read_all` go on with the length of the text, which is enough as each round
-- takes a byte; `to_string` divides as often as the number says at most; `strip_counters` has the
-- length of the rule; `regex_replace` has the length of the text, and Web.Replace.Enough shows that
-- more changes nothing. The loop of `read_header` may never end in the source: its result is `none`
-- while the fuel does not suffice.
--
-- Not modelled: the mutexes, as each operation is one step; how long the waits of the DHCP
-- client and of the switcher last; the calls of the sockets, of
-- the dynamic linker, of the signals and of the INI reader, whose results are parameters; the
-- destructors at the end of `main`, as the thread that accepts clients blocks there; src/Logger and
-- src/ElapsedTime; src/HotSpotController and WirelessController, which are not built; the resolver in
-- src/DHCPClient/src/dhcpclient-snap_20071104, another project, whose output is an argument.
pub mod Base
pub mod Text
pub mod Map
pub mod Exec
pub mod Shared
pub mod World
pub mod System
pub mod Ip
pub mod Route
pub mod RouteRule
pub mod IpSet
pub mod Interface
pub mod DhcpClient
pub mod XTables
pub mod DnsMasq
pub mod DhcpServer
pub mod EthernetController
pub mod NetworkFactory
pub mod PingSwitcher
pub mod Untouched
pub mod TrafficSpecialization
pub mod RoutingSpecializer
pub mod Web
pub mod NetworkManager
pub mod FileConfigurator
pub mod Plugin
pub mod PluginConfigurator
pub mod DLoader
mod Tests
