-- ===== src/World.antt =====
-- What the program's objects share: the operating system, the static counters of its classes, and
-- the objects behind shared pointers. The classes' fields are in `World/Data.antt`.
mod Data
pub use Data.*
use tu_thesis.Base.{ℕ, Bool, Option, List, [], ◌∷◌, ◌++◌}
use tu_thesis.Text.Bytes.{Bytes}
use tu_thesis.Map.{Map}
use tu_thesis.Shared.{Heap}

pub record World : Type 0 where
  -- the shell: the status that `system(command)` returns, and what `popen(command)` reads (`none`
  -- if it fails), after the commands that were run before
  pub shell : List Bytes → Bytes → ℕ
  pub output : List Bytes → Bytes → Option Bytes
  -- the order in which `std::map::clear` destroys the rules of a chain, which the language leaves open
  pub clear_order : List (ℕ × ChainRule) → List (ℕ × ChainRule)
  -- the commands run so far, the first one first
  pub trace : List Bytes
  -- whether a file can be opened for writing, and the files' contents
  pub writable : Bytes → Bool
  pub files : Map Bytes Bytes
  -- the threads that were started for callbacks, and the counters that number the callbacks
  pub spawned : List Spawn
  pub callback_ids : CallbackIds
  -- `rule_id` of `Chain::addRule` and `mark` of `TrafficSpecialization`
  pub rule_id : ℕ
  pub mark : ℕ
  -- iptables chains, and the tables of the network factory
  pub chains : Heap Chain
  pub tables : Map Bytes Table
  -- dnsmasq configuration files, and the controller's weak pointers to them
  pub confs : Heap Configuration
  pub configurations : Map Bytes ℕ
  -- the network factory: its interfaces, and the vectors of weak pointers beside the objects
  pub interfaces : Map Bytes EthernetController
  pub route_objects : Heap Route
  pub routes : List ℕ
  pub rule_objects : Heap RouteRule
  pub route_rules : List ℕ
  pub ipset_objects : Heap IpSet
  pub ipsets : List ℕ
  -- the traffic specializations that the routing specializer made
  pub specializations : Heap TrafficSpecialization
