-- ===== src/Tests.antt =====
-- Concrete machines, for the examples and tests in the modules below.
mod Switching
mod Network
mod Startup
mod Requests
mod Settling
mod Plugins
mod Threads
mod Exchange
mod Specializing
mod Resubmitting
mod Serving
mod Configuring
mod Sharing
use tu_thesis.Base.{
  ℕ, ◌&&◌, Bool, true, Option, none, some, List, [], ◌∷◌, ltb, length, if◌then◌else◌,
}
use tu_thesis.Text.Bytes.{Bytes, bytes, same}
use tu_thesis.Map
use tu_thesis.Map.{Map, empty, bytes_key}
use tu_thesis.Shared.{no_objects}
use tu_thesis.World.{World, EthernetController}
use tu_thesis.EthernetController.{new_controller}
use tu_thesis.NetworkFactory.{new_factory}

-- Nothing is set up, and every command fares as the function says.
abbrev pub machine : (List Bytes → Bytes → ℕ) → World
machine shell = record {
  shell = shell;
  clear_order = λ rules. rules;
  output = λ _ _. some (bytes "10.0.0.2,255.0.0.0");
  trace = [];
  writable = λ _. true;
  files = empty;
  spawned = [];
  callback_ids = record { next_gateway = 0; next_ip = 0; next_dns = 0; next_status = 0 };
  rule_id = 0;
  mark = 0;
  chains = no_objects;
  tables = empty;
  confs = no_objects;
  configurations = empty;
  interfaces = empty;
  route_objects = no_objects;
  routes = [];
  rule_objects = no_objects;
  route_rules = [];
  ipset_objects = no_objects;
  ipsets = [];
  specializations = no_objects;
}

-- All commands succeed.
abbrev pub quiet : World
quiet = machine (λ _ _. 0)

-- All commands fail.
abbrev pub broken : World
broken = machine (λ _ _. 1)

abbrev pub eth0 : Bytes
eth0 = bytes "eth0"

abbrev pub eth1 : Bytes
eth1 = bytes "eth1"

-- The two interfaces are known to the factory.
abbrev pub with_interfaces : World → World
with_interfaces w = record w {
  interfaces = Map.insert eth0 (new_controller eth0) (Map.insert eth1 (new_controller eth1) empty);
}
