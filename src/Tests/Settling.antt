-- ===== src/Tests/Settling.antt =====
-- Rounds of the switcher on two interfaces, of which the second one answers.
use tu_thesis.Base.{ℕ, ◌≡◌, refl, List, [], ◌∷◌, ◌++◌, if◌then◌else◌}
use tu_thesis.Text.Bytes.{before, Bytes, bytes, same}
use tu_thesis.Text.Number.{to_string, int_to_string}
use tu_thesis.Map
use tu_thesis.Map.{bytes_key, empty}
use tu_thesis.World.{World, EthernetController}
use tu_thesis.Ip.{new_ip}
use tu_thesis.Route.{route_command}
use tu_thesis.EthernetController.{new_controller}
use tu_thesis.PingSwitcher.{PingSwitcher, new_switcher, ping_command}
use tu_thesis.PingSwitcher.Rounds.{ping_route}
use tu_thesis.PingSwitcher.Settles.{rounds, Reachable, rounds_settle}
use tu_thesis.Tests.{machine, eth0, eth1}

abbrev last : List Bytes → Bytes
last [] = []
last (x ∷ []) = x
last (x ∷ y ∷ xs) = last (y ∷ xs)

last_one : (xs : List Bytes) (x : Bytes) → last (xs ++ (x ∷ [])) ≡ x
last_one [] x = refl
last_one (y ∷ []) x = refl
last_one (y ∷ z ∷ xs) x = last_one (z ∷ xs) x

-- The second interface has a gateway of its own.
abbrev with_gateway : EthernetController
with_gateway =
    let e = new_controller eth1 in
    record e { interface = record e.interface { gateway = new_ip (bytes "10.0.0.1") } }

-- A ping is answered over that gateway, that is behind the command that adds its route.
abbrev shell : List Bytes → Bytes → ℕ
shell trace cmd =
    if same cmd ping_command
    then if same (last trace) (route_command (bytes "add") (ping_route with_gateway)) then 0 else 1
    else 0

abbrev two_interfaces : World
two_interfaces = record (machine shell) {
  interfaces = Map.insert eth0 (new_controller eth0) (Map.insert eth1 with_gateway empty);
}

gateway-Reachable : Reachable shell two_interfaces.interfaces (eth0 ∷ []) eth1 with_gateway
unfolding same before bytes Map.lookup Map.insert to_string int_to_string
gateway-Reachable = record {
  known = refl;
  alive = (λ trace. refl, λ trace. rw last_one refl);
  routed = λ trace. refl;
  dead = ((new_controller eth0, refl, (λ trace. refl, λ trace. rw last_one refl)), tt);
}

abbrev both : PingSwitcher
both = record new_switcher { interfaces = eth0 ∷ eth1 ∷ []; current_interface = eth0 }

rounds_settle_example : (rounds 3 (both, two_interfaces)).1.0.current_interface ≡ eth1
rounds_settle_example =
    rounds_settle both two_interfaces (eth0 ∷ []) [] eth1 with_gateway 2 refl refl gateway-Reachable
