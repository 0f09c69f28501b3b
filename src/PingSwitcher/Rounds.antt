-- ===== src/PingSwitcher/Rounds.antt =====
-- What a round of the switcher does.
use tu_thesis.Map
use tu_thesis.Shared
use tu_thesis.NetworkFactory.{get_interface_known}
use tu_thesis.NetworkFactory.Routes.{release_route_new, add_route_ok, with_routes}
use tu_thesis.System.{call, issue}
use tu_thesis.Base.{refl, ◌∙◌, ap, sym, some, false, true, Bool, ◌≡◌, List, [], ◌∷◌, ◌++◌, ◌==◌}
use tu_thesis.Base.Int.{pos}
use tu_thesis.Text.Bytes.{same_iff, Bytes, bytes}
use tu_thesis.Exec.{ok}
use tu_thesis.Map.{bytes_key}
use tu_thesis.World.{World, EthernetController, Route}
use tu_thesis.Ip.{new_ip}
use tu_thesis.Route.{route_command}
use tu_thesis.EthernetController.{get_gw}
use tu_thesis.PingSwitcher.{check_all, round, check_interface, PingSwitcher, ping, ping_command}

-- A route as the switcher adds it.
abbrev pub via : Bytes → EthernetController → Route
via destination e = record {
  destination = new_ip destination;
  gateway = new_ip (get_gw e);
  metric = pos 0;
  interface_name = [];
  table_name = [];
}

abbrev pub ping_route : EthernetController → Route
ping_route e = via (bytes "8.8.8.8/32") e

-- The commands of a check of one interface.
abbrev pub check_commands : EthernetController → List Bytes
check_commands e =
    route_command (bytes "add") (ping_route e)
    ∷ ping_command
    ∷ route_command (bytes "del") (ping_route e)
    ∷ []

module _ (e : EthernetController) (w : World) where
  -- The world after a check that could be made.
  abbrev pub after_check : World
  after_check =
      let r = ping_route e in
      let h = w.route_objects in
      issue (route_command (bytes "del") r) (
        with_routes (Shared.release h.next (Shared.allocate r h)).1
          (issue ping_command (issue (route_command (bytes "add") r) w)))

  abbrev pub CanCheck : Type 0
  CanCheck = (w.routes ≡ []) × (w.shell w.trace (route_command (bytes "add") (ping_route e)) ≡ 0)

  -- Whether the interface answers.
  abbrev pub answers : Bool
  answers = w.shell (w.trace ++ (route_command (bytes "add") (ping_route e) ∷ [])) ping_command == 0

  pub ping_lem : CanCheck → ping e w ≡ (ok answers, after_check)
  unfolding ping call
  ping_lem (unknown, added) =
      rw (add_route_ok (bytes "8.8.8.8/32") (get_gw e) [] (pos 0) [] w unknown added) (
        rw (
          release_route_new (ping_route e) w.route_objects
            (issue ping_command (issue (route_command (bytes "add") (ping_route e)) w))))

module _ (name : Bytes) (e : EthernetController) (p : PingSwitcher) (w : World) where
  abbrev pub Known : Type 0
  Known = Map.lookup name w.interfaces ≡ some e

  -- A check of the interface in use, if it answers, changes nothing but the log of commands and the
  -- number of the next route.
  pub check_interface_current :
      Known
      → CanCheck e w
      → answers e w ≡ true
      → p.current_interface ≡ name
      → check_interface name (p, w) ≡ (ok true, (p, after_check e w))
  unfolding check_interface
  check_interface_current known can alive current =
      rw (get_interface_known name w e known) (
        rw (ping_lem e w can) (rw alive (rw ((same_iff name p.current_interface).1 (sym current)))))

  pub check_interface_silent :
      Known
      → CanCheck e w
      → answers e w ≡ false
      → check_interface name (p, w) ≡ (ok false, (p, after_check e w))
  unfolding check_interface
  check_interface_silent known can silent =
      rw (get_interface_known name w e known) (rw (ping_lem e w can) (rw silent))

-- The interfaces that were tried before the one in use and did not answer.
pub data Silent : World → List Bytes → World → Type 0 where
  none_tried : {w : World} → Silent w [] w
  tried :
      {w v : World} (name : Bytes) {names : List Bytes} (e : EthernetController)
      → Map.lookup name w.interfaces ≡ some e
      → CanCheck e w
      → answers e w ≡ false
      → Silent (after_check e w) names v
      → Silent w (name ∷ names) v

pub check_all-Silent :
    {w v : World} {names : List Bytes} (p : PingSwitcher) (rest : List Bytes)
    → Silent w names v
    → check_all (names ++ rest) (p, w) ≡ check_all rest (p, v)
unfolding check_all
check_all-Silent p rest none_tried = refl
check_all-Silent p rest (tried {w} name e known can silent more) =
    rw (check_interface_silent name e p w known can silent) (check_all-Silent p rest more)

-- A round in which the interface in use answers, and those before it in the order do not, leaves the
-- switcher as it was, and the world as the checks leave it.
pub round_steady :
    (p : PingSwitcher) (w v : World) (earlier later : List Bytes) (e : EthernetController)
    → p.interfaces ≡ earlier ++ (p.current_interface ∷ later)
    → Silent w earlier v
    → Map.lookup p.current_interface v.interfaces ≡ some e
    → CanCheck e v
    → answers e v ≡ true
    → round (p, w) ≡ (ok tt, (p, after_check e v))
unfolding round
round_steady p w v earlier later e order silent known can alive =
    ap (λ l. check_all l (p, w)) order
    ∙ check_all-Silent p (p.current_interface ∷ later) silent
    ∙ (unfold check_all in
        rw (check_interface_current p.current_interface e p v known can alive refl))
