-- ===== src/Tests/Switching.antt =====
-- Rounds of the switcher on two interfaces.
use tu_thesis.Base.{arith, ℕ, ◌≡◌, refl, none, [], ◌∷◌, ltb, length, if◌then◌else◌}
use tu_thesis.Text.Bytes.{before, Bytes, bytes, same}
use tu_thesis.Text.Stream.Split.{split}
use tu_thesis.Map
use tu_thesis.Map.{bytes_key}
use tu_thesis.Text.Number.{to_string, int_to_string}
use tu_thesis.World.{World}
use tu_thesis.Exec.{ok}
use tu_thesis.EthernetController.{new_controller}
use tu_thesis.PingSwitcher.{
  PingSwitcher, new_switcher, ping_command, round, configure, get_configuration,
}
use tu_thesis.PingSwitcher.Rounds.{Silent, tried, none_tried, after_check, round_steady}
use tu_thesis.PingSwitcher.Switch.{default_command, Uses, without_default}
use tu_thesis.PingSwitcher.Choice.{Chosen, round_chooses, round_loses, round_unanswered}
use tu_thesis.PingSwitcher.Configuration.{configure-eq-split, configure_again}
use tu_thesis.Tests.{machine, with_interfaces, eth0, eth1}

-- The first ping fails, and each later one succeeds; the default route has this status.
abbrev second_answers : ℕ → World
second_answers status = with_interfaces (
    machine (λ trace cmd.
      if same cmd ping_command
      then if ltb (length trace) 2 then 1 else 0
      else if same cmd (default_command (new_controller eth1))
      then status
      else 0))

abbrev using : Bytes → PingSwitcher
using name = record new_switcher { interfaces = eth0 ∷ eth1 ∷ []; current_interface = name }

first_unanswered :
    (status : ℕ)
    → Silent
        (second_answers status)
        (eth0 ∷ [])
        (after_check (new_controller eth0) (second_answers status))
unfolding same before bytes Map.lookup Map.insert to_string int_to_string
first_unanswered status = tried eth0 (new_controller eth0) refl (refl, refl) refl none_tried

abbrev later : ℕ → World
later status = after_check (new_controller eth0) (second_answers status)

second_answering :
    (status : ℕ)
    → Chosen eth1
        (new_controller eth1)
        (using eth0)
        (second_answers status)
        (later status)
        (eth0 ∷ [])
        []
unfolding same before bytes Map.lookup Map.insert to_string int_to_string
second_answering status = (refl, first_unanswered status, refl, (refl, refl), refl, refl)

round_chooses_example :
    Uses eth1
      (without_default eth1
        (new_controller eth1)
        (using eth0)
        (after_check (new_controller eth1) (later 0))).route_objects.next
      (round (using eth0, second_answers 0)).1.0
unfolding same bytes int_to_string
round_chooses_example =
    round_chooses eth1 (new_controller eth1) (using eth0) (second_answers 0) (later 0) (eth0 ∷ [])
      [] (second_answering 0) (λ _. refl)

round_loses_example :
    (round (using eth0, second_answers 2)).1.0 ≡ record (using eth0) { default_gw = none }
unfolding same bytes to_string int_to_string
round_loses_example =
    round_loses eth1 (new_controller eth1) (using eth0) (second_answers 2) (later 2) (eth0 ∷ []) []
      (second_answering 2) (λ _ h. omega (arith, h))

round_steady_example :
    round (using eth1, second_answers 0)
    ≡ (ok tt, (using eth1, after_check (new_controller eth1) (later 0)))
unfolding same before bytes Map.lookup Map.insert to_string int_to_string
round_steady_example =
    round_steady (using eth1) (second_answers 0) (later 0) (eth0 ∷ []) [] (new_controller eth1) refl
      (first_unanswered 0) refl (refl, refl) refl

round_unanswered_example :
    round (record (using eth1) { interfaces = eth0 ∷ [] }, second_answers 0)
    ≡ (ok tt, (record (using eth1) { interfaces = eth0 ∷ [] }, later 0))
round_unanswered_example =
    round_unanswered (record (using eth1) { interfaces = eth0 ∷ [] }) (second_answers 0) (later 0)
      (first_unanswered 0)

configure_again_example :
    (configure
      (get_configuration
        (configure (Map.insert (bytes "interfaces") (bytes "eth0,,eth1") Map.empty) new_switcher))
      (using eth1)).interfaces
    ≡ (configure
        (Map.insert (bytes "interfaces") (bytes "eth0,,eth1") Map.empty)
        new_switcher).interfaces
configure_again_example =
    configure_again (Map.insert (bytes "interfaces") (bytes "eth0,,eth1") Map.empty) new_switcher
      (using eth1)

configure-eq-split_example :
    (configure
      (Map.insert (bytes "interfaces") (bytes "eth0,,eth1") Map.empty)
      new_switcher).interfaces
    ≡ eth0 ∷ [] ∷ eth1 ∷ []
unfolding bytes same Map.lookup Map.insert split
configure-eq-split_example =
    configure-eq-split (Map.insert (bytes "interfaces") (bytes "eth0,,eth1") Map.empty) new_switcher
