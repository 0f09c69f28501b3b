-- ===== src/NetworkFactory/Start.antt =====
-- The interfaces that the factory knows after its start.
use tu_thesis.Base.{
  ◌≡◌, refl, ◌∙◌, ◌&&◌, some, List, [], ◌∷◌, arith, if◌then◌else◌, Bool-cases, inl, inr,
}
use tu_thesis.Text.Bytes.{Bytes, same_iff}
use tu_thesis.Exec.{ok}
use tu_thesis.Map
use tu_thesis.Map.{bytes_key, lookup-insert}
use tu_thesis.World.{World}
use tu_thesis.EthernetController.{new_controller}
use tu_thesis.XTables.Table.{is_listed}
use tu_thesis.NetworkFactory.{is_ethernet, add_interface, start}

-- The start never throws. Afterwards exactly the listed names with an Ethernet prefix have a fresh
-- controller, and every other name has what it had.
pub lookup-start :
    (names : List Bytes) (name : Bytes) (w : World)
    → (start names w).0 ≡ ok tt
      × Map.lookup name (start names w).1.interfaces ≡ (
          if is_listed name names && is_ethernet name
          then some (new_controller name)
          else Map.lookup name w.interfaces)
unfolding start add_interface is_listed
lookup-start [] name w = (refl, refl)
lookup-start (n ∷ names) name w = elim (Bool-cases (is_ethernet n)) [
  | inl e ↦
      let (returns, found) = lookup-start names name _ in
      (
        rw e returns,
        rw e (
            found
            ∙ ground
                (arith, lookup-insert n name (new_controller n) w.interfaces, same_iff n name)),
      )
  | inr e ↦
      let (returns, found) = lookup-start names name w in
      (rw e returns, rw e (found ∙ ground (arith, same_iff n name)))
]
