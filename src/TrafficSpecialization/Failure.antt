-- ===== src/TrafficSpecialization/Failure.antt =====
-- A specialization that cannot be made.
use tu_thesis.Base.{refl, ◌≡◌, none, ◌++◌}
use tu_thesis.Text.Bytes.{Bytes, bytes}
use tu_thesis.Exec.{throw, invalid_argument}
use tu_thesis.Map
use tu_thesis.Map.{bytes_key}
use tu_thesis.World.{World}
use tu_thesis.NetworkFactory.{get_interface_unknown}
use tu_thesis.TrafficSpecialization.{new_specialization}

-- For an interface that the factory does not know, the constructor throws invalid_argument before it
-- has changed anything: no mark is used up, and no rule, set, route or chain is touched.
pub new_specialization_unknown :
    (name : Bytes) (w : World)
    → Map.lookup name w.interfaces ≡ none
    → new_specialization name w
      ≡ (throw (invalid_argument (bytes "Unknown '" ++ (name ++ bytes "' interface."))), w)
unfolding new_specialization
new_specialization_unknown name w unknown = rw (get_interface_unknown name w unknown) refl
