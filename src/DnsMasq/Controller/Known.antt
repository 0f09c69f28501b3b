-- ===== src/DnsMasq/Controller/Known.antt =====
-- DNSMasqController/src/DNSMasqController.cpp: a configuration that the controller knows and that is
-- alive.
use tu_thesis.Base.{ℕ, ◌≡◌, refl, some, List, ◌++◌}
use tu_thesis.Text.Bytes.{Bytes}
use tu_thesis.Exec.{ok}
use tu_thesis.Map
use tu_thesis.Map.{bytes_key}
use tu_thesis.Shared
use tu_thesis.Shared.{lock-object_at}
use tu_thesis.World.{World, Configuration}
use tu_thesis.DnsMasq.Configuration.InSync.{Shows, IsOpen, add_all-Shows}
use tu_thesis.DnsMasq.Controller.{add_configuration}

-- `addConfiguration` under a name whose configuration is alive, as it is while its owner holds the old
-- pointer, and whose file can be written: the result is the old pointer, the new lines follow the old
-- ones, which stay, and the file holds the text of both.
pub add_configuration-Shows :
    (name : Bytes) (lines : List (Bytes × Bytes)) (p : ℕ) (c : Configuration) (w : World)
    → Map.lookup name w.configurations ≡ some p
    → IsOpen p c w
    → ((add_configuration name lines w).0 ≡ ok p)
      × Shows p c.file_name (c.configuration ++ lines) (add_configuration name lines w).1
unfolding add_configuration
add_configuration-Shows name lines p c w known (live, writable) =
    let (locked, still) = lock-object_at p c w.confs live in
    let v = record w { confs = (Shared.lock p w.confs).1 } in
    let (done, shows) = add_all-Shows p c v lines (still, writable) in
    rw (known, add_configuration) (rw locked (rw done (refl, shows)))
