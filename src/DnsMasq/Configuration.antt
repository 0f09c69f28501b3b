-- ===== src/DnsMasq/Configuration.antt =====
-- DNSMasqConfiguration/src/DNSMasqConfiguration.cpp: a file of lines `name=value`.
pub mod InSync
pub mod Uses
use tu_thesis.Base.{ℕ, ◌&&◌, Option, none, some, List, [], ◌∷◌, ◌++◌, if◌then◌else◌}
use mathlib.Core.Option
use tu_thesis.Text.Bytes.{Bytes, bytes, same}
use tu_thesis.Exec.{Exec, invalid_argument, pure, raise, stuck, modify, ◌>>◌}
use tu_thesis.Map
use tu_thesis.Map.{bytes_key}
use tu_thesis.Shared
use tu_thesis.World.{World, Configuration}

-- What `writeConfiguration` puts into the file.
unfoldable pub render : List (Bytes × Bytes) → Bytes
render [] = []
render ((name, value) ∷ rest) = name ++ (b'=' ∷ (value ++ (b'\n' ∷ render rest)))

-- `writeConfiguration`: opening the file truncates it. If it cannot be opened, nothing is reported.
unfoldable pub write_configuration : Configuration → Exec World (Unit {0})
unfolding Map.insert render
write_configuration c w =
    if w.writable c.file_name
    then pure tt (record w { files = Map.insert c.file_name (render c.configuration) w.files })
    else pure tt w

-- The constructor.
unfoldable pub new_configuration : Bytes → List (Bytes × Bytes) → Exec World Configuration
unfolding write_configuration
new_configuration file_name configuration =
    let c : Configuration = record { file_name = file_name; configuration = configuration } in
    write_configuration c >> pure c

abbrev pub on_configuration {ℓ} :
    {A : Type ℓ} → (Configuration → Exec World A) → Option Configuration → Exec World A
on_configuration f none = stuck
on_configuration f (some c) = f c

abbrev pub with_configuration {ℓ} : {A : Type ℓ} → ℕ → (Configuration → Exec World A) → Exec World A
with_configuration p f w = on_configuration f (Shared.object_at p w.confs) w

abbrev pub store_configuration : ℕ → Configuration → World → World
store_configuration p c w = record w { confs = Shared.write p c w.confs }

-- `this->configuration` gets new lines, and the file is written.
unfoldable pub set_lines : ℕ → Configuration → List (Bytes × Bytes) → Exec World (Unit {0})
set_lines p c lines =
    let c' : Configuration = record c { configuration = lines } in
    modify (store_configuration p c') >> write_configuration c'

-- `addConfiguration(std::vector<Configuration_t>)`
unfoldable pub add_all : ℕ → List (Bytes × Bytes) → Exec World (Unit {0})
add_all p lines = with_configuration p (λ c. set_lines p c (c.configuration ++ lines))

-- `addConfiguration(std::string name, std::string value)`
unfoldable pub add_one : ℕ → Bytes → Bytes → Exec World (Unit {0})
add_one p name value = add_all p ((name, value) ∷ [])

-- The lines with the value of the first `name=old` replaced, if there is one.
unfoldable pub replace_first :
    Bytes → Bytes → Bytes → List (Bytes × Bytes) → Option (List (Bytes × Bytes))
replace_first name old new [] = none
replace_first name old new ((n, v) ∷ rest) =
    let later = replace_first name old new rest in
    if same name n && same old v then some ((n, new) ∷ rest) else Option.map (λ l. (n, v) ∷ l) later

-- `replaceConfiguration`
abbrev pub replaced :
    ℕ → Bytes → Bytes → Configuration → Option (List (Bytes × Bytes)) → Exec World (Unit {0})
replaced p name old c (some lines) = set_lines p c lines
replaced p name old c none = raise (
    invalid_argument (
      bytes "Couldn't find configuration with name '"
      ++ (name ++ (bytes "' and '" ++ (old ++ bytes "' value")))))

unfoldable pub replace : ℕ → Bytes → Bytes → Bytes → Exec World (Unit {0})
replace p name old new =
    with_configuration p (λ c. replaced p name old c (replace_first name old new c.configuration))

-- The destructor removes the file.
unfoldable pub delete_configuration : Configuration → Exec World (Unit {0})
unfolding Map.erase
delete_configuration c w = pure tt (record w { files = Map.erase c.file_name w.files })

abbrev pub remove_last : Option Configuration → Exec World (Unit {0})
remove_last none = pure tt
remove_last (some c) = delete_configuration c

-- A shared pointer to a configuration goes away.
unfoldable pub release_configuration : ℕ → Exec World (Unit {0})
release_configuration p w =
    let (last, confs) = Shared.release p w.confs in remove_last last (record w { confs = confs })
