-- ===== src/Plugin.antt =====
-- Plugin/include/Plugin.hpp: the abstract class of the plugins, with a constructor for each class that
-- implements it, and the calls of its methods.
use tu_thesis.Base.{[]}
use tu_thesis.Text.Bytes.{Bytes, bytes}
use tu_thesis.Exec.{Exec, Outcome, pure}
use tu_thesis.Map.{empty, Map}
use tu_thesis.World.{World}
use tu_thesis.PingSwitcher
use tu_thesis.PingSwitcher.{new_switcher, PingSwitcher}
use tu_thesis.RoutingSpecializer
use tu_thesis.RoutingSpecializer.{Specializations}
use tu_thesis.FileConfigurator
use tu_thesis.FileConfigurator.{Reader}

-- The fields of the object; the file configurator has its file's name.
pub data Plugin : Type 0 where
  ping_internet_switcher : PingSwitcher → Plugin
  routing_specializer : Specializations → Plugin
  ini_nm_configurator : Bytes → Plugin

-- `getName`: the name that the constructor of each class passes on.
unfoldable pub get_name : Plugin → Bytes
get_name (ping_internet_switcher _) = bytes "Ping Internet Switcher"
get_name (routing_specializer _) = bytes "Routing Specializer"
get_name (ini_nm_configurator _) = bytes "INI File Configurator"

-- A method has run on the fields of an object of one class.
abbrev pub as_plugin {ℓ} :
    {S : Type 0} {A : Type ℓ}
    → (S → Plugin)
    → Outcome A × (S × World)
    → Outcome A × (Plugin × World)
as_plugin plugin (r, (s, w)) = (r, (plugin s, w))

-- `exec`: two classes leave it empty.
unfoldable pub exec : Exec (Plugin × World) (Unit {0})
exec (ping_internet_switcher p, w) =
    let (r, p') = PingSwitcher.exec p in (r, (ping_internet_switcher p', w))
exec (routing_specializer s, w) = pure tt (routing_specializer s, w)
exec (ini_nm_configurator name, w) = pure tt (ini_nm_configurator name, w)

-- `getConfiguration`
unfoldable pub get_configuration : Exec (Plugin × World) (Map Bytes Bytes)
get_configuration (ping_internet_switcher p, w) =
    pure (PingSwitcher.get_configuration p) (ping_internet_switcher p, w)
get_configuration (routing_specializer s, w) =
    as_plugin routing_specializer (RoutingSpecializer.get_configuration (s, w))
get_configuration (ini_nm_configurator name, w) =
    pure (FileConfigurator.get_configuration name) (ini_nm_configurator name, w)

-- `allocator` of the three libraries.
abbrev pub new_ping_internet_switcher : Exec World Plugin
new_ping_internet_switcher = pure (ping_internet_switcher new_switcher)

abbrev pub new_routing_specializer : Exec World Plugin
new_routing_specializer = pure (routing_specializer empty)

abbrev pub new_ini_nm_configurator : Exec World Plugin
new_ini_nm_configurator = pure (ini_nm_configurator [])

-- `deallocator`: the destructor of the class.
unfoldable pub delete_plugin : Plugin → Exec World (Unit {0})
delete_plugin (ping_internet_switcher p) = PingSwitcher.delete_switcher p
delete_plugin (routing_specializer s) = RoutingSpecializer.release_all s.entries
delete_plugin (ini_nm_configurator name) = pure tt

-- The INI reader that a file is opened with.
module _ (open_reader : Bytes → Reader) where
  -- `configure`
  unfoldable pub configure : Map Bytes Bytes → Exec (Plugin × World) (Unit {0})
  configure conf (ping_internet_switcher p, w) =
      pure tt (ping_internet_switcher (PingSwitcher.configure conf p), w)
  configure conf (routing_specializer s, w) =
      as_plugin routing_specializer (RoutingSpecializer.configure conf (s, w))
  configure conf (ini_nm_configurator name, w) =
      as_plugin ini_nm_configurator (FileConfigurator.configure open_reader conf (name, w))
