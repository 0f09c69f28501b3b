-- ===== src/NetworkManager.antt =====
-- NetworkManager/src/main.cpp; here the configuration that a plugin is started with.
pub mod Destinations
pub mod Main
use tu_thesis.Base.{Option, List, [], ◌∷◌, if◌then◌else◌}
use tu_thesis.Text.Bytes.{Bytes, bytes, same}
use tu_thesis.Text.Stream.{getlines}
use tu_thesis.Map
use tu_thesis.Map.{Map, empty, bytes_key, value_or_empty}

-- The INI reader is a third-party class: for a section and a name it has a text or none, and `Get`
-- returns the text, or its last argument, which is empty here.
abbrev pub Ini : Type 0
Ini = Bytes → Bytes → Option Bytes

abbrev pub get : Ini → Bytes → Bytes → Bytes
get reader section name = value_or_empty (reader section name)

-- The loop over the interfaces of the routing specializer.
unfoldable pub destinations : Ini → Bytes → List Bytes → Map Bytes Bytes → Map Bytes Bytes
destinations reader plugin_type [] configuration = configuration
destinations reader plugin_type (name ∷ names) configuration =
    destinations reader plugin_type names
      (Map.insert name (get reader plugin_type name) configuration)

-- `getPluginConfiguration`
unfoldable pub get_plugin_configuration : Ini → Bytes → Map Bytes Bytes
get_plugin_configuration reader plugin_type =
    if same (bytes "ini_nm_configurator") plugin_type
    then Map.insert (bytes "file") (get reader plugin_type (bytes "file")) empty
    else if same (bytes "ping_internet_switcher") plugin_type
    then Map.insert (bytes "interfaces") (get reader plugin_type (bytes "interfaces")) empty
    else if same (bytes "routing_specializer") plugin_type
    then destinations reader plugin_type
        (getlines b',' (get reader plugin_type (bytes "interfaces"))) empty
    else empty
