-- ===== src/NetworkManager/Destinations.antt =====
-- What the plugins find in the configuration that they are started with.
use tu_thesis.Base.{◌≡◌, ◌∙◌, refl, ap, none, some, List, [], ◌∷◌, arith, if◌then◌else◌}
use tu_thesis.Text.Bytes.{Bytes, bytes, same, same_iff}
use tu_thesis.Text.Stream.Split.{split, getlines-eq-split}
use tu_thesis.Map
use tu_thesis.Map.{Map, bytes_key, lookup-insert, lookup-insert_self, value_or_empty}
use tu_thesis.XTables.Table.{is_listed}
use tu_thesis.PingSwitcher.{configure, new_switcher}
use tu_thesis.NetworkManager.{Ini, get, destinations, get_plugin_configuration}

lookup-destinations :
    (reader : Ini) (plugin_type name : Bytes) (names : List Bytes) (conf : Map Bytes Bytes)
    → Map.lookup name (destinations reader plugin_type names conf)
      ≡ (if is_listed name names then some (get reader plugin_type name) else Map.lookup name conf)
unfolding destinations is_listed
lookup-destinations reader plugin_type name [] conf = refl
lookup-destinations reader plugin_type name (n ∷ names) conf =
    lookup-destinations reader plugin_type name names _
    ∙ rw (lookup-insert n name (get reader plugin_type n) conf) (ground (arith, same_iff n name))

-- The routing specializer is started with one entry for each interface of its list, the text that the
-- file has under the interface's name, empty if it has none, and with no other entry.
pub routing_specializer_entries :
    (reader : Ini) (name : Bytes)
    → let section = bytes "routing_specializer" in
      Map.lookup name (get_plugin_configuration reader section) ≡ (
        if is_listed name (split b',' (get reader section (bytes "interfaces")))
        then some (get reader section name)
        else none)
unfolding get_plugin_configuration bytes same Map.lookup
routing_specializer_entries reader name =
    let section = bytes "routing_specializer" in
    ap (λ l. Map.lookup name (destinations reader section l Map.empty))
      (getlines-eq-split b',' (get reader section (bytes "interfaces")))
    ∙ lookup-destinations reader section name (split b',' (get reader section (bytes "interfaces")))
        Map.empty

-- The switcher is started with the interfaces that the file lists for it, in their order.
pub switcher_interfaces :
    (reader : Ini)
    → let section = bytes "ping_internet_switcher" in
      (configure (get_plugin_configuration reader section) new_switcher).interfaces
      ≡ split b',' (get reader section (bytes "interfaces"))
unfolding get_plugin_configuration bytes same configure
switcher_interfaces reader =
    getlines-eq-split b',' _
    ∙ ap (λ o. split b',' (value_or_empty o)) (lookup-insert_self (bytes "interfaces") _ Map.empty)
