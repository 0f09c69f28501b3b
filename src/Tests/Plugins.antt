-- ===== src/Tests/Plugins.antt =====
-- The program with two plugins, and requests for them.
use tu_thesis.Base.{
  ◌≢◌, ◌≡◌, arith, refl, true, false, none, some, [], ◌∷◌, ◌++◌, if◌then◌else◌, map,
}
use tu_thesis.Base.Int.{pos}
use tu_thesis.Text.Bytes.{Bytes, bytes, same, before}
use tu_thesis.Text.Number.{to_string}
use tu_thesis.Exec.{ok}
use tu_thesis.Map
use tu_thesis.Map.{Map, bytes_key, int_key}
use tu_thesis.FileConfigurator.{Reader}
use tu_thesis.PingSwitcher.{PingSwitcher, new_switcher, get_configuration}
use tu_thesis.Plugin
use tu_thesis.Plugin.{
  Plugin, ping_internet_switcher, routing_specializer, new_routing_specializer,
  new_ini_nm_configurator,
}
use tu_thesis.PluginConfigurator.{PluginConfigurator, new_configurator, add_plugin}
use tu_thesis.PluginConfigurator.Numbers.{IsNumbered}
use tu_thesis.DLoader.{Linker}
use tu_thesis.NetworkManager.{Ini}
use tu_thesis.NetworkManager.Main.{Environment, Signal, main}
use tu_thesis.NetworkManager.Main.Loading.{program-IsNumbered}
use tu_thesis.NetworkManager.Main.Missing.{main_fails}
use tu_thesis.Web.Socket.{Request}
use tu_thesis.Web.Parse.{parse_data}
use tu_thesis.Web.Parse.Rows.{field_line, insert_all}
use tu_thesis.Text.Stream.Split.{join_with}
use tu_thesis.Web.PluginId.{plugin_id}
use tu_thesis.Web.PluginId.Link.{request_line}
use tu_thesis.Web.Process.{post, process_request, serve_clients}
use tu_thesis.Web.Process.Chosen.{process_request_others, submit_form, resubmit_switcher}
use tu_thesis.Tests.{quiet, eth0, eth1}

-- No INI file is used.
abbrev pub no_file : Bytes → Reader
no_file name = record { parsed = false; sections = []; get = λ _ _ d. d; get_integer = λ _ _ d. d }

abbrev switcher : PingSwitcher
switcher = record new_switcher { interfaces = eth0 ∷ eth1 ∷ [] }

abbrev two_plugins : PluginConfigurator
two_plugins =
    add_plugin (ping_internet_switcher switcher)
      (add_plugin (routing_specializer Map.empty) new_configurator)

abbrev header : Map Bytes Bytes
header = Map.insert (bytes "Type") (request_line (bytes "POST /?") 1 (bytes "HTTP/1.1")) Map.empty

abbrev request : Request
request = record {
  header = header;
  fields = Map.insert (bytes "interfaces") (bytes "eth1") Map.empty;
}

process_request_others_example :
    Map.lookup (pos 0) (process_request no_file request (two_plugins, quiet)).1.0.plugins
    ≡ Map.lookup (pos 0) two_plugins.plugins
unfolding bytes same before to_string plugin_id Map.lookup Map.insert
process_request_others_example =
    process_request_others no_file request (pos 0) two_plugins quiet (λ h. cc)

submit_form_example :
    (parse_data (bytes "interfaces=eth1" ++ (b'\r' ∷ []))
      ≡ ok (insert_all ((bytes "interfaces", bytes "eth1") ∷ []) Map.empty))
    × (post no_file
          (record {
            header = header;
            fields = insert_all ((bytes "interfaces", bytes "eth1") ∷ []) Map.empty;
          })
          (two_plugins, quiet)
        ≡ (
          ok tt,
          (
            record two_plugins {
              plugins =
                  Map.insert
                    (pos 1)
                    (ping_internet_switcher (record new_switcher { interfaces = eth1 ∷ [] }))
                    two_plugins.plugins;
            },
            quiet,
          ),
        ))
unfolding bytes same before Map.lookup Map.insert add_plugin join_with Plugin.configure parse_data
    tu_thesis.PingSwitcher.configure tu_thesis.Text.Stream.getlines_from
    tu_thesis.Text.Stream.getline tu_thesis.Text.Stream.break_at
submit_form_example =
    submit_form no_file 1 (ping_internet_switcher switcher) two_plugins quiet refl header
      (bytes "HTTP/1.1") ((bytes "interfaces", bytes "eth1") ∷ []) (omega arith) ((refl, refl), tt)
      refl

resubmit_switcher_example :
    (fields : Map Bytes Bytes) × (parse_data
        (join_with b'\n' (map field_line (get_configuration switcher).entries))
      ≡ ok fields)
    × (post no_file (record { header = header; fields = fields }) (two_plugins, quiet) ≡ (
      ok tt,
      (
        record two_plugins {
          plugins = Map.insert (pos 1) (ping_internet_switcher switcher) two_plugins.plugins;
        },
        quiet,
      ),
    ))
unfolding bytes same before Map.lookup Map.insert get_configuration add_plugin join_with
resubmit_switcher_example =
    resubmit_switcher no_file 1 switcher two_plugins quiet header (bytes "HTTP/1.1") refl
      (omega arith) ((refl, refl), tt) (refl, (refl, tt)) refl

-- Two libraries, of which only the first one can be opened; both names of symbols are found.
abbrev linker : Linker
linker = record {
  Library = Bytes;
  dlopen = λ path. if same path (bytes "../lib/librouting_specializer.so") then some path else none;
  dlsym = λ library symbol. some new_routing_specializer;
  dlerror = bytes "cannot open shared object file";
}

abbrev no_entries : Ini
no_entries section name = none

abbrev environment : Environment
environment = record {
  masked = 0;
  entries = some (eth0 ∷ eth1 ∷ []);
  file = record {
    parsed = true;
    sections = bytes "routing_specializer" ∷ [];
    entries = no_entries;
  };
  calls = record { server_socket = pos 3; bound = pos 0; listening = pos 0 };
  waited = 0;
  signal = Signal.sigint;
}

program-IsNumbered_example :
    IsNumbered
      (serve_clients no_file 10
        ((bytes "GET /" ∷ []) ∷ [])
        (main linker no_file environment (new_configurator, quiet)).1).1.0
program-IsNumbered_example =
    program-IsNumbered linker no_file environment quiet 10 ((bytes "GET /" ∷ []) ∷ []) (omega arith)

-- The second section names a type without a library.
abbrev unknown_plugin : Environment
unknown_plugin = record environment {
  file = record {
    parsed = true;
    sections = bytes "routing_specializer" ∷ bytes "unknown" ∷ [];
    entries = no_entries;
  };
}

main_fails_example : (main linker no_file unknown_plugin (new_configurator, quiet)).0 ≢ ok 0
unfolding bytes same
main_fails_example =
    main_fails linker no_file unknown_plugin (bytes "unknown") (bytes "routing_specializer" ∷ []) []
      new_configurator quiet refl refl refl 0
