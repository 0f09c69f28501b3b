-- ===== src/NetworkManager/Main.antt =====
-- `main`: the plugins are loaded, and the signals are waited for.
pub mod Loading
pub mod Missing
use tu_thesis.Base.{ℕ, Bool, Option, none, some, List, [], ◌∷◌, ◌++◌, ◌==◌, if◌then◌else◌}
use tu_thesis.Text.Bytes.{Bytes, bytes}
use tu_thesis.Exec.{
  Exec, Outcome, ok, throw, undefined, runtime_error, pure, raise, lift, on_world, assign, ◌>>=◌,
  ◌>>◌,
}
use tu_thesis.Map
use tu_thesis.Map.{Map, empty, bytes_key}
use tu_thesis.World.{World}
use tu_thesis.FileConfigurator.{Reader}
use tu_thesis.NetworkFactory
use tu_thesis.NetworkFactory.{new_factory, get_system_interfaces_list}
use tu_thesis.NetworkManager.{Ini, get_plugin_configuration}
use tu_thesis.Plugin
use tu_thesis.Plugin.{Plugin, delete_plugin}
use tu_thesis.PluginConfigurator.{PluginConfigurator, add_plugin}
use tu_thesis.DLoader.{Linker, DLoader, new_dloader, create_instance}
use tu_thesis.Web.Process.{Calls, new_web_plugin_configurator}

-- The INI reader of the plugins' file: whether it could be read, its sections in the order of their
-- names, and their entries.
pub record PluginFile : Type 0 where
  pub parsed : Bool
  pub sections : List Bytes
  pub entries : Ini

-- The signals that `sigwait` gives.
pub data Signal : Type 0 where
  sigint sigterm : Signal
  other_signal : Signal

-- What the calls of the system give: the statuses of `pthread_sigmask` and `sigwait` and the signal,
-- the entries of /sys/class/net, the file, and the sockets' calls.
pub record Environment : Type 0 where
  pub masked : ℕ
  pub entries : Option (List Bytes)
  pub file : PluginFile
  pub calls : Calls
  pub waited : ℕ
  pub signal : Signal

-- `if (reader.ParseError() < 0)`
abbrev check_parsed : PluginFile → Outcome (Unit {0})
check_parsed file =
    if file.parsed
    then ok tt
    else throw (runtime_error (bytes "Can't load ../config/nmPluginConfiguration.ini"))

-- The factory, the file and the configurator, before the plugins.
unfoldable pub prepare : Environment → Exec World (Unit {0})
unfolding new_factory NetworkFactory.start new_web_plugin_configurator
prepare env = do
  new_factory
  entries ← lift (get_system_interfaces_list env.entries)
  NetworkFactory.start entries
  lift (check_parsed env.file)
  lift (new_web_plugin_configurator env.calls)

-- `"../lib/lib" + plugin_type + ".so"`
abbrev pub library_path : Bytes → Bytes
library_path plugin_type = bytes "../lib/lib" ++ (plugin_type ++ bytes ".so")

abbrev pub after_signal : Signal → ℕ
after_signal Signal.sigint = 0
after_signal Signal.sigterm = 0
after_signal Signal.other_signal = 1

module _ (linker : Linker) (open_reader : Bytes → Reader) where
  -- The local variables `loaded_plugins` and `plugin_configurator`.
  pub record Loaded : Type 0 where
    pub loaders : Map Bytes (DLoader linker)
    pub configurator : PluginConfigurator

  abbrev remember_loader : Bytes → DLoader linker → Exec (Loaded × World) (DLoader linker)
  remember_loader plugin_type dl = do
    assign (λ l. record l { loaders = Map.insert plugin_type dl l.loaders })
    pure dl

  abbrev keep_loader : Bytes → Option (DLoader linker) → Exec (Loaded × World) (DLoader linker)
  keep_loader plugin_type (some dl) = pure dl
  keep_loader plugin_type none =
      lift (new_dloader linker (library_path plugin_type)) >>= remember_loader plugin_type

  -- The library of a type, which is opened once.
  unfoldable pub find_loader : Bytes → Exec (Loaded × World) (DLoader linker)
  unfolding new_dloader Map.lookup Map.insert
  find_loader plugin_type (l, w) = keep_loader plugin_type (Map.lookup plugin_type l.loaders) (l, w)

  -- The end of the `try` block: the plugin is added, or the exception is logged and the plugin goes away.
  abbrev pub started :
      Loaded → Outcome (Unit {0}) × (Plugin × World) → Outcome (Unit {0}) × (Loaded × World)
  started l (ok _, (p, w)) = (ok tt, (record l { configurator = add_plugin p l.configurator }, w))
  started l (throw _, (p, w)) = on_world (delete_plugin p) (l, w)
  started l (undefined, (p, w)) = (undefined, (l, w))

  -- The initial configuration and `exec`.
  unfoldable pub start_plugin : Map Bytes Bytes → Plugin → Exec (Loaded × World) (Unit {0})
  unfolding Plugin.configure Plugin.exec add_plugin delete_plugin
  start_plugin conf plugin (l, w) =
      started l ((Plugin.configure open_reader conf >> Plugin.exec) (plugin, w))

  -- The body of the loop: the loading stands outside of the `try` block.
  unfoldable pub load_plugin : Ini → Bytes → Exec (Loaded × World) (Unit {0})
  unfolding find_loader create_instance start_plugin get_plugin_configuration
  load_plugin reader plugin_type = do
    dl ← find_loader plugin_type
    plugin ← on_world (create_instance linker dl)
    start_plugin (get_plugin_configuration reader plugin_type) plugin

  unfoldable pub load_plugins : Ini → List Bytes → Exec (Loaded × World) (Unit {0})
  unfolding load_plugin
  load_plugins reader [] = pure tt
  load_plugins reader (plugin_type ∷ types) = do
    load_plugin reader plugin_type
    load_plugins reader types

  -- The loop over the sections, on the two local variables.
  unfoldable pub load_all : PluginFile → Exec (PluginConfigurator × World) (Unit {0})
  unfolding load_plugins
  load_all file (c, w) =
      let (r, (l, w')) =
        load_plugins file.entries file.sections (record { loaders = empty; configurator = c }, w) in
      (r, (l.configurator, w'))

  -- `main` up to the end of the program, with its exit status; `start` of the configurator starts the
  -- thread that accepts clients, and both `stop` are empty.
  unfoldable pub main : Environment → Exec (PluginConfigurator × World) ℕ
  unfolding prepare load_all
  main env =
      if env.masked == 0
      then (do
        on_world (prepare env)
        load_all env.file
        pure (if env.waited == 0 then after_signal env.signal else 1))
      else pure 1
