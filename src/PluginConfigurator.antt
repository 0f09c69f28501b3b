-- ===== src/PluginConfigurator.antt =====
-- PluginConfigurator/src/PluginConfigurator.cpp: the plugins by number.
pub mod Numbers
use tu_thesis.Base.{ℕ, ◌+◌, ◌%◌, ◌^◌, Option, none, some}
use tu_thesis.Base.Int.{ℤ, pos, to_int}
use tu_thesis.Text.Bytes.{Bytes, bytes}
use tu_thesis.Exec.{Exec, Outcome, out_of_range, pure, raise}
use tu_thesis.Map
use tu_thesis.Map.{Map, empty, int_key}
use tu_thesis.World.{World}
use tu_thesis.Plugin.{Plugin}

-- `next_id` is the static `id` of `addPlugin`, a `uint`.
pub record PluginConfigurator : Type 0 where
  pub plugins : Map ℤ Plugin
  pub next_id : ℕ

abbrev pub new_configurator : PluginConfigurator
new_configurator = record { plugins = empty; next_id = 0 }

-- `this->plugins[id++] = plugin;`, where the key is an `int`.
unfoldable pub add_plugin : Plugin → PluginConfigurator → PluginConfigurator
unfolding to_int
add_plugin plugin c = record c {
  plugins = Map.insert (to_int (pos c.next_id)) plugin c.plugins;
  next_id = (c.next_id + 1) % 2 ^ 32;
}

-- A method has run on the plugin of a number.
abbrev pub store_plugin :
    {A : Type 0}
    → ℤ
    → PluginConfigurator
    → Outcome A × (Plugin × World)
    → Outcome A × (PluginConfigurator × World)
store_plugin id c (r, (p, w)) = (r, (record c { plugins = Map.insert id p c.plugins }, w))

abbrev pub on_found :
    {A : Type 0}
    → ℤ
    → Exec (Plugin × World) A
    → PluginConfigurator
    → Option Plugin
    → World
    → Outcome A × (PluginConfigurator × World)
on_found id m c none w = raise (out_of_range (bytes "map::at")) (c, w)
on_found id m c (some p) w = store_plugin id c (m (p, w))

-- A method of `this->plugins.at(id)`; `at` throws.
unfoldable pub on_plugin :
    {A : Type 0} → ℤ → Exec (Plugin × World) A → Exec (PluginConfigurator × World) A
unfolding Map.lookup
on_plugin id m (c, w) = on_found id m c (Map.lookup id c.plugins) w
