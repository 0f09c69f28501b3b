-- ===== src/Web/Page.antt =====
-- `generateHTMLMessage`: the page that answers a request.
pub mod Shown
use tu_thesis.Base.{List, [], ◌∷◌, ◌++◌, if◌then◌else◌}
use tu_thesis.Base.Int.{ℤ, negsuc, same_int}
use tu_thesis.Text.Bytes.{Bytes, bytes}
use tu_thesis.Text.Number.{int_to_string}
use tu_thesis.Exec.{Exec, Exception, out_of_range, pure, raise, lift, try, ◌>>=◌}
use tu_thesis.Map
use tu_thesis.Map.{Map, bytes_key, value_or_empty}
use tu_thesis.World.{World}
use tu_thesis.Plugin
use tu_thesis.Plugin.{Plugin}
use tu_thesis.PluginConfigurator.{PluginConfigurator, on_plugin}
use tu_thesis.Web.Socket.{Request}
use tu_thesis.Web.PluginId.{plugin_id}
use tu_thesis.Web.Replace.{regex_replace}

-- The contents of a file, nothing if it cannot be opened.
unfoldable pub read_file : Bytes → World → Bytes
unfolding Map.lookup
read_file name w = value_or_empty (Map.lookup name w.files)

-- A link of the menu for each plugin.
unfoldable pub menu_links : List (ℤ × Plugin) → Bytes
unfolding int_to_string Plugin.get_name
menu_links [] = []
menu_links ((id, plugin) ∷ plugins) =
    bytes "<a href=\"/?plugin="
    ++ (int_to_string id
        ++ (bytes "\"><li>"
            ++ (Plugin.get_name plugin ++ (bytes "</li></a>" ++ menu_links plugins))))

unfoldable pub menu : List (ℤ × Plugin) → Bytes
unfolding menu_links
menu plugins = bytes "<ul class=\"center\">" ++ (menu_links plugins ++ bytes "</ul>")

-- An input for each entry of the configuration.
unfoldable pub inputs : List (Bytes × Bytes) → Bytes
inputs [] = []
inputs ((key, value) ∷ entries) =
    bytes "<div class=\"conf\"><label>"
    ++ (key
        ++ (bytes ": </label><input type=\"text\" name=\""
            ++ (key ++ (bytes "\" value=\"" ++ (value ++ (bytes "\"></div>" ++ inputs entries))))))

unfoldable pub form : ℤ → Map Bytes Bytes → Bytes
unfolding inputs int_to_string
form id conf =
    bytes "<form enctype=\"text/plain\" action=\"/?plugin="
    ++ (int_to_string id
        ++ (bytes "\" method=\"POST\">"
            ++ (inputs conf.entries ++ bytes "<input type=\"submit\" value=\"Update\"/></form>")))

-- The two files, with the style and the menu filled in.
unfoldable pub frame : PluginConfigurator → World → Bytes
unfolding read_file menu regex_replace
frame c w =
    regex_replace
      (regex_replace (read_file (bytes "../config/UI/index.html") w) (bytes "$CSS")
        (read_file (bytes "../config/UI/design.css") w))
      (bytes "$MENU") (menu c.plugins.entries)

-- `getConfiguration` and `getName` of a plugin.
abbrev pub describe : Exec (Plugin × World) (Map Bytes Bytes × Bytes)
describe = do conf ← Plugin.get_configuration; (λ (p, w). pure (conf, Plugin.get_name p) (p, w))

-- The page and the configuration, if the request has the number of a plugin; -1 is `npos`.
unfoldable pub fill_in : Bytes → ℤ → Exec (PluginConfigurator × World) (Bytes × Bytes)
unfolding on_plugin Plugin.get_configuration Plugin.get_name form regex_replace
fill_in html id = if same_int id (negsuc 0) then pure (html, []) else (do
  (conf, name) ← on_plugin id describe
  pure (regex_replace html (bytes "$PLUGIN_NAME") name, form id conf))

-- `catch(std::out_of_range& e)`: the page as it was, and no configuration.
abbrev pub without_form : Bytes → Exception → Exec (PluginConfigurator × World) (Bytes × Bytes)
without_form html (out_of_range _) = pure (html, [])
without_form html e = raise e

-- The `try` block.
unfoldable pub fill_in_safely : Request → Bytes → Exec (PluginConfigurator × World) (Bytes × Bytes)
unfolding fill_in plugin_id
fill_in_safely r html = try (do id ← lift (plugin_id r); fill_in html id) (without_form html)

abbrev pub with_configuration : Bytes × Bytes → Exec (PluginConfigurator × World) Bytes
with_configuration (html, conf) = pure (regex_replace html (bytes "$CONFIGURATION") conf)

-- `generateHTMLMessage`
unfoldable pub generate_html_message : Request → Exec (PluginConfigurator × World) Bytes
unfolding frame fill_in_safely regex_replace
generate_html_message r (c, w) = (fill_in_safely r (frame c w) >>= with_configuration) (c, w)
