-- ===== src/Tests/Exchange.antt =====
-- A browser that submits the form of a plugin, in two packets.
use tu_thesis.World.{World}
use tu_thesis.Base.Int.{pos}
use tu_thesis.Base.{◌≡◌, arith, refl, some, List, [], ◌∷◌, ◌++◌}
use tu_thesis.Text.Bytes.{Bytes, bytes, same, before}
use tu_thesis.Text.Number.{to_string}
use tu_thesis.Text.Search.{find}
use tu_thesis.Text.Stream.Split.{join_with}
use tu_thesis.Exec.{ok, undefined}
use tu_thesis.Map
use tu_thesis.Map.{Map, bytes_key, int_key}
use tu_thesis.PingSwitcher.{PingSwitcher, new_switcher}
use tu_thesis.Plugin.{ping_internet_switcher}
use tu_thesis.PluginConfigurator.{PluginConfigurator, new_configurator, add_plugin}
use tu_thesis.Web.Parse.Header.{Header, CanBeSent}
use tu_thesis.Web.PluginId.Link.{request_line}
use tu_thesis.Web.Process.{client_thread}
use tu_thesis.Web.Process.Posted.{answered, posted_request, client_thread_form}
use tu_thesis.Web.Process.Late.{client_thread_late}
use tu_thesis.Tests.{quiet, eth0}
use tu_thesis.Tests.Plugins.{no_file}
use tu_thesis.Web.Process.Visited.{client_thread_page}
use tu_thesis.Web.Page.Shown.{filled, Page}
use tu_thesis.Web.Page.{frame, form as form_of}
use tu_thesis.Plugin
use tu_thesis.PingSwitcher.{get_configuration}
use mathlib.Core.Option
use tu_thesis.Web.Process.{message_bytes}

abbrev switcher : PingSwitcher
switcher = record new_switcher { interfaces = eth0 ∷ [] }

abbrev one_plugin : PluginConfigurator
one_plugin = add_plugin (ping_internet_switcher switcher) new_configurator

-- The browser's last header is `Host`, whose last byte is lost.
abbrev header : Header
header = record {
  request_line = request_line (bytes "POST /?") 0 (bytes "HTTP/1.1");
  fields = (bytes "Content-Length", bytes "17") ∷ [];
  last_field = (bytes "Host", bytes "route");
  last_byte = b'r';
}

header-CanBeSent : CanBeSent header
unfolding bytes to_string
header-CanBeSent = record {
  request_line = ((refl, refl, omega arith), refl, refl);
  names = (refl, tt);
  lines = ((refl, refl, omega arith), tt);
  last_name = refl;
  last_line = (refl, refl, omega arith);
}

abbrev form : List (Bytes × Bytes)
form = (bytes "interfaces", bytes "eth1") ∷ []

abbrev first_packet : Bytes
first_packet = bytes "POST /?plugin=0 HTTP/1.1" ++ (b'\r' ∷ b'\n' ∷ [])

abbrev end_of_fields : Bytes
end_of_fields =
    bytes "Content-Length: 17"
    ++ (b'\r' ∷ b'\n' ∷ (bytes "Host: router" ++ (b'\r' ∷ b'\n' ∷ b'\r' ∷ b'\n' ∷ [])))

abbrev second_packet : Bytes
second_packet = end_of_fields ++ (bytes "interfaces=eth1" ++ (b'\r' ∷ b'\n' ∷ []))

client_thread_form_example :
    client_thread no_file 5 (first_packet ∷ second_packet ∷ []) (one_plugin, quiet)
    ≡ some (
        answered no_file 0
          (ping_internet_switcher switcher)
          one_plugin
          quiet
          (unfold bytes same before Map.lookup Map.insert add_plugin in refl)
          (omega arith)
          (posted_request header form))
unfolding bytes same before Map.lookup Map.insert add_plugin join_with to_string find
client_thread_form_example =
    client_thread_form no_file 0 (ping_internet_switcher switcher) one_plugin quiet refl
      (omega arith) header form 17 (bytes "HTTP/1.1") 5 (first_packet ∷ []) second_packet
      header-CanBeSent ((refl, refl), tt) refl (refl, (refl, tt)) refl (omega arith) (omega arith)
      ((omega arith, refl), tt) (omega arith, refl) (omega arith) refl refl

client_thread_late_example :
    client_thread no_file 5
      (first_packet ∷ end_of_fields ∷ bytes "interfaces=eth1.." ∷ [])
      (one_plugin, quiet)
    ≡ some (undefined, (one_plugin, quiet))
unfolding bytes same before Map.lookup Map.insert join_with to_string find
client_thread_late_example =
    client_thread_late no_file header 16 5 (first_packet ∷ []) end_of_fields []
      (bytes "interfaces=eth1..") [] (one_plugin, quiet) header-CanBeSent refl (omega arith)
      (omega arith) ((omega arith, refl), tt) (omega arith, refl) (omega arith) refl refl

-- A page with a heading and the form.
abbrev page : Page
page = record {
  before = bytes "<h1>";
  between = bytes "</h1>";
  behind = bytes "<hr>";
  no_before = unfold bytes in refl;
  no_between = unfold bytes in refl;
  no_behind = unfold bytes in refl;
}

abbrev with_page : World
with_page = record quiet {
  files =
      Map.insert (bytes "../config/UI/index.html") (bytes "<h1>$PLUGIN_NAME</h1>$CONFIGURATION<hr>")
        Map.empty;
}

-- A browser that follows the link of the plugin.
abbrev visit_header : Header
visit_header = record {
  request_line = request_line (bytes "GET /?") 0 (bytes "HTTP/1.1");
  fields = [];
  last_field = (bytes "Host", bytes "route");
  last_byte = b'r';
}

visit_header-CanBeSent : CanBeSent visit_header
unfolding bytes to_string
visit_header-CanBeSent = record {
  request_line = ((refl, refl, omega arith), refl, refl);
  names = tt;
  lines = tt;
  last_name = refl;
  last_line = (refl, refl, omega arith);
}

abbrev visit_packet : Bytes
visit_packet =
    bytes "GET /?plugin=0 HTTP/1.1"
    ++ (b'\r' ∷ b'\n' ∷ (bytes "Host: router" ++ (b'\r' ∷ b'\n' ∷ b'\r' ∷ b'\n' ∷ [])))

client_thread_page_example :
    Option.map (λ r. r.0) (client_thread no_file 5 (visit_packet ∷ []) (one_plugin, with_page))
    ≡ some (
        ok (
          message_bytes (bytes "text/html") (
            filled page
              (bytes "Ping Internet Switcher")
              (form_of (pos 0) (get_configuration switcher)))))
unfolding bytes same before Map.lookup Map.insert add_plugin join_with to_string find frame
    get_configuration Plugin.get_configuration Plugin.get_name form_of
client_thread_page_example =
    client_thread_page no_file page 0 (bytes "HTTP/1.1") visit_header
      (ping_internet_switcher switcher) (ping_internet_switcher switcher)
      (get_configuration switcher) one_plugin with_page with_page 5 [] visit_packet
      visit_header-CanBeSent refl (refl, tt) refl (omega arith) tt (omega arith, refl) (omega arith)
      refl refl refl refl refl refl refl
