-- ===== src/Web/Process/Visited.antt =====
-- A client that follows a link of the menu, from its packets to the page.
use tu_thesis.Base.{
  ℕ, ◌<◌, ◌^◌, ◌≡◌, ◌∙◌, ap, refl, false, none, some, [], ◌∷◌, ◌++◌, All, has, length,
  if◌then◌else◌, take-length-append,
}
use mathlib.Core.Option
use tu_thesis.Base.Int.{pos}
use tu_thesis.Text.Bytes.{Bytes, bytes, same}
use tu_thesis.Text.Search.{find, find_byte}
use tu_thesis.Exec.{ok, pure, continue, Outcome, ◌>>◌}
use tu_thesis.Map
use tu_thesis.Map.{Map, empty, bytes_key, int_key, value_or_empty}
use tu_thesis.World.{World}
use tu_thesis.FileConfigurator.{Reader}
use tu_thesis.Plugin
use tu_thesis.Plugin.{Plugin}
use tu_thesis.PluginConfigurator.{PluginConfigurator}
use tu_thesis.Web.Parse.{parse_header}
use tu_thesis.Web.Parse.Header.{
  Header, CanBeSent, header_text, header_map, header_text-end, parse_header-header_text,
}
use tu_thesis.Web.Socket.{Request, Socket, end_of_header, finish_request, read_request}
use tu_thesis.Web.Socket.Reading.{concat, Fits}
use tu_thesis.Web.Socket.Whole.{read_header_whole}
use tu_thesis.Web.PluginId.Link.{request_line}
use tu_thesis.Web.Page.{frame, form, generate_html_message}
use tu_thesis.Web.Page.Shown.{Page, with_marks, filled, page_shows}
use tu_thesis.Web.Process.{post, process_request, client_thread, message_bytes, method_of}
use tu_thesis.Web.Process.Chosen.{plugin_id_named}
use tu_thesis.Web.Process.Posted.{type_of_header}

-- Without a length nothing is read as data.
finish_plain :
    (text : Bytes) (header : Map Bytes Bytes) (socket : Socket)
    → parse_header text ≡ ok header
    → Map.lookup (bytes "Content-Length") header ≡ none
    → finish_request (record {
      header_end = length text;
      request = text ++ (end_of_header ++ []);
      socket = socket;
    })
      ≡ ok (record { header = header; fields = empty })
unfolding finish_request
finish_plain text header socket header_read missing =
    rw (take-length-append text (end_of_header ++ []), header_read) (rw missing refl)

method_visited :
    (n : ℕ) (rest : Bytes)
    → same (bytes "POST") (method_of (request_line (bytes "GET /?") n rest)) ≡ false
unfolding bytes same find_byte
method_visited n rest = refl

process_other :
    (open_reader : Bytes → Reader) (r : Request) (type : Bytes) (s : PluginConfigurator × World)
    → Map.lookup (bytes "Type") r.header ≡ some type
    → same (bytes "POST") (method_of type) ≡ false
    → process_request open_reader r s ≡ generate_html_message r s
unfolding process_request
process_other open_reader r type s told other =
    ap
      (λ o.
        ((if same (bytes "POST") (method_of (value_or_empty o))
              then post open_reader r
              else pure tt)
            >> generate_html_message r)
          s)
      told
    ∙ ap (λ b. ((if b then post open_reader r else pure tt) >> generate_html_message r) s) other

sent_page :
    (o : Outcome Bytes × (PluginConfigurator × World)) (html : Bytes)
    → o.0 ≡ ok html
    → (continue o.0 (λ page. pure (message_bytes (bytes "text/html") page)) o.1).0
      ≡ ok (message_bytes (bytes "text/html") html)
sent_page o html e = rw e refl

-- The request that the header alone is read as.
abbrev pub visit : Header → Request
visit h = record { header = header_map h; fields = empty }

-- A client that asks for a link of the menu, in packets of which the last one completes the header and
-- brings nothing else, without a length: what is sent is the page with the name of the plugin of the
-- link, and the form of its configuration. The number is an `int`; the files hold the two marks once,
-- in their order, and no dollar sign stands elsewhere, in the name or in the form.
pub client_thread_page :
    (open_reader : Bytes → Reader) (page : Page) (n : ℕ) (rest : Bytes) (h : Header) (p p' : Plugin)
    (conf : Map Bytes Bytes) (c : PluginConfigurator) (w w' : World) (fuel : ℕ) (packets : Socket)
    (last : Bytes)
    → CanBeSent h
    → h.request_line ≡ request_line (bytes "GET /?") n rest
    → All (λ f. same f.0 (bytes "Type") ≡ false) (h.fields ++ (h.last_field ∷ []))
    → Map.lookup (bytes "Content-Length") (header_map h) ≡ none
    → n < 2 ^ 31
    → All Fits packets
    → Fits last
    → length packets < fuel
    → find end_of_header (concat packets) ≡ none
    → concat packets ++ last ≡ header_text h ++ (end_of_header ++ [])
    → frame c w ≡ with_marks page
    → Map.lookup (pos n) c.plugins ≡ some p
    → Plugin.get_configuration (p, w) ≡ (ok conf, (p', w'))
    → has b'$' (Plugin.get_name p') ≡ false
    → has b'$' (form (pos n) conf) ≡ false
    → Option.map (λ r. r.0) (client_thread open_reader fuel (packets ++ (last ∷ [])) (c, w))
      ≡ some (
          ok (
            message_bytes
              (bytes "text/html")
              (filled page (Plugin.get_name p') (form (pos n) conf))))
unfolding client_thread
client_thread_page open_reader page n rest h p p' conf c w w' fuel packets last v line others
      missing small fit fits rounds unended whole marks there found no_name no_conf =
    let ends : find end_of_header (concat packets ++ last) ≡ some (length (header_text h)) =
      ap (find end_of_header) whole ∙ header_text-end h v [] in
    let got : read_request fuel (packets ++ (last ∷ [])) ≡ some (ok (visit h)) =
      unfold read_request in
      rw (read_header_whole fuel [] packets last [] _ fit fits rounds unended ends, read_request)
        (ap
            (λ text. some (
              finish_request
                (record { header_end = length (header_text h); request = text; socket = [] })))
            whole
          ∙ ap some (
              finish_plain (header_text h) (header_map h) [] (parse_header-header_text h v)
                missing)) in
    let type = type_of_header h others ∙ ap some line in
    let shown =
      page_shows page (visit h) (pos n) p p' conf c w w' marks
        (unfold bytes in
          plugin_id_named (bytes "GET /?") (header_map h) empty n rest refl small type)
        refl there found no_name no_conf in
    rw got (
      rw (process_other open_reader (visit h) _ (c, w) type (method_visited n rest))
        (ap some (sent_page (generate_html_message (visit h) (c, w)) _ shown)))
