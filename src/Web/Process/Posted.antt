-- ===== src/Web/Process/Posted.antt =====
-- A client that submits a form, from its packets to the answer.
use tu_thesis.Web.Process.Chosen.{configured}
use tu_thesis.World.{World}
use tu_thesis.PluginConfigurator.{PluginConfigurator}
use tu_thesis.Web.Process.{method_of}
use tu_thesis.Plugin.{Plugin}
use tu_thesis.FileConfigurator.{Reader}
use tu_thesis.Base.{
  true, false, ℕ, ◌≤◌, ◌<◌, ◌^◌, ◌≡◌, ◌∙◌, ap, refl, none, some, List, [], ◌∷◌, ◌++◌, map, arith,
  All, length, Bool-cases, inl, inr, ◌==◌, take-length-append, drop_more,
}
use tu_thesis.Base.Int.{pos, to_int}
use tu_thesis.Text.Bytes.{same, Bytes, bytes}
use tu_thesis.Text.Number.{to_string}
use tu_thesis.Text.Number.RoundTrip.{stoi-number}
use tu_thesis.Text.Search.{find_byte, find}
use tu_thesis.Text.Stream.Split.{join_with}
use tu_thesis.Exec.{ok, pure, ◌>>=◌, ◌>>◌, continue, Outcome}
use tu_thesis.Map
use tu_thesis.Map.{Map, empty, bytes_key, int_key, lookup-insert, lookup-insert_self}
use tu_thesis.Web.Parse.{parse_header, parse_data}
use tu_thesis.Web.Parse.Rows.{IsField, field_line, insert_all, parse_data_form}
use tu_thesis.Web.Parse.Header.{
  Header, CanBeSent, header_text, header_map, header_text-end, parse_header-header_text,
}
use tu_thesis.Web.Socket.{
  Request, Socket, end_of_header, read_body, minus, finish_request, read_request,
}
use tu_thesis.Web.Socket.Reading.{concat, Fits}
use tu_thesis.Web.Socket.Whole.{read_header_whole}
use tu_thesis.Web.PluginId.Link.{request_line}
use tu_thesis.Web.Process.{process_request, client_thread, message_bytes, post}
use tu_thesis.Web.Page.{generate_html_message}
use tu_thesis.Web.Process.Chosen.{post_named, plugin_id_of_link}

abbrev pub form_text : List (Bytes × Bytes) → Bytes
form_text form = join_with b'\n' (map field_line form)

-- The whole request.
abbrev pub posted_text : Header → List (Bytes × Bytes) → Bytes
posted_text h form = header_text h ++ (end_of_header ++ form_text form)

-- What it is to be read as.
abbrev pub posted_request : Header → List (Bytes × Bytes) → Request
posted_request h form = record { header = header_map h; fields = insert_all form empty }

-- The body is here already if it is not shorter than the header says.
nothing_to_read :
    (m : ℕ) (body : Bytes) (socket : Socket)
    → m ≤ length body
    → length body < 2 ^ 31
    → read_body (to_int (minus (pos m) (length body))) body socket ≡ ok body
unfolding to_int
nothing_to_read m body socket enough small = elim (Bool-cases (m == length body)) [
  | inl e ↦ ground arith
  | inr e ↦ ground arith
]

finish_read :
    (text body : Bytes) (header fields : Map Bytes Bytes) (m : ℕ) (socket : Socket)
    → parse_header text ≡ ok header
    → Map.lookup (bytes "Content-Length") header ≡ some (to_string m)
    → m ≤ length body
    → length body < 2 ^ 31
    → parse_data body ≡ ok fields
    → finish_request (record {
      header_end = length text;
      request = text ++ (end_of_header ++ body);
      socket = socket;
    })
      ≡ ok (record { header = header; fields = fields })
unfolding finish_request
finish_read text body header fields m socket header_read told enough small body_read =
    rw (take-length-append text (end_of_header ++ body), header_read)
      (rw (drop_more 4 text (end_of_header ++ body), told)
        (rw (stoi-number m (omega arith))
          (rw (nothing_to_read m body socket enough small) (rw body_read refl))))

module _ (h : Header) (form : List (Bytes × Bytes)) (m : ℕ) (v : CanBeSent h)
    (fields : All IsField form)
    (told : Map.lookup (bytes "Content-Length") (header_map h) ≡ some (to_string m))
    (enough : m ≤ length (form_text form)) (small : length (form_text form) < 2 ^ 31) where
  finish_posted :
      finish_request
        (record { header_end = length (header_text h); request = posted_text h form; socket = [] })
      ≡ ok (posted_request h form)
  finish_posted =
      finish_read (header_text h) (form_text form) (header_map h) (insert_all form empty) m []
        (parse_header-header_text h v) told enough small (parse_data_form form fields)

  read_posted :
      (fuel : ℕ) (packets : Socket) (last : Bytes)
      → All Fits packets
      → Fits last
      → length packets < fuel
      → find end_of_header (concat packets) ≡ none
      → concat packets ++ last ≡ posted_text h form
      → read_request fuel (packets ++ (last ∷ [])) ≡ some (ok (posted_request h form))
  unfolding read_request
  read_posted fuel packets last fit fits rounds unended whole =
      let found : find end_of_header (concat packets ++ last) ≡ some (length (header_text h)) =
        ap (find end_of_header) whole ∙ header_text-end h v (form_text form) in
      rw (read_header_whole fuel [] packets last [] _ fit fits rounds unended found, read_request)
        (ap
            (λ text. some (
              finish_request
                (record { header_end = length (header_text h); request = text; socket = [] })))
            whole
          ∙ ap some finish_posted)

lookup-insert_all :
    (key : Bytes) (form : List (Bytes × Bytes)) (fields : Map Bytes Bytes)
    → All (λ f. same f.0 key ≡ false) form
    → Map.lookup key (insert_all form fields) ≡ Map.lookup key fields
lookup-insert_all key [] fields h = refl
lookup-insert_all key ((name, value) ∷ form) fields (h, hs) =
    lookup-insert_all key form (Map.insert name value fields) hs ∙ rw (lookup-insert, h) refl

pub type_of_header :
    (h : Header)
    → All (λ f. same f.0 (bytes "Type") ≡ false) (h.fields ++ (h.last_field ∷ []))
    → Map.lookup (bytes "Type") (header_map h) ≡ some h.request_line
type_of_header h others =
    lookup-insert_all (bytes "Type") (h.fields ++ (h.last_field ∷ [])) _ others
    ∙ lookup-insert_self (bytes "Type") h.request_line empty

method_posted :
    (n : ℕ) (rest : Bytes)
    → same (bytes "POST") (method_of (request_line (bytes "POST /?") n rest)) ≡ true
unfolding bytes same find_byte
method_posted n rest = refl

process_post :
    (open_reader : Bytes → Reader) (r : Request) (type : Bytes) (s : PluginConfigurator × World)
    → Map.lookup (bytes "Type") r.header ≡ some type
    → same (bytes "POST") (method_of type) ≡ true
    → process_request open_reader r s ≡ (post open_reader r >> generate_html_message r) s
unfolding process_request
process_post open_reader r type s told posted = rw told (rw posted refl)

module _ (open_reader : Bytes → Reader) (n : ℕ) (p : Plugin) (c : PluginConfigurator) (w : World)
    (found : Map.lookup (pos n) c.plugins ≡ some p) (small_id : n < 2 ^ 31) where
  -- The plugin is configured, and then the page is made and sent.
  abbrev pub answered : Request → Outcome Bytes × (PluginConfigurator × World)
  answered r =
      (((λ _. configured open_reader n p c w found r.fields) >> generate_html_message r) >>= λ page.
      pure (message_bytes (bytes "text/html") page))
        (c, w)

  process_posted :
      (r : Request) (rest : Bytes)
      → Map.lookup (bytes "Type") r.header ≡ some (request_line (bytes "POST /?") n rest)
      → process_request open_reader r (c, w)
        ≡ ((λ _. configured open_reader n p c w found r.fields) >> generate_html_message r) (c, w)
  process_posted r rest type =
      process_post open_reader r _ (c, w) type (method_posted n rest)
      ∙ ap (λ (a, t). continue a (λ _. generate_html_message r) t)
          (post_named open_reader n p c w found r
            (plugin_id_of_link r.header r.fields n rest small_id type))

  pub client_thread_form :
      (h : Header) (form : List (Bytes × Bytes)) (m : ℕ) (rest : Bytes) (fuel : ℕ)
      (packets : Socket) (last : Bytes)
      → CanBeSent h
      → All IsField form
      → h.request_line ≡ request_line (bytes "POST /?") n rest
      → All (λ f. same f.0 (bytes "Type") ≡ false) (h.fields ++ (h.last_field ∷ []))
      → Map.lookup (bytes "Content-Length") (header_map h) ≡ some (to_string m)
      → m ≤ length (form_text form)
      → length (form_text form) < 2 ^ 31
      → All Fits packets
      → Fits last
      → length packets < fuel
      → find end_of_header (concat packets) ≡ none
      → concat packets ++ last ≡ posted_text h form
      → client_thread open_reader fuel (packets ++ (last ∷ [])) (c, w)
        ≡ some (answered (posted_request h form))
  unfolding client_thread
  client_thread_form h form m rest fuel packets last v fields line others told enough small fit fits
        rounds unended whole =
      rw
        (read_posted h form m v fields told enough small fuel packets last fit fits rounds unended
          whole)
        (rw (process_posted (posted_request h form) rest (type_of_header h others ∙ ap some line))
          refl)
