-- ===== src/Web/Process/Chosen.antt =====
-- What a request changes: the plugin that it names, and no other.
use tu_thesis.Base.{
  ℕ, ◌<◌, ◌^◌, ◌∙◌, ap, ◌≡◌, ◌≢◌, refl, Option, none, some, List, map, inl, inr, Bool-cases, All,
  has, false,
}
use tu_thesis.Base.Int.{ℤ, pos, same_int, same_int_iff}
use tu_thesis.Text.Bytes.{Bytes, bytes}
use tu_thesis.Exec.{handle, pure, Exec, Outcome, ok, throw}
use tu_thesis.Exec.Preserves.{Preserves}
use tu_thesis.Map
use tu_thesis.Map.{Map, int_key, bytes_key, empty, lookup-insert, value_or_empty}
use tu_thesis.World.{World}
use tu_thesis.FileConfigurator.{Reader}
use tu_thesis.Plugin
use tu_thesis.Plugin.{Plugin, ping_internet_switcher}
use tu_thesis.PingSwitcher.{PingSwitcher, configure, get_configuration}
use tu_thesis.PingSwitcher.Configuration.{configure-get_configuration}
use tu_thesis.PluginConfigurator.{PluginConfigurator, on_plugin, on_found}
use tu_thesis.Text.Stream.Split.{IsItem, join_with}
use tu_thesis.Web.Parse.{parse_data}
use tu_thesis.Web.Parse.Rows.{IsField, field_line, insert_all, parse_data_form}
use tu_thesis.Web.Socket.{Request}
use tu_thesis.Web.PluginId.{plugin_id}
use tu_thesis.Web.PluginId.Link.{request_line, plugin_id-link}
use tu_thesis.Web.Process.{configure_plugin, post, process_request}
use tu_thesis.Web.Process.Rules.{process_request-Preserves}

-- The plugin of a number is `o`.
abbrev Stored : ℤ → Option Plugin → PluginConfigurator × World → Type 0
Stored j o (c, w) = Map.lookup j c.plugins ≡ o

on_plugin-Stored :
    (j : ℤ) (o : Option Plugin) (A : Type 0) (id : ℤ) (m : Exec (Plugin × World) A)
    → id ≢ j
    → Preserves (Stored j o) (on_plugin id m)
unfolding on_plugin
on_plugin-Stored j o A id m other = record {
  holds = λ (c, w) q. found c w q (Map.lookup id c.plugins);
}
  where
    found :
        (c : PluginConfigurator) (w : World)
        → Stored j o (c, w)
        → (p : Option Plugin) → Stored j o (on_found id m c p w).1
    found c w q none = q
    found c w q (some p) = elim (Bool-cases (same_int id j)) [
      | inl e ↦ absurd (other ((same_int_iff id j).0 e))
      | inr e ↦ rw lookup-insert (rw e q)
    ]

pub plugin_id_named :
    (before : Bytes) (header fields : Map Bytes Bytes) (n : ℕ) (rest : Bytes)
    → has b'p' before ≡ false
    → n < 2 ^ 31
    → Map.lookup (bytes "Type") header ≡ some (request_line before n rest)
    → plugin_id (record { header = header; fields = fields }) ≡ ok (pos n)
unfolding plugin_id
plugin_id_named before header fields n rest clean small type =
    rw type (plugin_id-link before n rest clean small)

pub plugin_id_of_link :
    (header fields : Map Bytes Bytes) (n : ℕ) (rest : Bytes)
    → n < 2 ^ 31
    → Map.lookup (bytes "Type") header ≡ some (request_line (bytes "POST /?") n rest)
    → plugin_id (record { header = header; fields = fields }) ≡ ok (pos n)
unfolding bytes
plugin_id_of_link header fields n rest small type =
    plugin_id_named (bytes "POST /?") header fields n rest refl small type

module _ (open_reader : Bytes → Reader) where
  -- Every plugin that the request does not name is as it was, whatever the request is and however its
  -- handling ends.
  pub process_request_others :
      (r : Request) (j : ℤ) (c : PluginConfigurator) (w : World)
      → plugin_id r ≢ ok j
      → Map.lookup j (process_request open_reader r (c, w)).1.0.plugins ≡ Map.lookup j c.plugins
  process_request_others r j c w other =
      (process_request-Preserves (Stored j (Map.lookup j c.plugins)) r
          (λ A id m e.
            on_plugin-Stored j (Map.lookup j c.plugins) A id m (λ same. other (e ∙ ap ok same)))
          open_reader).holds
        (c, w) refl

  -- A plugin and the world after `configure`; an exception of it is logged.
  abbrev logged : Outcome (Unit {0}) → Outcome (Unit {0})
  logged (throw x) = ok tt
  logged (ok u) = ok u
  logged Outcome.undefined = Outcome.undefined

  handle-logged :
      {S : Type 0} (r : Outcome (Unit {0})) (s : S) → handle r (λ _. pure tt) s ≡ (logged r, s)
  handle-logged (throw x) s = refl
  handle-logged (ok u) s = refl
  handle-logged Outcome.undefined s = refl

  module _ (n : ℕ) (p : Plugin) (c : PluginConfigurator) (w : World)
      (found : Map.lookup (pos n) c.plugins ≡ some p) where
    -- What a `POST` for the plugin is to leave.
    abbrev pub configured : Map Bytes Bytes → Outcome (Unit {0}) × (PluginConfigurator × World)
    configured fields =
        let (r, (p', w')) = Plugin.configure open_reader fields (p, w) in
        (logged r, (record c { plugins = Map.insert (pos n) p' c.plugins }, w'))

    pub post_named :
        (r : Request) → plugin_id r ≡ ok (pos n) → post open_reader r (c, w) ≡ configured r.fields
    unfolding post configure_plugin on_plugin
    post_named r named = rw named (rw found (handle-logged _ _))

    -- A form whose names and values can be sent, submitted to the link of the plugin, whatever stands
    -- behind the link in the request line: its text is parsed to the fields, and the plugin is
    -- configured with these; an exception of it is logged. The number is an `int`.
    pub submit_form :
        (header : Map Bytes Bytes) (rest : Bytes) (form : List (Bytes × Bytes))
        → n < 2 ^ 31
        → All IsField form
        → Map.lookup (bytes "Type") header ≡ some (request_line (bytes "POST /?") n rest)
        → (parse_data (join_with b'\n' (map field_line form)) ≡ ok (insert_all form empty))
          × (post open_reader (record { header = header; fields = insert_all form empty }) (c, w)
              ≡ configured (insert_all form empty))
    submit_form header rest form small fields type =
        (parse_data_form form fields, post_named _ (plugin_id_of_link header _ n rest small type))

entries_again :
    (p : PingSwitcher) → insert_all (get_configuration p).entries empty ≡ get_configuration p
unfolding get_configuration Map.insert
entries_again p = refl

configured_again :
    (p : PingSwitcher)
    → All (IsItem b',') p.interfaces
    → configure (insert_all (get_configuration p).entries empty) p ≡ p
unfolding configure
configured_again p items =
    ap (λ conf. configure conf p) (entries_again p)
    ∙ ap (λ names. record p { interfaces = names }) (configure-get_configuration p p items)

-- The form of a switcher, submitted as it was shown, if no interface has a comma in its name and the
-- text can be sent: the switcher is as it was, and so is the world. The number is an `int`.
pub resubmit_switcher :
    (open_reader : Bytes → Reader) (n : ℕ) (p : PingSwitcher) (c : PluginConfigurator) (w : World)
    (header : Map Bytes Bytes) (rest : Bytes)
    → Map.lookup (pos n) c.plugins ≡ some (ping_internet_switcher p)
    → n < 2 ^ 31
    → All IsField (get_configuration p).entries
    → All (IsItem b',') p.interfaces
    → Map.lookup (bytes "Type") header ≡ some (request_line (bytes "POST /?") n rest)
    → (fields : Map Bytes Bytes) × (parse_data
          (join_with b'\n' (map field_line (get_configuration p).entries))
        ≡ ok fields)
      × (post open_reader (record { header = header; fields = fields }) (c, w) ≡ (
        ok tt,
        (record c { plugins = Map.insert (pos n) (ping_internet_switcher p) c.plugins }, w),
      ))
unfolding Plugin.configure
resubmit_switcher open_reader n p c w header rest found small sendable items type =
    let (parsed, posted) =
      submit_form open_reader n (ping_internet_switcher p) c w found header rest
        (get_configuration p).entries small sendable type in
    (
      insert_all (get_configuration p).entries empty,
      parsed,
      posted
          ∙ ap
              (λ q. (
                ok tt,
                (record c { plugins = Map.insert (pos n) (ping_internet_switcher q) c.plugins }, w),
              ))
              (configured_again p items),
    )
