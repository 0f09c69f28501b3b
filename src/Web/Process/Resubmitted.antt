-- ===== src/Web/Process/Resubmitted.antt =====
-- The form of a routing specializer, submitted as it was shown.
use tu_thesis.Base.{sym, subst, ◌≡◌, ◌∙◌, ap, refl, ℕ, ◌<◌, ◌^◌, some, List, [], ◌∷◌, map, All}
use tu_thesis.Base.Int.{pos}
use tu_thesis.Text.Bytes.{Bytes, bytes}
use tu_thesis.Text.Stream.Split.{join_with}
use tu_thesis.Exec.{ok}
use tu_thesis.Map
use tu_thesis.Map.{Map, bytes_key, int_key, empty}
use tu_thesis.Map.Ascending
use tu_thesis.Map.Ascending.{IsAscending}
use tu_thesis.World.{World}
use tu_thesis.FileConfigurator.{Reader}
use tu_thesis.Plugin
use tu_thesis.Plugin.{routing_specializer}
use tu_thesis.PluginConfigurator.{PluginConfigurator}
use tu_thesis.RoutingSpecializer.{get_configuration, configure}
use tu_thesis.RoutingSpecializer.Loop.{Item, name_of, configuration, Distinct, Alive}
use tu_thesis.RoutingSpecializer.Reconfigured.{specializer, IsShown, Kept, configure_shown}
use tu_thesis.Web.Parse.{parse_data}
use tu_thesis.Web.Parse.Rows
use tu_thesis.Web.Parse.Rows.{IsField, field_line}
use tu_thesis.Web.PluginId.Link.{request_line}
use tu_thesis.Web.Process.{post}
use tu_thesis.Web.Process.Chosen.{submit_form, configured}

fields_of_items :
    (items : List Item) (m : Map Bytes Bytes)
    → Rows.insert_all (configuration items) m
      ≡ Ascending.insert_all name_of (λ i. i.destinations) items m
fields_of_items [] m = refl
fields_of_items (i ∷ items) m = fields_of_items items (Map.insert i.name i.destinations m)

fields_of_form :
    (items : List Item)
    → IsAscending name_of items
    → Rows.insert_all (configuration items) empty ≡ record { entries = configuration items }
fields_of_form items ascending =
    fields_of_items items empty
    ∙ Ascending.insert_all-append name_of (λ i. i.destinations) [] items ascending

module _ (open_reader : Bytes → Reader) (n : ℕ) (c : PluginConfigurator) (w : World)
    (header : Map Bytes Bytes) (rest : Bytes) (items : List Item) where
  -- The form of a routing specializer, submitted as it was shown, where each interface has a live
  -- specialization and a set of its own with distinct addresses without commas, the shell runs every
  -- command for the sets, and the text can be sent: the fields are those of the configuration, the plugin
  -- keeps its specializations, the copies of its sets hold the addresses of before, and the configuration
  -- that is shown of it is the same again. The number is an `int`.
  pub resubmit_specializer :
      Map.lookup (pos n) c.plugins ≡ some (routing_specializer (specializer items))
      → n < 2 ^ 31
      → Map.lookup (bytes "Type") header ≡ some (request_line (bytes "POST /?") n rest)
      → IsAscending name_of items
      → Distinct items
      → All (Alive w) items
      → All IsShown items
      → All IsField (configuration items)
      → let conf : Map Bytes Bytes = record { entries = configuration items } in
        let w' = (configure conf (specializer items, w)).1.1 in
        ((get_configuration (specializer items, w)).0 ≡ ok conf)
        × (parse_data (join_with b'\n' (map field_line (configuration items))) ≡ ok conf)
        × (post open_reader (record { header = header; fields = conf }) (c, w) ≡ (
          ok tt,
          (
            record c {
              plugins = Map.insert (pos n) (routing_specializer (specializer items)) c.plugins;
            },
            w',
          ),
        ))
        × ((get_configuration (specializer items, w')).0 ≡ ok conf)
        × Kept (λ i. i.set) w' items
  unfolding Plugin.configure
  resubmit_specializer found small type ascending distinct alive texts sendable =
      let conf : Map Bytes Bytes = record { entries = configuration items } in
      let fields = fields_of_form items ascending in
      let (parsed, posted) =
        submit_form open_reader n (routing_specializer (specializer items)) c w found header rest
          (configuration items) small sendable type in
      let (before, (done, is, after, kept)) =
        configure_shown items w ascending distinct alive texts in
      (
        before,
        parsed ∙ ap ok fields,
        subst
              (λ f.
                post open_reader (record { header = header; fields = f }) (c, w)
                ≡ configured open_reader n (routing_specializer (specializer items)) c w found f)
              fields posted
            ∙ rw (done, is) refl,
        ap (λ m. (get_configuration (m, (configure conf (specializer items, w)).1.1)).0) (sym is)
            ∙ after,
        kept,
      )
