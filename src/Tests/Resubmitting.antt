-- ===== src/Tests/Resubmitting.antt =====
-- A routing specializer for two interfaces, whose form is submitted as it was shown.
use tu_thesis.Base.{◌≡◌, All, ℕ, refl, [], ◌∷◌, List, map, arith}
use tu_thesis.Base.Int.{pos}
use tu_thesis.Text.Bytes.{Bytes, bytes, same, before}
use tu_thesis.Text.Stream.{getlines, getlines_from, getline, break_at}
use tu_thesis.Text.Stream.Split.{join_with}
use tu_thesis.Exec.{ok}
use tu_thesis.Map
use tu_thesis.Map.{Map, bytes_key, int_key}
use tu_thesis.Map.Ascending.{entries_of}
use tu_thesis.Shared
use tu_thesis.Shared.{no_objects, object_at}
use tu_thesis.World.{World, IpSet, TrafficSpecialization}
use tu_thesis.IpSet.{contains}
use tu_thesis.IpSet.Entered.{entered}
use tu_thesis.Plugin.{routing_specializer}
use tu_thesis.PluginConfigurator.{PluginConfigurator, new_configurator, add_plugin}
use tu_thesis.RoutingSpecializer.{get_configuration, configure}
use tu_thesis.RoutingSpecializer.Wrote.{Accepts}
use tu_thesis.RoutingSpecializer.Loop.{Item, Alive, configuration, name_of, filled_set}
use tu_thesis.RoutingSpecializer.Again.{shown}
use tu_thesis.RoutingSpecializer.Reconfigured.{IsShown, Kept, specializer, configure_destinations}
use tu_thesis.Web.Parse.{parse_data}
use tu_thesis.Web.Parse.Rows.{field_line}
use tu_thesis.Web.PluginId.Link.{request_line}
use tu_thesis.Web.Process.{post}
use tu_thesis.Web.Process.Resubmitted.{resubmit_specializer}
use tu_thesis.Tests.{quiet, eth0, eth1}
use tu_thesis.Tests.Plugins.{no_file}

abbrev specialization : ℕ → TrafficSpecialization
specialization set = record {
  route_rule = 0;
  routes = [];
  ipset = set;
  mangle_prerouting_chain = 0;
  mangle_output_chain = 0;
}

abbrev first_set : IpSet
first_set = record { name = bytes "eth0_ipset"; ips = bytes "8.8.8.8" ∷ bytes "1.1.1.1" ∷ [] }

abbrev second_set : IpSet
second_set = record { name = bytes "eth1_ipset"; ips = bytes "10.0.0.0/8" ∷ [] }

abbrev with_two : World
with_two = record quiet {
  specializations =
      Shared.allocate (specialization 1) (Shared.allocate (specialization 0) no_objects);
  ipset_objects = Shared.allocate second_set (Shared.allocate first_set no_objects);
}

abbrev first : Bytes → Item
first text = record {
  name = eth0;
  destinations = text;
  pointer = 0;
  specialization = specialization 0;
  set = first_set;
  others = 0;
}

abbrev second : Bytes → Item
second text = record {
  name = eth1;
  destinations = text;
  pointer = 1;
  specialization = specialization 1;
  set = second_set;
  others = 0;
}

abbrev two : List Item
two = first (bytes "8.8.8.8,1.1.1.1,") ∷ second (bytes "10.0.0.0/8,") ∷ []

abbrev one_plugin : PluginConfigurator
one_plugin = add_plugin (routing_specializer (specializer two)) new_configurator

abbrev header : Map Bytes Bytes
header = Map.insert (bytes "Type") (request_line (bytes "POST /?") 0 (bytes "HTTP/1.1")) Map.empty

abbrev accepting : (name : Bytes) → Accepts quiet.shell name
accepting name = record { flushed = λ trace. refl; added = λ trace ip. refl }

abbrev AliveWith : Bytes → Bytes → Type 0
AliveWith a b = All (Alive with_two) (first a ∷ second b ∷ [])

alive : (a b : Bytes) → AliveWith a b
unfolding Shared.allocate object_at
alive a b = (
  record { alive = refl; live = refl; accepts = accepting first_set.name; counted = refl },
  (record { alive = refl; live = refl; accepts = accepting second_set.name; counted = refl }, tt),
)

two-IsShown : All IsShown two
unfolding bytes join_with contains same
two-IsShown = (
  record { text = refl; items = (refl, (refl, tt)); once = (refl, (refl, tt)) },
  (record { text = refl; items = (refl, tt); once = (refl, tt) }, tt),
)

-- The second text names an address twice, and the first none.
abbrev changed : List Item
changed = first [] ∷ second (bytes "9.9.9.9,8.8.4.4,9.9.9.9") ∷ []

configure_destinations_example :
    let (r, s) =
      configure (record { entries = configuration changed }) (specializer changed, with_two) in
    (r ≡ ok tt)
    × (s.0 ≡ specializer changed)
    × ((get_configuration s).0
        ≡ ok (record { entries = entries_of name_of (shown filled_set) changed }))
    × Kept filled_set s.1 changed
unfolding bytes same before
configure_destinations_example =
    configure_destinations changed with_two (((refl, refl), tt), (tt, tt))
      (((refl, refl), tt), (tt, tt)) (alive [] (bytes "9.9.9.9,8.8.4.4,9.9.9.9"))

configured_once :
    shown filled_set (second (bytes "9.9.9.9,8.8.4.4,9.9.9.9")) ≡ bytes "9.9.9.9,8.8.4.4,"
unfolding bytes join_with entered getlines getlines_from getline break_at contains same
configured_once = refl

resubmit_specializer_example :
    let conf : Map Bytes Bytes = record { entries = configuration two } in
    let w' = (configure conf (specializer two, with_two)).1.1 in
    ((get_configuration (specializer two, with_two)).0 ≡ ok conf)
    × (parse_data (join_with b'\n' (map field_line (configuration two))) ≡ ok conf)
    × (post no_file (record { header = header; fields = conf }) (one_plugin, with_two) ≡ (
      ok tt,
      (
        record one_plugin {
          plugins = Map.insert (pos 0) (routing_specializer (specializer two)) one_plugin.plugins;
        },
        w',
      ),
    ))
    × ((get_configuration (specializer two, w')).0 ≡ ok conf)
    × Kept (λ i. i.set) w' two
unfolding bytes same before Map.lookup Map.insert add_plugin
resubmit_specializer_example =
    resubmit_specializer no_file 0 one_plugin with_two header (bytes "HTTP/1.1") two refl
      (omega arith) refl (((refl, refl), tt), (tt, tt)) (((refl, refl), tt), (tt, tt))
      (alive (bytes "8.8.8.8,1.1.1.1,") (bytes "10.0.0.0/8,")) two-IsShown
      ((refl, refl), ((refl, refl), tt))
