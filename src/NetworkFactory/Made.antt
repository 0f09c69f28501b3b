-- ===== src/NetworkFactory/Made.antt =====
-- Rules and sets that the factory makes when none is known, and that go away with their only pointer.
use tu_thesis.Base.{◌≡◌, ◌∙◌, refl, ℕ, true, some, [], ◌++◌, ◌==◌}
use tu_thesis.Text.Bytes.{Bytes, bytes}
use tu_thesis.Exec.{ok}
use tu_thesis.Shared
use tu_thesis.Shared.{Heap, release}
use tu_thesis.World.{World, IpSet, RouteRule, Route}
use tu_thesis.System.{issue, call_or_throw_lem}
use tu_thesis.Route.{route_command}
use tu_thesis.Route.Commands.{delete_route_lem}
use tu_thesis.RouteRule
use tu_thesis.RouteRule.{new_route_rule, delete_route_rule}
use tu_thesis.IpSet.{new_ipset, delete_ipset}
use tu_thesis.NetworkFactory.Registry.{get_weak_element_none}
use tu_thesis.NetworkFactory.{get_route_rule, get_ipset, release_rule, release_ipset, release_route}

abbrev pub create_command : Bytes → Bytes → Bytes
create_command name type =
    bytes "ipset create " ++ (name ++ (bytes " " ++ (type ++ bytes " family inet")))

abbrev pub destroy_command : Bytes → Bytes
destroy_command name = bytes "ipset destroy " ++ name

module _ (w : World) where
  pub get_route_rule_made :
      (priority lookup : ℕ) (additional_data : Bytes)
      → let r : RouteRule = record {
        priority = priority;
        lookup = lookup;
        additional_data = additional_data;
      } in
        w.route_rules ≡ []
        → (w.shell w.trace (RouteRule.rule_command (bytes "add") r) == 0) ≡ true
        → get_route_rule priority lookup additional_data w ≡ (
          ok w.rule_objects.next,
          record (issue (RouteRule.rule_command (bytes "add") r) w) {
            rule_objects = Shared.allocate r w.rule_objects;
          },
        )
  unfolding get_route_rule new_route_rule
  get_route_rule_made priority lookup additional_data unknown added =
      get_weak_element_none w.rule_objects w.route_rules _ _ _ w unknown
      ∙ rw call_or_throw_lem (rw added refl)

  pub get_ipset_made :
      (name type : Bytes)
      → w.ipsets ≡ []
      → (w.shell w.trace (create_command name type) == 0) ≡ true
      → get_ipset name type w ≡ (
        ok w.ipset_objects.next,
        record (issue (create_command name type) w) {
          ipset_objects = Shared.allocate (record { name = name; ips = [] }) w.ipset_objects;
        },
      )
  unfolding get_ipset new_ipset
  get_ipset_made name type unknown created =
      get_weak_element_none w.ipset_objects w.ipsets _ _ _ w unknown
      ∙ rw call_or_throw_lem (rw created refl)

  pub release_rule_last :
      (p : ℕ) (r : RouteRule)
      → (release p w.rule_objects).0 ≡ some r
      → release_rule p w ≡ (
        ok tt,
        issue
            (RouteRule.rule_command (bytes "del") r)
            (record w { rule_objects = (release p w.rule_objects).1 }),
      )
  unfolding release_rule delete_route_rule
  release_rule_last p r last = rw (last, release_rule) refl

  pub release_ipset_last :
      (p : ℕ) (set : IpSet)
      → (release p w.ipset_objects).0 ≡ some set
      → release_ipset p w ≡ (
        ok tt,
        issue
            (destroy_command set.name)
            (record w { ipset_objects = (release p w.ipset_objects).1 }),
      )
  unfolding release_ipset delete_ipset
  release_ipset_last p set last = rw (last, release_ipset) refl

  pub release_route_last :
      (p : ℕ) (r : Route)
      → (release p w.route_objects).0 ≡ some r
      → release_route p w ≡ (
        ok tt,
        issue
            (route_command (bytes "del") r)
            (record w { route_objects = (release p w.route_objects).1 }),
      )
  unfolding release_route
  release_route_last p r last = rw (last, release_route) (delete_route_lem r _)
