-- ===== src/RoutingSpecializer/Reconfigured.antt =====
-- `configure` of a specializer for the interfaces that it has.
use tu_thesis.Text.Bytes.{Bytes}
use tu_thesis.Base.{All-zip, sym, ◌+◌, ◌≡◌, ap, ◌∙◌, some, List, [], All, All_map}
use tu_thesis.Text.Stream.{getlines}
use tu_thesis.Text.Stream.Split.{join_with, IsItem, getlines-eq-split, split-join_with}
use tu_thesis.Exec.{ok}
use tu_thesis.Map
use tu_thesis.Map.{Map, bytes_key, empty}
use tu_thesis.Map.Ascending.{
  entries_of, entries_of_equal, insert_all-append, IsAscending, find_entries,
}
use tu_thesis.Shared.Uses.{uses_at}
use tu_thesis.World.{World, IpSet}
use tu_thesis.IpSet.Members.{IsNodup}
use tu_thesis.IpSet.Entered.{entered-IsNodup}
use tu_thesis.RoutingSpecializer.{Specializations, configure, configure_all, get_configuration}
use tu_thesis.RoutingSpecializer.Loop.{
  Item, name_of, pointers, configuration, Distinct, Alive, filled_set, configure_all-Ran,
}
use tu_thesis.RoutingSpecializer.Again.{Shown, shown, get_configuration_lem, release_all-Released}

-- The specializer of these interfaces.
abbrev pub specializer : List Item → Specializations
specializer items = record { entries = pointers items }

abbrev pub Kept : (Item → IpSet) → World → List Item → Type 0
Kept set w items =
    All (Shown set w) items
    × All (λ i. uses_at i.pointer w.specializations ≡ some (i.others + 1)) items

configure_lem :
    (items : List Item) (w : World)
    → IsAscending name_of items
    → Distinct items
    → All (Alive w) items
    → let (r, (new, w')) =
        configure (record { entries = configuration items }) (specializer items, w) in
      (r ≡ ok tt) × (new ≡ specializer items) × Kept filled_set w' items
unfolding configure Map.lookup
configure_lem items w ascending distinct alive =
    let (done, is, ran) =
      configure_all-Ran (specializer items) empty items w
        (find_entries name_of (λ i. some i.pointer) items ascending) alive distinct in
    let v = (configure_all (specializer items) (configuration items) (empty, w)).1.1 in
    let (released, after) =
      release_all-Released items v (All_map (λ i f. f.counted) items ran.filled) distinct in
    rw done (
      released,
      is ∙ insert_all-append name_of (λ i. some i.pointer) [] items ascending,
      (
        All_map
            (λ i f. record {
              alive = after.objects i.pointer ∙ f.alive;
              live =
                  ap (λ h. tu_thesis.Shared.object_at i.specialization.ipset h) after.sets ∙ f.live;
            })
            items ran.filled,
        after.counted,
      ),
    )

-- A configuration for just the interfaces of a specializer, each with a live specialization and set of
-- its own, where the shell runs every command for the sets: `configure` returns, the plugin keeps its
-- pointers, no specialization goes away or is made, and `getConfiguration` then gives, for each
-- interface and no other, the destinations that were configured, each of them once.
pub configure_destinations :
    (items : List Item) (w : World)
    → IsAscending name_of items
    → Distinct items
    → All (Alive w) items
    → let (r, s) = configure (record { entries = configuration items }) (specializer items, w) in
      (r ≡ ok tt)
      × (s.0 ≡ specializer items)
      × ((get_configuration s).0
          ≡ ok (record { entries = entries_of name_of (shown filled_set) items }))
      × Kept filled_set s.1 items
configure_destinations items w ascending distinct alive =
    let (done, is, kept) = configure_lem items w ascending distinct alive in
    let v = (configure (record { entries = configuration items }) (specializer items, w)).1.1 in
    (
      done,
      is,
      ap (λ m. (get_configuration (m, v)).0) is
          ∙ get_configuration_lem filled_set items v ascending kept.0,
      kept,
    )

-- The destinations are those that are shown of the set, and each of them can be told from the others.
pub record IsShown (i : Item) : Type 0 where
  pub text : i.destinations ≡ join_with b',' i.set.ips
  pub items : All (IsItem b',') i.set.ips
  pub once : IsNodup i.set.ips

filled_again : (i : Item) → IsShown i → filled_set i ≡ i.set
filled_again i s =
    ap (λ ips. record i.set { ips = ips })
      (ap (λ text. tu_thesis.IpSet.Entered.entered [] text)
          (ap (getlines b',') s.text
            ∙ getlines-eq-split b',' _
            ∙ split-join_with b',' i.set.ips s.items)
        ∙ entered-IsNodup [] i.set.ips s.once)

module _ (items : List Item) (w : World) (ascending : IsAscending name_of items)
    (distinct : Distinct items) (alive : All (Alive w) items) (texts : All IsShown items) where
  -- A specializer whose interfaces each have a live specialization and set of its own, with distinct
  -- addresses without commas, where the shell runs every command for the sets: configuring it with what
  -- `getConfiguration` gives returns and leaves the plugin and the objects of its sets as they were, so
  -- that `getConfiguration` gives the same again.
  pub configure_shown :
      let conf : Map Bytes Bytes = record { entries = configuration items } in
      ((get_configuration (specializer items, w)).0 ≡ ok conf)
      × (let (r, s) = configure conf (specializer items, w) in
          (r ≡ ok tt)
          × (s.0 ≡ specializer items)
          × ((get_configuration s).0 ≡ ok conf)
          × Kept (λ i. i.set) s.1 items)
  configure_shown =
      let (done, is, again, (shown_after, counted)) =
        configure_destinations items w ascending distinct alive in
      (
        get_configuration_lem (λ i. i.set) items w ascending
              (All_map (λ i (a : Alive w i). record { alive = a.alive; live = a.live }) items alive)
            ∙ ap (λ l. ok (record { entries = l }))
                (entries_of_equal name_of (shown (λ i. i.set)) (λ i. i.destinations) items
                  (All_map (λ i t. sym t.text) items texts)),
        (
          done,
          is,
          again
              ∙ ap (λ l. ok (record { entries = l }))
                  (entries_of_equal name_of (shown filled_set) (λ i. i.destinations) items
                    (All_map
                      (λ i t.
                        ap (λ (s : IpSet). join_with b',' s.ips) (filled_again i t) ∙ sym t.text)
                      items texts)),
          (
            All-zip
                (λ i t f. record { alive = f.alive; live = f.live ∙ ap some (filled_again i t) })
                items texts shown_after,
            counted,
          ),
        ),
      )
