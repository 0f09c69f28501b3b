-- ===== src/TrafficSpecialization/Owned.antt =====
-- The routes, rules and sets that the factory makes and that go away again.
use tu_thesis.Base.{◌++◌, ℕ, ◌≡◌, refl, [], Option-cases, inl, inr}
use tu_thesis.Base.Int.{ℤ}
use tu_thesis.Text.Bytes.{Bytes, bytes}
use tu_thesis.System.{call_only}
use tu_thesis.Exec.{ok, Exec}
use tu_thesis.Exec.Preserves.{bind-Preserves, pure-Preserves, try-Preserves}
use tu_thesis.Exec.Returns.{Returns, of_Preserves, bind-Returns}
use tu_thesis.Shared
use tu_thesis.Shared.{Heap, IsWellFormed}
use tu_thesis.Shared.Balance.{Same, Taken, allocate-Taken, release-Same}
use tu_thesis.World.{World, Route, RouteRule, IpSet}
use tu_thesis.Untouched.{View, view, call_or_throw-Keeps, call_only-Keeps}
use tu_thesis.Ip.{new_ip}
use tu_thesis.Route.{new_route, delete_route, route_configuration}
use tu_thesis.RouteRule.{rule_command, new_route_rule, delete_route_rule}
use tu_thesis.IpSet.{new_ipset, delete_ipset}
use tu_thesis.NetworkFactory.Registry.{get_weak_element_none}
use tu_thesis.NetworkFactory.{
  make_route, make_rule, make_ipset, add_route, get_route_rule, get_ipset, release_route,
  release_rule, release_ipset,
}

-- A statement on each heap, while the factory knows nothing.
abbrev pub Heaps :
    (Heap Route → Type 0) → (Heap RouteRule → Type 0) → (Heap IpSet → Type 0) → View → Type 0
Heaps A B C v =
    A v.route_objects
    × B v.rule_objects
    × C v.ipset_objects
    × (v.routes ≡ [])
    × (v.route_rules ≡ [])
    × (v.ipsets ≡ [])

abbrev pub On : (View → Type 0) → World → Type 0
On Q w = Q (view w)

of_equal :
    {A : Type 0} {Q : World → Type 0} {R : A → World → Type 0} {T : World → Type 0}
    (m n : Exec World A)
    → ((w : World) → Q w → m w ≡ n w)
    → Returns Q R T n
    → Returns Q R T m
of_equal m n same h = record { ends = λ w q. rw (same w q) (h.ends w q) }

module _ (A : Heap Route → Type 0) (C : Heap IpSet → Type 0) (before : Heap RouteRule)
    (v : IsWellFormed before) where
  pub get_route_rule-Returns :
      (priority lookup : ℕ) (additional_data : Bytes)
      → Returns
          (On (Heaps A (Same before) C))
          (λ p. On (Heaps A (Taken before p) C))
          (On (Heaps A (Same before) C))
          (get_route_rule priority lookup additional_data)
  unfolding get_route_rule new_route_rule
  get_route_rule-Returns priority lookup additional_data =
      of_equal _ (make_rule (new_route_rule priority lookup additional_data))
        (λ w (a, b, c, x, y, z). get_weak_element_none w.rule_objects w.route_rules _ _ _ w y)
        (bind-Returns (new_route_rule priority lookup additional_data) _
          (of_Preserves (new_route_rule priority lookup additional_data) (
            bind-Preserves _ _ (call_or_throw-Keeps (Heaps A (Same before) C) _ _)
              (λ _. pure-Preserves _)))
          (λ r. record {
            ends =
                λ w (a, b, c, x, y, z). (a, allocate-Taken before w.rule_objects r v b, c, x, y, z);
          }))

  pub release_rule-Returns :
      (p : ℕ)
      → Returns
          (On (Heaps A (Taken before p) C))
          (λ _. On (Heaps A (Same before) C))
          (On (Heaps A (Same before) C))
          (release_rule p)
  unfolding release_rule delete_route_rule
  release_rule-Returns p = record {
    ends = λ w (a, b, c, x, y, z).
        let w' = record w { rule_objects = (Shared.release p w.rule_objects).1 } in
        let q : On (Heaps A (Same before) C) w' =
          (a, release-Same before w.rule_objects p b, c, x, y, z) in
        elim (Option-cases (Shared.release p w.rule_objects).0) [
          | inl kept ↦ rw (kept, release_rule) q
          | inr (r, last) ↦
              rw (last, release_rule)
                ((of_Preserves _
                    (call_only-Keeps (Heaps A (Same before) C) (rule_command (bytes "del") r))).ends
                  w' q)
        ];
  }

module _ (A : Heap Route → Type 0) (B : Heap RouteRule → Type 0) (before : Heap IpSet)
    (v : IsWellFormed before) where
  pub get_ipset-Returns :
      (name type : Bytes)
      → Returns
          (On (Heaps A B (Same before)))
          (λ p. On (Heaps A B (Taken before p)))
          (On (Heaps A B (Same before)))
          (get_ipset name type)
  unfolding get_ipset new_ipset
  get_ipset-Returns name type =
      of_equal _ (make_ipset (new_ipset name type))
        (λ w (a, b, c, x, y, z). get_weak_element_none w.ipset_objects w.ipsets _ _ _ w z)
        (bind-Returns (new_ipset name type) _
          (of_Preserves (new_ipset name type) (
            bind-Preserves _ _ (call_or_throw-Keeps (Heaps A B (Same before)) _ _)
              (λ _. pure-Preserves _)))
          (λ r. record {
            ends = λ w (a, b, c, x, y, z).
                (a, b, allocate-Taken before w.ipset_objects r v c, x, y, z);
          }))

  pub release_ipset-Returns :
      (p : ℕ)
      → Returns
          (On (Heaps A B (Taken before p)))
          (λ _. On (Heaps A B (Same before)))
          (On (Heaps A B (Same before)))
          (release_ipset p)
  unfolding release_ipset delete_ipset
  release_ipset-Returns p = record {
    ends = λ w (a, b, c, x, y, z).
        let w' = record w { ipset_objects = (Shared.release p w.ipset_objects).1 } in
        let q : On (Heaps A B (Same before)) w' =
          (a, b, release-Same before w.ipset_objects p c, x, y, z) in
        elim (Option-cases (Shared.release p w.ipset_objects).0) [
          | inl kept ↦ rw (kept, release_ipset) q
          | inr (r, last) ↦
              rw (last, release_ipset)
                ((of_Preserves _ (
                    call_only-Keeps (Heaps A B (Same before))
                      (bytes "ipset destroy " ++ r.name))).ends
                  w' q)
        ];
  }

module _ (B : Heap RouteRule → Type 0) (C : Heap IpSet → Type 0) (before : Heap Route)
    (v : IsWellFormed before) where
  pub add_route-Returns :
      (destination gateway name : Bytes) (metric : ℤ) (table : Bytes)
      → Returns
          (On (Heaps (Same before) B C))
          (λ p. On (Heaps (Taken before p) B C))
          (On (Heaps (Same before) B C))
          (add_route destination gateway name metric table)
  unfolding add_route new_route route_configuration
  add_route-Returns destination gateway name metric table =
      of_equal _ (make_route (new_route (new_ip destination) (new_ip gateway) name metric table))
        (λ w (a, b, c, x, y, z). get_weak_element_none w.route_objects w.routes _ _ _ w x)
        (bind-Returns (new_route (new_ip destination) (new_ip gateway) name metric table) _
          (of_Preserves (new_route (new_ip destination) (new_ip gateway) name metric table) (
            bind-Preserves _ _ (call_or_throw-Keeps (Heaps (Same before) B C) _ _)
              (λ _. pure-Preserves _)))
          (λ r. record {
            ends = λ w (a, b, c, x, y, z).
                (allocate-Taken before w.route_objects r v a, b, c, x, y, z);
          }))

  pub release_route-Returns :
      (p : ℕ)
      → Returns
          (On (Heaps (Taken before p) B C))
          (λ _. On (Heaps (Same before) B C))
          (On (Heaps (Same before) B C))
          (release_route p)
  unfolding release_route delete_route route_configuration
  release_route-Returns p = record {
    ends = λ w (a, b, c, x, y, z).
        let w' = record w { route_objects = (Shared.release p w.route_objects).1 } in
        let q : On (Heaps (Same before) B C) w' =
          (release-Same before w.route_objects p a, b, c, x, y, z) in
        elim (Option-cases (Shared.release p w.route_objects).0) [
          | inl kept ↦ rw (kept, release_route) q
          | inr (r, last) ↦
              rw (last, release_route)
                ((of_Preserves _ (
                    try-Preserves _ _ (call_or_throw-Keeps (Heaps (Same before) B C) _ _)
                      (λ _. pure-Preserves _))).ends
                  w' q)
        ];
  }

-- Its destructor does not throw.
pub release_ipset_returns : (p : ℕ) (w : World) → (release_ipset p w).0 ≡ ok tt
unfolding release_ipset delete_ipset call_only
release_ipset_returns p w = elim (Option-cases (Shared.release p w.ipset_objects).0) [
  | inl kept ↦ rw (kept, release_ipset) refl
  | inr (set, last) ↦ rw (last, release_ipset) refl
]
