-- ===== src/NetworkFactory/Routes.antt =====
-- Routes through the factory.
use tu_thesis.Base.{
  Option-cases, ℕ, ap, append_assoc, Bool-cases, inl, inr, ◌==◌, arith, ◌∙◌, ◌≡◌, ◌≢◌, [], ◌∷◌,
  ◌++◌, arith, append_assoc,
}
use tu_thesis.Base.Int.{ℤ}
use tu_thesis.Text.Bytes.{Bytes, bytes}
use tu_thesis.Exec.{Exception, ok, throw, Exec}
use tu_thesis.Shared
use tu_thesis.Shared.{Heap, release-allocate}
use tu_thesis.World.{World, Route}
use tu_thesis.Ip.{new_ip}
use tu_thesis.System.{issue}
use tu_thesis.Route.{route_of, new_route, route_command}
use tu_thesis.Route.Commands.{new_route_ok, new_route_fails, delete_route_lem}
use tu_thesis.NetworkFactory.Registry.{get_weak_element_none}
use tu_thesis.NetworkFactory.{add_route, release_route, make_route}

abbrev pub with_routes : Heap Route → World → World
with_routes h w = record w { route_objects = h }

module _ (c : Exec World Route) (w w' : World) where
  make_route_ok :
      (r : Route)
      → c w ≡ (ok r, w')
      → make_route c w
        ≡ (ok w'.route_objects.next, with_routes (Shared.allocate r w'.route_objects) w')
  make_route_ok r h = rw h

  make_route_fails : (e : Exception) → c w ≡ (throw e, w') → make_route c w ≡ (throw e, w')
  make_route_fails e h = rw h

module _ (destination gateway interface_name : Bytes) (metric : ℤ) (table : Bytes) (w : World) where
  abbrev wanted : Route
  wanted = route_of (new_ip destination) (new_ip gateway) interface_name metric table

  abbrev build : Exec World Route
  build = new_route (new_ip destination) (new_ip gateway) interface_name metric table

  pub add_route_ok :
      w.routes ≡ []
      → w.shell w.trace (route_command (bytes "add") wanted) ≡ 0
      → add_route destination gateway interface_name metric table w ≡ (
        ok w.route_objects.next,
        with_routes
            (Shared.allocate wanted w.route_objects)
            (issue (route_command (bytes "add") wanted) w),
      )
  unfolding add_route
  add_route_ok unknown added =
      get_weak_element_none w.route_objects w.routes _ _ _ w unknown
      ∙ make_route_ok build w _ _
          (new_route_ok (new_ip destination) (new_ip gateway) interface_name metric table w added)

  pub add_route_fails :
      w.routes ≡ []
      → w.shell w.trace (route_command (bytes "add") wanted) ≢ 0
      → (e : Exception) × (add_route destination gateway interface_name metric table w
          ≡ (throw e, issue (route_command (bytes "add") wanted) w))
  unfolding add_route
  add_route_fails unknown refused =
      let (e, thrown) =
        new_route_fails (new_ip destination) (new_ip gateway) interface_name metric table w
          refused in
      (
        e,
        get_weak_element_none w.route_objects w.routes _ _ _ w unknown
            ∙ make_route_fails build w _ _ thrown,
      )

  -- Whether the route can be added or not, one command is run and no route becomes known.
  pub add_route-trace :
      w.routes ≡ []
      → let w' = (add_route destination gateway interface_name metric table w).1 in
        (w'.trace ≡ w.trace ++ (route_command (bytes "add") wanted ∷ [])) × (w'.routes ≡ [])
  add_route-trace unknown =
      elim (Bool-cases (w.shell w.trace (route_command (bytes "add") wanted) == 0)) [
        | inl zero ↦
            let done = ap (λ r. r.1) (add_route_ok unknown (ground arith)) in
            (ap (λ (v : World). v.trace) done, ap (λ (v : World). v.routes) done ∙ unknown)
        | inr nonzero ↦
            let done = ap (λ r. r.1) (add_route_fails unknown (ground arith)).1 in
            (ap (λ (v : World). v.trace) done, ap (λ (v : World). v.routes) done ∙ unknown)
      ]

pub release_route_new :
    (r : Route) (h : Heap Route) (w : World)
    → release_route h.next (with_routes (Shared.allocate r h) w) ≡ (
      ok tt,
      issue
          (route_command (bytes "del") r)
          (with_routes (Shared.release h.next (Shared.allocate r h)).1 w),
    )
unfolding release_route
release_route_new r h w = rw (release-allocate, release_route) (delete_route_lem r _)

-- A pointer to a route can always go away.
pub release_route_lem :
    (q : ℕ) (w : World)
    → ((release_route q w).0 ≡ ok tt)
      × ((release_route q w).1.routes ≡ w.routes)
      × ((release_route q w).1.shell ≡ w.shell)
release_route_lem q w = elim (Option-cases (Shared.release q w.route_objects).0) [
  | inl kept ↦
      unfold release_route in
      (rw (kept, release_route), rw (kept, release_route), rw (kept, release_route))
  | inr (r, last) ↦
      let gone : release_route q w ≡ (
        ok tt,
        issue (route_command (bytes "del") r) (with_routes (Shared.release q w.route_objects).1 w),
      ) =
        unfold release_route in rw (last, release_route) (delete_route_lem r _) in
      (rw gone, rw gone, rw gone)
]

-- With no route known, two calls for one route run the command that adds it twice, whether it succeeds
-- or not.
pub add_route_twice :
    (destination gateway interface_name : Bytes) (metric : ℤ) (table : Bytes) (w : World)
    → w.routes ≡ []
    → let cmd =
        route_command
          (bytes "add")
          (route_of (new_ip destination) (new_ip gateway) interface_name metric table) in
      let w' = (add_route destination gateway interface_name metric table w).1 in
      (add_route destination gateway interface_name metric table w').1.trace
      ≡ w.trace ++ (cmd ∷ cmd ∷ [])
add_route_twice destination gateway interface_name metric table w unknown =
    let (first, still) =
      add_route-trace destination gateway interface_name metric table w unknown in
    (add_route-trace destination gateway interface_name metric table _ still).0
    ∙ rw (first, append_assoc)
