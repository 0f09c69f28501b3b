-- ===== src/Route/Commands.antt =====
-- The commands of a route's life.
use tu_thesis.Base.{◌≡◌, ◌≢◌, ◌++◌, arith}
use tu_thesis.Base.Int.{ℤ}
use tu_thesis.Text.Bytes.{Bytes, bytes}
use tu_thesis.Exec.{◌>>=◌, Exception, runtime_error, ok, throw}
use tu_thesis.System.{issue}
use tu_thesis.World.{World, Ip, Route}
use tu_thesis.Route.{route_of, new_route, delete_route, route_command}

module _ (destination gateway : Ip) (interface_name : Bytes) (metric : ℤ) (table_name : Bytes)
    (w : World) where
  pub new_route_ok :
      w.shell w.trace (
          route_command
            (bytes "add")
            (route_of destination gateway interface_name metric table_name))
        ≡ 0
      → new_route destination gateway interface_name metric table_name w ≡ (
        ok (route_of destination gateway interface_name metric table_name),
        issue
            (route_command
              (bytes "add")
              (route_of destination gateway interface_name metric table_name))
            w,
      )
  unfolding new_route
  new_route_ok h = rw h

  pub new_route_fails :
      w.shell w.trace (
          route_command
            (bytes "add")
            (route_of destination gateway interface_name metric table_name))
        ≢ 0
      → (e : Exception) × (new_route destination gateway interface_name metric table_name w ≡ (
        throw e,
        issue
            (route_command
              (bytes "add")
              (route_of destination gateway interface_name metric table_name))
            w,
      ))
  unfolding new_route
  new_route_fails h = (
    runtime_error (
        bytes "Failed to execute: "
        ++ route_command (bytes "add")
            (route_of destination gateway interface_name metric table_name)),
    ground arith,
  )

pub delete_route_lem :
    (r : Route) (w : World) → delete_route r w ≡ (ok tt, issue (route_command (bytes "del") r) w)
unfolding delete_route
delete_route_lem r w = ground arith

-- A route that could be added is deleted by the same command with `del` for `add`, and its
-- destructor returns whatever the status of that command is.
pub new_route-delete_route :
    (destination gateway : Ip) (interface_name : Bytes) (metric : ℤ) (table_name : Bytes)
    (w : World)
    → (let r = route_of destination gateway interface_name metric table_name in
        w.shell w.trace (route_command (bytes "add") r) ≡ 0)
    → (let r = route_of destination gateway interface_name metric table_name in
        (new_route destination gateway interface_name metric table_name >>= delete_route) w
        ≡ (ok tt, issue (route_command (bytes "del") r) (issue (route_command (bytes "add") r) w)))
new_route-delete_route destination gateway interface_name metric table_name w h =
    rw (new_route_ok destination gateway interface_name metric table_name w h)
      (delete_route_lem _ _)
