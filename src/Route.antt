-- ===== src/Route.antt =====
-- Route/src/Route.cpp: a route is added by its constructor and deleted by its destructor.
pub mod Commands
use tu_thesis.Base.{Bool, ◌&&◌, [], ◌∷◌, ◌++◌}
use tu_thesis.Base.Int.{ℤ, same_int}
use tu_thesis.Text.Bytes.{Bytes, bytes}
use tu_thesis.Text.Number.{int_to_string}
use tu_thesis.Exec.{Exec, pure, try, ◌>>◌}
use tu_thesis.World.{World, Ip, Route}
use tu_thesis.Ip.{same_ip}
use tu_thesis.System.{call_or_throw}

-- An option that is left out where its value is empty.
abbrev pub option_text : Bytes → Bytes → Bytes
option_text keyword [] = []
option_text keyword (c ∷ value) = keyword ++ (c ∷ value)

-- The command that `routeConfiguration` builds.
abbrev pub route_command : Bytes → Route → Bytes
route_command option r =
    bytes "ip route "
    ++ (option
        ++ (bytes " "
            ++ (r.destination.ip
                ++ (bytes " via "
                    ++ (r.gateway.ip
                        ++ (option_text (bytes " dev ") r.interface_name
                            ++ (bytes " metric "
                                ++ (int_to_string r.metric
                                    ++ option_text (bytes " table ") r.table_name))))))))

-- `Route::routeConfiguration`
unfoldable pub route_configuration : Bytes → Route → Exec World (Unit {0})
unfolding call_or_throw
route_configuration option r =
    let cmd = route_command option r in call_or_throw cmd (bytes "Failed to execute: " ++ cmd)

abbrev pub route_of : Ip → Ip → Bytes → ℤ → Bytes → Route
route_of destination gateway interface_name metric table_name = record {
  destination = destination;
  gateway = gateway;
  metric = metric;
  interface_name = interface_name;
  table_name = table_name;
}

-- `Route::Route`
unfoldable pub new_route : Ip → Ip → Bytes → ℤ → Bytes → Exec World Route
unfolding route_configuration
new_route destination gateway interface_name metric table_name =
    let r = route_of destination gateway interface_name metric table_name in
    route_configuration (bytes "add") r >> pure r

-- `Route::~Route`: an exception is only logged.
unfoldable pub delete_route : Route → Exec World (Unit {0})
unfolding route_configuration
delete_route r = try (route_configuration (bytes "del") r) (λ e. pure tt)

-- `Route::operator==`: destination and metric.
unfoldable pub same_route : Route → Route → Bool
unfolding same_ip
same_route a b = same_ip a.destination b.destination && same_int a.metric b.metric
