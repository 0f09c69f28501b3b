-- ===== src/RouteRule.antt =====
-- RouteRule/src/RouteRule.cpp: a routing rule is added by its constructor and deleted by its
-- destructor.
use tu_thesis.Base.{ℕ, ◌++◌}
use tu_thesis.Text.Bytes.{Bytes, bytes}
use tu_thesis.Text.Number.{to_string}
use tu_thesis.Exec.{Exec, pure, ◌>>◌}
use tu_thesis.World.{World, RouteRule}
use tu_thesis.System.{call_or_throw, call_only}

abbrev pub rule_command : Bytes → RouteRule → Bytes
rule_command option r =
    bytes "ip rule "
    ++ (option
        ++ (bytes " prio "
            ++ (to_string r.priority
                ++ (bytes " lookup " ++ (to_string r.lookup ++ (bytes " " ++ r.additional_data))))))

-- `RouteRule::RouteRule`
unfoldable pub new_route_rule : ℕ → ℕ → Bytes → Exec World RouteRule
unfolding call_or_throw
new_route_rule priority lookup additional_data =
    let r : RouteRule = record {
      priority = priority;
      lookup = lookup;
      additional_data = additional_data;
    } in
    let cmd = rule_command (bytes "add") r in
    call_or_throw cmd (bytes "Failed to add routing rule: " ++ cmd) >> pure r

-- `RouteRule::~RouteRule`
unfoldable pub delete_route_rule : RouteRule → Exec World (Unit {0})
unfolding call_only
delete_route_rule r = call_only (rule_command (bytes "del") r)
