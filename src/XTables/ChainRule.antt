-- ===== src/XTables/ChainRule.antt =====
-- XTables/src/ChainRule.cpp: a rule is added by its constructor and deleted by its destructor.
use tu_thesis.Base.{ℕ, zero, suc, Option, none, some, [], ◌∷◌, ◌++◌, ◌==◌, if◌then◌else◌, length}
use tu_thesis.Text.Bytes.{Bytes, bytes}
use tu_thesis.Text.Number.{is_digit}
use tu_thesis.Exec.{Exec, pure, ◌>>◌}
use tu_thesis.World.{World, ChainRule}
use tu_thesis.System.{call_or_throw, call_only}

-- `[[:digit:]]+`: what follows one digit or more.
unfoldable pub after_digits : Bytes → Bytes
after_digits [] = []
after_digits (c ∷ s) = let rest = after_digits s in if is_digit c then rest else c ∷ s

unfoldable pub digits_then : Bytes → Option Bytes
unfolding after_digits
digits_then [] = none
digits_then (c ∷ s) = if is_digit c then some (after_digits s) else none

unfoldable pub literally : ℕ → Option Bytes → Option Bytes
literally b none = none
literally b (some []) = none
literally b (some (c ∷ s)) = if c == b then some s else none

-- What follows a match of `-c [[:digit:]]+ [[:digit:]]+` at the start of the text.
unfoldable pub match_counters : Bytes → Option Bytes
unfolding digits_then literally
match_counters s = elim (literally b' ' (literally b'c' (literally b'-' (some s)))) [
  | none ↦ none
  | some first ↦ elim (literally b' ' (digits_then first)) [
    | none ↦ none
    | some second ↦ digits_then second
  ]
]

-- `std::regex_replace(rule, exp, "")`: every match is left out. A round takes a byte at least, so
-- the length is enough fuel.
unfoldable pub strip_counters : ℕ → Bytes → Bytes
unfolding match_counters
strip_counters zero s = s
strip_counters (suc fuel) [] = []
strip_counters (suc fuel) (c ∷ s) = elim (match_counters (c ∷ s)) [
  | none ↦ c ∷ strip_counters fuel s
  | some rest ↦ strip_counters fuel rest
]

abbrev pub rule_command : Bytes → Bytes → Bytes → Bytes → Bytes
rule_command table type chain rule =
    bytes "iptables -t "
    ++ (table ++ (bytes " " ++ (type ++ (bytes " " ++ (chain ++ (bytes " " ++ rule))))))

-- `ChainRule::ChainRule`
unfoldable pub new_chain_rule : Bytes → Bytes → Bytes → Bytes → Exec World ChainRule
unfolding call_or_throw
new_chain_rule table_name chain_name rule type = do
  call_or_throw (rule_command table_name type chain_name rule)
      (bytes "Failed to execute '" ++ (rule ++ bytes "'."))
  pure (record { table_name = table_name; chain_name = chain_name; rule = rule })

-- `ChainRule::~ChainRule`: the status is only logged.
unfoldable pub delete_chain_rule : ChainRule → Exec World (Unit {0})
unfolding call_only strip_counters
delete_chain_rule r =
    call_only
      (rule_command r.table_name (bytes "-D") r.chain_name (strip_counters (length r.rule) r.rule))
