-- ===== src/XTables/Chain.antt =====
-- XTables/src/Chain.cpp: a chain owns the rules that were added through it.
pub mod Pair
pub mod Kept
pub mod Rules
pub mod Release
use tu_thesis.Base.{ℕ, ◌+◌, Bool, Option, none, some, List, [], ◌∷◌, ◌++◌, if◌then◌else◌}
use tu_thesis.Text.Bytes.{Bytes, bytes}
use tu_thesis.Exec.{Exec, pure, stuck, modify, ◌>>=◌, ◌>>◌}
use tu_thesis.Map
use tu_thesis.Map.{Map, empty, nat_key}
use tu_thesis.Shared
use tu_thesis.World.{World, Chain, ChainRule}
use tu_thesis.System.{call_or_throw, call_only}
use tu_thesis.XTables.ChainRule.{new_chain_rule, delete_chain_rule}

-- `Chain::Chain`
unfoldable pub new_chain : Bytes → Bytes → Bool → Exec World Chain
new_chain name table_name should_create =
    let chain : Chain = record {
      created = should_create;
      table_name = table_name;
      name = name;
      package_rules = empty;
    } in
    if should_create
    then (do
      call_or_throw (bytes "iptables -t " ++ (table_name ++ (bytes " -N " ++ name)))
          (bytes "Creating '" ++ (name ++ bytes "' xtable chain failed."))
      pure chain)
    else pure chain

-- The object that a method is called on: undefined if the pointer is dangling.
abbrev pub on_chain {ℓ} : {A : Type ℓ} → (Chain → Exec World A) → Option Chain → Exec World A
on_chain f none = stuck
on_chain f (some chain) = f chain

abbrev pub with_chain {ℓ} : {A : Type ℓ} → ℕ → (Chain → Exec World A) → Exec World A
with_chain p f w = on_chain f (Shared.object_at p w.chains) w

abbrev pub write_chain : ℕ → Chain → World → World
write_chain p chain w = record w { chains = Shared.write p chain w.chains }

-- The rule is stored under `rule_id`, which grows only if its constructor did not throw.
abbrev store_rule : ℕ → Chain → ChainRule → Exec World ℕ
store_rule p chain rule w =
    pure w.rule_id
      (record (write_chain p
        (record chain { package_rules = Map.insert w.rule_id rule chain.package_rules }) w) {
          rule_id = w.rule_id + 1;
        })

abbrev pub rule_added : ℕ → Bytes → Bytes → Chain → Exec World ℕ
rule_added p rule type chain = do
  r ← new_chain_rule chain.table_name chain.name rule type
  store_rule p chain r

-- `Chain::addRule`
unfoldable pub add_rule : ℕ → Bytes → Bytes → Exec World ℕ
add_rule p rule type = with_chain p (rule_added p rule type)

abbrev delete_found : Option ChainRule → Exec World (Unit {0})
delete_found none = pure tt
delete_found (some r) = delete_chain_rule r

-- `Chain::removeRule`: `erase` runs the destructor of the rule, if there is one.
unfoldable pub remove_rule : ℕ → ℕ → Exec World (Unit {0})
remove_rule p id = with_chain p (λ chain. do
  modify (write_chain p (record chain { package_rules = Map.erase id chain.package_rules }))
  delete_found (Map.lookup id chain.package_rules))

-- The destructors of the rules of a map, one after the other.
unfoldable pub delete_rules : List (ℕ × ChainRule) → Exec World (Unit {0})
delete_rules [] = pure tt
delete_rules ((_, r) ∷ rules) = do delete_chain_rule r; delete_rules rules

abbrev delete_created : Bool → Bytes → Exec World (Unit {0})
delete_created created cmd = if created then call_only cmd else pure tt

-- The rules, in the order in which the map destroys them, and a chain that the program created.
abbrev pub clear_and_delete : List (ℕ × ChainRule) → Chain → Exec World (Unit {0})
clear_and_delete rules chain = do
  delete_rules rules
  delete_created chain.created
      (bytes "iptables -t " ++ (chain.table_name ++ (bytes " -X " ++ chain.name)))

-- `Chain::~Chain`: the rules go first, in the order of the library's `clear`.
unfoldable pub delete_chain : Chain → Exec World (Unit {0})
delete_chain chain w = clear_and_delete (w.clear_order chain.package_rules.entries) chain w

abbrev pub delete_last : Option Chain → Exec World (Unit {0})
delete_last none = pure tt
delete_last (some chain) = delete_chain chain

-- A shared pointer to a chain goes away.
unfoldable pub release_chain : ℕ → Exec World (Unit {0})
release_chain p w =
    let (last, chains) = Shared.release p w.chains in
    delete_last last (record w { chains = chains })
