-- ===== src/XTables/Table.antt =====
-- XTables/src/Table.cpp: a table keeps weak pointers to its chains.
pub mod Lookups
pub mod Released
use tu_thesis.Base.{ℕ, Bool, false, not, ◌||◌, Option, none, some, List, [], ◌∷◌}
use tu_thesis.Text.Bytes.{Bytes, bytes, same}
use tu_thesis.Exec.{Exec, pure, stuck, ◌>>=◌}
use tu_thesis.Map
use tu_thesis.Map.{Map, empty, bytes_key}
use tu_thesis.Shared
use tu_thesis.World.{World, Chain, Table}
use tu_thesis.XTables.Chain.{new_chain}

abbrev pub main_chains : List Bytes
main_chains =
    bytes "OUTPUT" ∷ bytes "FORWARD" ∷ bytes "INPUT" ∷ bytes "PREROUTING" ∷ bytes "POSTROUTING" ∷ []

unfoldable pub is_listed : Bytes → List Bytes → Bool
is_listed x [] = false
is_listed x (y ∷ ys) = same y x || is_listed x ys

-- `Table::Table`
abbrev pub new_table : Bytes → Table
new_table name = record { name = name; chains = empty }

-- `std::make_shared<Chain>` and `this->chains[chain_name] = result` of the table under `key`.
abbrev keep_chain : Bytes → Bytes → Table → Chain → Exec World (Option ℕ)
keep_chain key chain_name table chain w = pure (some w.chains.next) (record w {
  chains = Shared.allocate chain w.chains;
  tables =
      Map.insert key (record table { chains = Map.insert chain_name w.chains.next table.chains })
        w.tables;
})

abbrev lock_chain : ℕ → Exec World (Option ℕ)
lock_chain p w =
    let (locked, chains) = Shared.lock p w.chains in pure locked (record w { chains = chains })

-- `this->chains.at(chain_name).lock()`; a chain is created only if `at` throws. The result is null
-- if the table has a weak pointer whose chain is gone.
abbrev pub lock_or_make : Bytes → Bytes → Table → Option ℕ → Exec World (Option ℕ)
lock_or_make key chain_name table (some p) = lock_chain p
lock_or_make key chain_name table none = do
  chain ← new_chain chain_name table.name (not (is_listed chain_name main_chains))
  keep_chain key chain_name table chain

abbrev pub chain_of : Bytes → Bytes → Option Table → Exec World (Option ℕ)
chain_of key chain_name none = stuck
chain_of key chain_name (some table) =
    lock_or_make key chain_name table (Map.lookup chain_name table.chains)

-- `Table::getChain`. The table is the one that the factory keeps under `key`.
unfoldable pub get_chain : Bytes → Bytes → Exec World (Option ℕ)
get_chain key chain_name w = chain_of key chain_name (Map.lookup key w.tables) w
