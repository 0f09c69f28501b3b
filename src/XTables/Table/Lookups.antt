-- ===== src/XTables/Table/Lookups.antt =====
-- What `Table::getChain` finds.
use tu_thesis.Base.{false, ◌≡◌, refl, ap, ◌∙◌, true, none, some, arith, ℕ}
use tu_thesis.Text.Bytes.{Bytes}
use tu_thesis.Exec.{ok}
use tu_thesis.Map
use tu_thesis.Map.{bytes_key, lookup-insert_self}
use tu_thesis.Shared
use tu_thesis.Shared.{Cell}
use tu_thesis.World.{World, Table, Chain}
use tu_thesis.XTables.Chain.{new_chain}
use tu_thesis.XTables.Table.{get_chain, chain_of, lock_or_make, is_listed, main_chains}

module _ (key name : Bytes) (table : Table) (w : World) where
  abbrev pub HasTable : Type 0
  HasTable = Map.lookup key w.tables ≡ some table

  -- The chain that `getChain` makes of a built-in name.
  abbrev builtin : Chain
  builtin = record {
    created = false;
    table_name = table.name;
    name = name;
    package_rules = Map.empty;
  }

  -- The world after a built-in chain was put under its name.
  abbrev pub with_builtin : World
  with_builtin = record w {
    chains = Shared.allocate builtin w.chains;
    tables =
        Map.insert key (record table { chains = Map.insert name w.chains.next table.chains })
          w.tables;
  }

  -- A chain that was asked for before and has gone since is not made again: the result is null, and
  -- nothing has changed.
  pub get_chain_gone :
      (p : ℕ)
      → HasTable
      → Map.lookup name table.chains ≡ some p
      → w.chains.cell p ≡ none
      → get_chain key name w ≡ (ok none, w)
  unfolding get_chain Shared.lock
  get_chain_gone p known had gone =
      ap (λ o. chain_of key name o w) known
      ∙ ap (λ o. lock_or_make key name table o w) had
      ∙ rw gone refl

  pub get_chain_made :
      HasTable
      → Map.lookup name table.chains ≡ none
      → is_listed name main_chains ≡ true
      → get_chain key name w ≡ (ok (some w.chains.next), with_builtin)
  unfolding get_chain new_chain
  get_chain_made known fresh main =
      ap (λ o. chain_of key name o w) known
      ∙ ap (λ o. lock_or_make key name table o w) fresh
      ∙ rw main refl

  -- A built-in chain that the table does not have is made without a command, and asking for it again
  -- gives the same chain.
  pub get_chain_twice :
      HasTable
      → Map.lookup name table.chains ≡ none
      → is_listed name main_chains ≡ true
      → (get_chain key name w ≡ (ok (some w.chains.next), with_builtin))
        × (with_builtin.trace ≡ w.trace)
        × ((get_chain key name with_builtin).0 ≡ ok (some w.chains.next))
  unfolding get_chain Shared.lock Shared.allocate
  get_chain_twice known fresh main = (
    get_chain_made known fresh main,
    refl,
    ap (λ o. (chain_of key name o with_builtin).0) (lookup-insert_self key _ w.tables)
        ∙ ap
            (λ o.
              (lock_or_make key name
                (record table { chains = Map.insert name w.chains.next table.chains }) o
                with_builtin).0)
            (lookup-insert_self name _ table.chains)
        ∙ ground arith,
  )
