-- ===== src/XTables/Table/Released.antt =====
-- A chain of a table, and what the table gives after its last pointer has gone.
use tu_thesis.Exec.{ok}
use tu_thesis.XTables.Chain.{release_chain}
use tu_thesis.Base.{ℕ, ◌≡◌, ◌∙◌, refl, ap, none, some, arith}
use tu_thesis.XTables.Chain.Release.{release_chain_returns}
use tu_thesis.Text.Bytes.{Bytes}
use tu_thesis.Map
use tu_thesis.Map.{bytes_key}
use tu_thesis.Shared
use tu_thesis.Shared.{Cell, Heap, release}
use tu_thesis.World.{World, Table, Chain}
use tu_thesis.XTables.Chain.Kept.{delete_last-Keeps}
use tu_thesis.XTables.Table.{get_chain, chain_of, lock_or_make}
use tu_thesis.XTables.Table.Lookups.{HasTable, get_chain_gone}

release_last :
    (p : ℕ) (c : Cell Chain) (h : Heap Chain)
    → h.cell p ≡ some c
    → c.uses ≡ 1
    → (release p h).1.cell p ≡ none
unfolding Shared.release
release_last p c h live last = ground (arith, live, last)

get_chain_live :
    (key name : Bytes) (table : Table) (w : World) (p : ℕ) (c : Cell Chain)
    → HasTable key name table w
    → Map.lookup name table.chains ≡ some p
    → w.chains.cell p ≡ some c
    → (get_chain key name w).0 ≡ ok (some p)
unfolding get_chain Shared.lock
get_chain_live key name table w p c known had live =
    ap (λ o. (chain_of key name o w).0) known
    ∙ ap (λ o. (lock_or_make key name table o w).0) had
    ∙ rw live refl

-- A chain that a table knows and that has one pointer left: until then getChain gives the chain. The
-- last pointer goes away, with the rules of the chain and the chain itself, which throws nothing;
-- from then on getChain does not make the chain again, but gives a null pointer and changes nothing.
pub get_chain_released :
    (key name : Bytes) (table : Table) (w : World) (p : ℕ) (c : Cell Chain)
    → HasTable key name table w
    → Map.lookup name table.chains ≡ some p
    → w.chains.cell p ≡ some c
    → c.uses ≡ 1
    → let (r, w') = release_chain p w in
      ((get_chain key name w).0 ≡ ok (some p))
      × (r ≡ ok tt)
      × (get_chain key name w' ≡ (ok none, w'))
unfolding release_chain
get_chain_released key name table w p c known had live last =
    let (tables, gone) =
      (delete_last-Keeps (λ r. (r.tables ≡ w.tables) × (r.chains.cell p ≡ none))
          (Shared.release p w.chains).0).holds
        (record w { chains = (Shared.release p w.chains).1 })
        (refl, release_last p c w.chains live last) in
    (
      get_chain_live key name table w p c known had live,
      release_chain_returns p w,
      get_chain_gone key name table (release_chain p w).1 p (ap (Map.lookup key) tables ∙ known) had
          gone,
    )
