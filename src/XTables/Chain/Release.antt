-- ===== src/XTables/Chain/Release.antt =====
-- A pointer to a chain goes away.
use tu_thesis.Base.{ℕ, ◌≡◌, refl, Option, none, some, List, [], ◌∷◌, true, false, Bool}
use tu_thesis.Text.Bytes.{Bytes}
use tu_thesis.Exec.{ok}
use tu_thesis.Shared
use tu_thesis.World.{World, Chain, ChainRule}
use tu_thesis.System.{call_only}
use tu_thesis.XTables.ChainRule.{delete_chain_rule}
use tu_thesis.XTables.Chain.{delete_rules, delete_created, delete_chain, delete_last, release_chain}

delete_rules_returns : (rules : List (ℕ × ChainRule)) (w : World) → (delete_rules rules w).0 ≡ ok tt
unfolding delete_rules delete_chain_rule
delete_rules_returns [] w = refl
delete_rules_returns ((_, r) ∷ rules) w = delete_rules_returns rules _

delete_created_returns : (b : Bool) (cmd : Bytes) (w : World) → (delete_created b cmd w).0 ≡ ok tt
unfolding call_only
delete_created_returns true cmd w = refl
delete_created_returns false cmd w = refl

delete_last_returns : (o : Option Chain) (w : World) → (delete_last o w).0 ≡ ok tt
unfolding delete_chain
delete_last_returns none w = refl
delete_last_returns (some chain) w =
    rw (delete_rules_returns (w.clear_order chain.package_rules.entries) w)
      (delete_created_returns chain.created _ _)

-- The destructors never throw.
pub release_chain_returns : (p : ℕ) (w : World) → (release_chain p w).0 ≡ ok tt
unfolding release_chain
release_chain_returns p w = delete_last_returns (Shared.release p w.chains).0 _
