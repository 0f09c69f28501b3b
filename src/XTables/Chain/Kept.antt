-- ===== src/XTables/Chain/Kept.antt =====
-- What the destructors of rules and chains do not write.
use tu_thesis.XTables.ChainRule.{delete_chain_rule}
use tu_thesis.Exec.{Exec}
use tu_thesis.XTables.Chain.{delete_last, clear_and_delete, delete_chain, delete_rules}
use tu_thesis.Base.{ℕ, List, [], ◌∷◌, Option, none, some}
use tu_thesis.World.{World, Chain, ChainRule}
use tu_thesis.DnsMasq.Kept.{Rest, rest, call_only-Keeps}
use tu_thesis.Exec.Preserves.{Preserves, bind-Preserves, if_Preserves, pure-Preserves}

-- Any statement about the fields that commands leave alone is left true.
module _ (Q : Rest → Type 0) where
  abbrev Keeps : {A : Type 0} → Exec World A → Type 0
  Keeps m = Preserves (λ w. Q (rest w)) m

  delete_rules-Keeps : (rules : List (ℕ × ChainRule)) → Keeps (delete_rules rules)
  unfolding delete_rules delete_chain_rule
  delete_rules-Keeps [] = pure-Preserves _
  delete_rules-Keeps ((_, r) ∷ rules) =
      bind-Preserves _ _ (call_only-Keeps Q _) (λ _. delete_rules-Keeps rules)

  clear_and_delete-Keeps :
      (rules : List (ℕ × ChainRule)) (chain : Chain) → Keeps (clear_and_delete rules chain)
  clear_and_delete-Keeps rules chain =
      bind-Preserves _ _ (delete_rules-Keeps rules)
        (λ _. if_Preserves chain.created _ _ (call_only-Keeps Q _) (pure-Preserves _))

  pub delete_last-Keeps : (o : Option Chain) → Keeps (delete_last o)
  unfolding delete_chain
  delete_last-Keeps none = pure-Preserves _
  delete_last-Keeps (some chain) = record {
    holds =
        λ w q. (clear_and_delete-Keeps (w.clear_order chain.package_rules.entries) chain).holds w q;
  }
