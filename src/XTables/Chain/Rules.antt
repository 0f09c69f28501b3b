-- ===== src/XTables/Chain/Rules.antt =====
-- A rule's life in a chain.
use tu_thesis.Base.{
  Bool-cases, inl, inr, if◌then◌else◌, ◌==◌, ◌∙◌, ap, ◌∙◌, ap, ◌≡◌, refl, some, ℕ, ◌++◌, ◌+◌,
}
use tu_thesis.Text.Bytes.{Bytes, bytes}
use tu_thesis.Exec.{ok, throw, runtime_error}
use tu_thesis.Map
use tu_thesis.Map.{nat_key, lookup-insert_self}
use tu_thesis.Shared
use tu_thesis.System.{issue, call_or_throw_lem}
use tu_thesis.World.{World, Chain, ChainRule}
use tu_thesis.XTables.ChainRule.{new_chain_rule, rule_command}
use tu_thesis.XTables.Chain.{rule_added, on_chain, add_rule}

module _ (p : ℕ) (rule type : Bytes) (chain : Chain) (w : World) where
  abbrev add_command : Bytes
  add_command = rule_command chain.table_name type chain.name rule

  abbrev the_rule : ChainRule
  the_rule = record { table_name = chain.table_name; chain_name = chain.name; rule = rule }

  -- The chain with the new rule, and the world with this chain.
  abbrev pub with_rule : Chain
  with_rule = record chain { package_rules = Map.insert w.rule_id the_rule chain.package_rules }

  abbrev pub after_add : World
  after_add = record (issue add_command w) {
    chains = Shared.write p with_rule w.chains;
    rule_id = w.rule_id + 1;
  }

  -- A rule that iptables accepts is stored under the next number, and the number grows. A rule that
  -- it refuses leaves nothing but the command, and an exception tells.
  pub add_rule_lem :
      Shared.object_at p w.chains ≡ some chain
      → add_rule p rule type w ≡ (
          if w.shell w.trace add_command == 0 then (ok w.rule_id, after_add) else (
            throw (runtime_error (bytes "Failed to execute '" ++ (rule ++ bytes "'."))),
            issue add_command w,
          ))
  unfolding add_rule new_chain_rule
  add_rule_lem live =
      ap (λ o. on_chain (rule_added p rule type) o w) live
      ∙ elim (Bool-cases (w.shell w.trace add_command == 0)) [
        | inl e ↦ rw call_or_throw_lem (rw e refl)
        | inr e ↦ rw call_or_throw_lem (rw e refl)
      ]
