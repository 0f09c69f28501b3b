-- ===== src/Untouched.antt =====
-- What the operations on chains (XTables), on dnsmasq configurations (DNSMasqConfiguration,
-- DNSMasqController) and on commands (System) do not touch.
use tu_thesis.XTables.Chain.Kept as ChainKept
use tu_thesis.Base.{ℕ, Bool, Option, none, some, Option-cases, inl, inr, List}
use tu_thesis.Text.Bytes.{Bytes}
use tu_thesis.Exec.{Exec}
use tu_thesis.Exec.Preserves.{Preserves, bind-Preserves, if_Preserves, pure-Preserves}
use tu_thesis.Map
use tu_thesis.DnsMasq.Kept
use tu_thesis.Map.{Map, bytes_key}
use tu_thesis.Shared
use tu_thesis.World.{World, EthernetController, Chain, Table, Route, RouteRule, IpSet}
use tu_thesis.Shared.{Heap}
use tu_thesis.System.{call_only, call_or_throw}
use tu_thesis.NetworkFactory.{get_xtable}
use tu_thesis.XTables.ChainRule.{new_chain_rule}
use tu_thesis.XTables.Chain.{new_chain, add_rule, rule_added, on_chain, delete_last, release_chain}
use tu_thesis.XTables.Table.{get_chain, chain_of, lock_or_make}
use tu_thesis.DnsMasq.Configuration.{release_configuration}
use tu_thesis.DnsMasq.Controller.{add_configuration, create}

-- The fields of the world that these operations do not write.
pub record View : Type 0 where
  pub shell : List Bytes → Bytes → ℕ
  pub interfaces : Map Bytes EthernetController
  pub route_objects : Heap Route
  pub routes : List ℕ
  pub rule_objects : Heap RouteRule
  pub route_rules : List ℕ
  pub ipset_objects : Heap IpSet
  pub ipsets : List ℕ

abbrev pub view : World → View
view w = record {
  shell = w.shell;
  interfaces = w.interfaces;
  route_objects = w.route_objects;
  routes = w.routes;
  rule_objects = w.rule_objects;
  route_rules = w.route_rules;
  ipset_objects = w.ipset_objects;
  ipsets = w.ipsets;
}

-- Any statement about these fields is left true.
module _ (Q : View → Type 0) where
  -- An action that leaves the statement true.
  abbrev pub Keeps : {A : Type 0} → Exec World A → Type 0
  Keeps m = Preserves (λ w. Q (view w)) m

  -- The same for the statements about all that commands and dnsmasq leave alone.
  abbrev Narrow : Kept.Rest → Type 0
  Narrow r = Q (record {
    shell = r.shell;
    interfaces = r.interfaces;
    route_objects = r.route_objects;
    routes = r.routes;
    rule_objects = r.rule_objects;
    route_rules = r.route_rules;
    ipset_objects = r.ipset_objects;
    ipsets = r.ipsets;
  })

  pub call_only-Keeps : (cmd : Bytes) → Keeps (call_only cmd)
  call_only-Keeps = Kept.call_only-Keeps Narrow

  pub call_or_throw-Keeps : (cmd message : Bytes) → Keeps (call_or_throw cmd message)
  call_or_throw-Keeps = Kept.call_or_throw-Keeps Narrow

  pub add_configuration-Keeps :
      (name : Bytes) (lines : List (Bytes × Bytes)) → Keeps (add_configuration name lines)
  add_configuration-Keeps = Kept.add_configuration-Keeps Narrow

  pub release_configuration-Keeps : (p : ℕ) → Keeps (release_configuration p)
  release_configuration-Keeps = Kept.release_configuration-Keeps Narrow

  pub get_xtable-Keeps : (name : Bytes) → Keeps (get_xtable name)
  unfolding get_xtable
  get_xtable-Keeps name = record {
    holds = λ w f. elim (Option-cases (Map.lookup name w.tables)) [
      | inl e ↦ rw (e, get_xtable) f
      | inr (t, e) ↦ rw (e, get_xtable) f
    ];
  }

  delete_last-Keeps : (o : Option Chain) → Keeps (delete_last o)
  delete_last-Keeps = ChainKept.delete_last-Keeps Narrow

  pub release_chain-Keeps : (p : ℕ) → Keeps (release_chain p)
  unfolding release_chain
  release_chain-Keeps p = record {
    holds = λ w f.
        (delete_last-Keeps (Shared.release p w.chains).0).holds
          (record w { chains = (Shared.release p w.chains).1 }) f;
  }

  new_chain-Keeps : (name table : Bytes) (create : Bool) → Keeps (new_chain name table create)
  unfolding new_chain
  new_chain-Keeps name table create =
      if_Preserves create _ _ (bind-Preserves _ _ (call_or_throw-Keeps _ _) (λ _. pure-Preserves _))
        (pure-Preserves _)

  lock_or_make-Keeps :
      (key name : Bytes) (t : Table) (o : Option ℕ) → Keeps (lock_or_make key name t o)
  lock_or_make-Keeps key name t (some p) = record { holds = λ w f. f }
  lock_or_make-Keeps key name t none =
      bind-Preserves _ _ (new_chain-Keeps _ _ _) (λ chain. record { holds = λ w f. f })

  chain_of-Keeps : (key name : Bytes) (o : Option Table) → Keeps (chain_of key name o)
  chain_of-Keeps key name none = record { holds = λ w f. f }
  chain_of-Keeps key name (some t) = lock_or_make-Keeps key name t _

  pub get_chain-Keeps : (key name : Bytes) → Keeps (get_chain key name)
  unfolding get_chain
  get_chain-Keeps key name = record {
    holds = λ w f. (chain_of-Keeps key name (Map.lookup key w.tables)).holds w f;
  }

  on_chain-Keeps :
      (p : ℕ) (rule type : Bytes) (o : Option Chain) → Keeps (on_chain (rule_added p rule type) o)
  unfolding new_chain_rule
  on_chain-Keeps p rule type none = record { holds = λ w f. f }
  on_chain-Keeps p rule type (some chain) =
      bind-Preserves _ _ (bind-Preserves _ _ (call_or_throw-Keeps _ _) (λ _. pure-Preserves _))
        (λ r. record { holds = λ w f. f })

  pub add_rule-Keeps : (p : ℕ) (rule type : Bytes) → Keeps (add_rule p rule type)
  unfolding add_rule
  add_rule-Keeps p rule type = record {
    holds = λ w f. (on_chain-Keeps p rule type (Shared.object_at p w.chains)).holds w f;
  }
