-- ===== src/DnsMasq/Kept.antt =====
-- What commands (System) and the operations on dnsmasq configurations (DNSMasqConfiguration,
-- DNSMasqController) do not write.
use tu_thesis.Base.{ℕ, Option, none, some, Option-cases, Bool-cases, inl, inr, List, ◌++◌, ◌==◌}
use tu_thesis.Text.Bytes.{Bytes}
use tu_thesis.Exec.{modify, runtime_error, Exec}
use tu_thesis.Exec.Preserves.{
  Preserves, bind-Preserves, if_Preserves, pure-Preserves, raise-Preserves, try-Preserves,
}
use tu_thesis.Map
use tu_thesis.Map.{Map, bytes_key}
use tu_thesis.Shared
use tu_thesis.Shared.{Heap}
use tu_thesis.World.{
  World, EthernetController, Chain, Table, Configuration, Route, RouteRule, IpSet,
}
use tu_thesis.System.{call, call_only, call_or_throw}
use tu_thesis.DnsMasq.Configuration.{
  store_configuration, write_configuration, new_configuration, set_lines, add_all, on_configuration,
  release_configuration, remove_last, delete_configuration,
}
use tu_thesis.DnsMasq.Controller.{add_configuration, create, extend_locked}

-- The fields of the world that these operations do not write.
pub record Rest : Type 0 where
  pub shell : List Bytes → Bytes → ℕ
  pub interfaces : Map Bytes EthernetController
  pub route_objects : Heap Route
  pub routes : List ℕ
  pub rule_objects : Heap RouteRule
  pub route_rules : List ℕ
  pub ipset_objects : Heap IpSet
  pub ipsets : List ℕ
  pub chains : Heap Chain
  pub tables : Map Bytes Table
  pub rule_id : ℕ

abbrev pub rest : World → Rest
rest w = record {
  shell = w.shell;
  interfaces = w.interfaces;
  route_objects = w.route_objects;
  routes = w.routes;
  rule_objects = w.rule_objects;
  route_rules = w.route_rules;
  ipset_objects = w.ipset_objects;
  ipsets = w.ipsets;
  chains = w.chains;
  tables = w.tables;
  rule_id = w.rule_id;
}

-- Any statement about these fields is left true.
module _ (Q : Rest → Type 0) where
  abbrev Keeps : {A : Type 0} → Exec World A → Type 0
  Keeps m = Preserves (λ w. Q (rest w)) m

  call-Keeps : (cmd : Bytes) → Keeps (call cmd)
  unfolding call
  call-Keeps cmd = record { holds = λ w f. f }

  pub call_only-Keeps : (cmd : Bytes) → Keeps (call_only cmd)
  unfolding call_only
  call_only-Keeps cmd = bind-Preserves _ _ (call-Keeps cmd) (λ _. pure-Preserves _)

  pub call_or_throw-Keeps : (cmd message : Bytes) → Keeps (call_or_throw cmd message)
  unfolding call_or_throw
  call_or_throw-Keeps cmd message = bind-Preserves _ _ (call-Keeps cmd) (λ status.
      if_Preserves (status == 0) _ _ (pure-Preserves _) (raise-Preserves (runtime_error message)))

  write_configuration-Keeps : (c : Configuration) → Keeps (write_configuration c)
  unfolding write_configuration
  write_configuration-Keeps c = record {
    holds = λ w f. elim (Bool-cases (w.writable c.file_name)) [ inl e ↦ rw e f | inr e ↦ rw e f ];
  }

  create-Keeps : (name : Bytes) (lines : List (Bytes × Bytes)) → Keeps (create name lines)
  unfolding create new_configuration
  create-Keeps name lines =
      bind-Preserves _ _ (bind-Preserves _ _ (write_configuration-Keeps _) (λ _. pure-Preserves _))
        (λ c. record { holds = λ w f. f })

  add_lines-Keeps :
      (p : ℕ) (lines : List (Bytes × Bytes)) (o : Option Configuration)
      → Keeps (on_configuration (λ c. set_lines p c (c.configuration ++ lines)) o)
  unfolding set_lines
  add_lines-Keeps p lines none = record { holds = λ w f. f }
  add_lines-Keeps p lines (some c) =
      let c' : Configuration = record c { configuration = c.configuration ++ lines } in
      bind-Preserves (modify (store_configuration p c')) (λ _. write_configuration c')
        (record { holds = λ w f. f }) (λ _. write_configuration-Keeps c')

  extend_locked-Keeps :
      (o : Option ℕ) (lines : List (Bytes × Bytes)) → Keeps (extend_locked o lines)
  unfolding add_all
  extend_locked-Keeps none lines = record { holds = λ w f. f }
  extend_locked-Keeps (some p) lines =
      bind-Preserves _ _
        (record { holds = λ w f. (add_lines-Keeps p lines (Shared.object_at p w.confs)).holds w f })
        (λ _. pure-Preserves _)

  pub add_configuration-Keeps :
      (name : Bytes) (lines : List (Bytes × Bytes)) → Keeps (add_configuration name lines)
  unfolding add_configuration
  add_configuration-Keeps name lines = record {
    holds = λ w f. elim (Option-cases (Map.lookup name w.configurations)) [
      | inl e ↦ rw (e, add_configuration) ((create-Keeps name lines).holds w f)
      | inr (p, e) ↦
          rw (e, add_configuration)
            ((try-Preserves _ _ (extend_locked-Keeps (Shared.lock p w.confs).0 lines)
                (λ _. create-Keeps name lines)).holds
              (record w { confs = (Shared.lock p w.confs).1 }) f)
    ];
  }

  remove_last-Keeps : (o : Option Configuration) → Keeps (remove_last o)
  unfolding delete_configuration
  remove_last-Keeps none = pure-Preserves _
  remove_last-Keeps (some c) = record { holds = λ w f. f }

  pub release_configuration-Keeps : (p : ℕ) → Keeps (release_configuration p)
  unfolding release_configuration
  release_configuration-Keeps p = record {
    holds = λ w f.
        (remove_last-Keeps (Shared.release p w.confs).0).holds
          (record w { confs = (Shared.release p w.confs).1 }) f;
  }
