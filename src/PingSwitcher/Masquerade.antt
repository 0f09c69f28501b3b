-- ===== src/PingSwitcher/Masquerade.antt =====
-- The rules that mask the addresses behind the interface in use.
use tu_thesis.XTables.Chain.Rules.{add_rule_lem}
use tu_thesis.Base.Int.{pos}
use tu_thesis.TrafficSpecialization.Made.{get_xtable_known, Succeeds}
use tu_thesis.PingSwitcher.Rounds.{via}
use tu_thesis.PingSwitcher.Switch.{
  unknown_still, drop_default_lem, default_command, without_default,
}
use tu_thesis.Base.{
  ◌==◌, [], ◌≡◌, ◌∙◌, refl, ap, ℕ, ◌+◌, some, none, Option, Option-cases, inl, inr, ◌++◌,
}
use tu_thesis.EthernetController.{get_gw}
use tu_thesis.PingSwitcher.Switch.{same_shell}
use tu_thesis.Text.Bytes.{Bytes, bytes}
use tu_thesis.Exec.{ok, on_world, Exec, ◌>>=◌, ◌>>◌}
use tu_thesis.Exec.Preserves.{try-Preserves, Preserves, bind-Preserves, pure-Preserves}
use tu_thesis.Map
use tu_thesis.XTables.ChainRule.{rule_command}
use tu_thesis.Map.{bytes_key, nat_key}
use tu_thesis.Shared
use tu_thesis.Shared.{object_at, lock-object_at, object_at-write}
use tu_thesis.Shared.Uses.{uses_at, uses_at-lock}
use tu_thesis.Shared.Others.{release-Dropped, object_at-lock}
use tu_thesis.World.{World, EthernetController, Table, Chain}
use tu_thesis.System.{issue, call_only}
use tu_thesis.EthernetController.{get_dns_servers}
use tu_thesis.DnsMasq.Kept
use tu_thesis.DnsMasq.Kept.{Rest, rest}
use tu_thesis.DnsMasq.Configuration.{release_configuration}
use tu_thesis.DnsMasq.Controller.{add_configuration, reload}
use tu_thesis.NetworkFactory.{release_route}
use tu_thesis.NetworkFactory.Routes.{add_route_ok, with_routes}
use tu_thesis.Route.Commands.{delete_route_lem}
use tu_thesis.XTables.Chain.{release_chain}
use tu_thesis.XTables.Table.{get_chain, chain_of, lock_or_make}
use tu_thesis.PingSwitcher.{
  set_chain, share_internet, switch_to, PingSwitcher, set_dns_configuration, dns_lines,
  release_maybe,
}

-- The route that goes away takes nothing else with it.
release_route_rest :
    (o : Option ℕ) (w : World)
    → let w' = (release_maybe release_route o w).1 in
      (w'.chains ≡ w.chains) × (w'.tables ≡ w.tables) × (w'.rule_id ≡ w.rule_id)
unfolding release_route
release_route_rest none w = (refl, refl, refl)
release_route_rest (some q) w = elim (Option-cases (Shared.release q w.route_objects).0) [
  | inl e ↦ rw (e, release_route) (refl, refl, refl)
  | inr (r, e) ↦
      rw (e, release_route)
        (rw (delete_route_lem r (with_routes (Shared.release q w.route_objects).1 w))
          (refl, refl, refl))
]

-- What follows the rule in `share_internet` writes none of the chains.
module _ (Q : Rest → Type 0) where
  abbrev Leaves : PingSwitcher × World → Type 0
  Leaves (p, w) = Q (rest w)

  outside :
      {A : Type 0} (m : Exec World A)
      → Preserves (λ w. Q (rest w)) m
      → Preserves Leaves (on_world m)
  outside m keeps = record { holds = λ (p, w) h. keeps.holds w h }

  release_conf :
      (o : Option ℕ) → Preserves (λ w. Q (rest w)) (release_maybe release_configuration o)
  release_conf none = pure-Preserves tt
  release_conf (some p) = Kept.release_configuration-Keeps Q p

  set_dns_configuration-Leaves : (conf : ℕ) → Preserves Leaves (set_dns_configuration conf)
  unfolding set_dns_configuration
  set_dns_configuration-Leaves conf = record {
    holds = λ (p, w) h. (release_conf p.dns_configaration).holds w h;
  }

  abbrev dns_part : Bytes → EthernetController → Exec (PingSwitcher × World) (Unit {0})
  dns_part name e = do
    on_world (call_only (bytes "sysctl net.ipv4.conf." ++ (name ++ bytes ".rp_filter=2")))
    conf ← on_world (add_configuration (bytes "resolvconf") (dns_lines (get_dns_servers e)))
    set_dns_configuration conf
    on_world reload

  dns_part-Leaves : (name : Bytes) (e : EthernetController) → Preserves Leaves (dns_part name e)
  unfolding reload
  dns_part-Leaves name e = bind-Preserves _ _ (outside _ (Kept.call_only-Keeps Q _)) λ _.
      bind-Preserves _ _ (outside _ (Kept.add_configuration-Keeps Q _ _)) λ conf.
        bind-Preserves _ _ (set_dns_configuration-Leaves conf)
          λ _. outside _ (Kept.call_only-Keeps Q _)

module _ (c n : ℕ) (chain : Chain) (w : World) (live : object_at c w.chains ≡ some chain)
    (counted : uses_at c w.chains ≡ some (n + 1)) where
  -- A chain that is in use is found again, with one pointer more.
  get_chain_known :
      (key name : Bytes) (table : Table)
      → Map.lookup key w.tables ≡ some table
      → Map.lookup name table.chains ≡ some c
      → get_chain key name w ≡ (ok (some c), record w { chains = (Shared.lock c w.chains).1 })
  unfolding get_chain
  get_chain_known key name table known had =
      ap (λ o. chain_of key name o w) known
      ∙ ap (λ o. lock_or_make key name table o w) had
      ∙ ap (λ o. (ok o, record w { chains = (Shared.lock c w.chains).1 }))
          (lock-object_at c chain w.chains live).0

  abbrev held_again : World
  held_again = record w { chains = (Shared.release c (Shared.lock c w.chains).1).1 }

  -- The pointer that is replaced by one to the same chain.
  release_chain_known :
      release_chain c (record w { chains = (Shared.lock c w.chains).1 }) ≡ (ok tt, held_again)
  unfolding release_chain
  release_chain_known =
      rw (release-Dropped c n (Shared.lock c w.chains).1 (uses_at-lock c n w.chains counted)).kept
        refl

  live_again : object_at c held_again.chains ≡ some chain
  live_again =
      (release-Dropped c n (Shared.lock c w.chains).1 (uses_at-lock c n w.chains counted)).objects c
      ∙ object_at-lock c c w.chains
      ∙ live

module _ (name : Bytes) (e : EthernetController) (p : PingSwitcher) (w : World) (table : Table)
    (c n : ℕ) (chain : Chain) where
  abbrev masquerade : Bytes
  masquerade = bytes "--out-interface " ++ (name ++ bytes " -j MASQUERADE")

  -- The old default route is gone, and the new one is there.
  abbrev routed : World
  routed =
      let v = without_default name e p w in
      with_routes (Shared.allocate (via (bytes "0.0.0.0/0") e) v.route_objects)
        (issue (default_command e) v)

  -- A switch of a switcher that holds a chain, which the table knows too, with no route known to the
  -- factory and where every command succeeds, whatever becomes of dnsmasq: the chain that it holds has the
  -- rule for the new interface, and all rules of before, also the one for the interface that was left.
  pub switch_keeps_rules :
      Succeeds w
      → w.routes ≡ []
      → Map.lookup (bytes "nat") w.tables ≡ some table
      → Map.lookup (bytes "POSTROUTING") table.chains ≡ some c
      → p.masquarade_chain ≡ some c
      → object_at c w.chains ≡ some chain
      → uses_at c w.chains ≡ some (n + 1)
      → object_at c (switch_to name e (p, w)).1.1.chains
        ≡ some (record chain {
          package_rules =
              Map.insert w.rule_id
                (record {
                  table_name = chain.table_name;
                  chain_name = chain.name;
                  rule = masquerade;
                })
                chain.package_rules;
        })
  unfolding switch_to share_internet set_chain
  switch_keeps_rules succeeds no_routes nat had holds live counted =
      let v = without_default name e p w in
      let (chains, tables, rule_id) = release_route_rest p.default_gw w in
      let live' : object_at c routed.chains ≡ some chain = ap (object_at c) chains ∙ live in
      let counted' : uses_at c routed.chains ≡ some (n + 1) = ap (uses_at c) chains ∙ counted in
      let nat' : Map.lookup (bytes "nat") routed.tables ≡ some table =
        ap (Map.lookup (bytes "nat")) tables ∙ nat in
      let again = held_again c n chain routed live' counted' in
      let rules = λ (k : ℕ). record chain {
        package_rules =
            Map.insert k
              (record { table_name = chain.table_name; chain_name = chain.name; rule = masquerade })
              chain.package_rules;
      } in
      let Q = λ (r : Rest). object_at c r.chains ≡ some (rules w.rule_id) in
      let takes =
        ap (λ s. s == 0)
          (same_shell name e p w routed.trace
              (rule_command chain.table_name (bytes "-A") chain.name masquerade)
            ∙ succeeds _ _) in
      let made =
        object_at-write c chain (rules v.rule_id) again.chains
          (live_again c n chain routed live' counted')
        ∙ ap (λ k. some (rules k)) rule_id in
      rw (drop_default_lem name e p w) (
        rw
          (add_route_ok (bytes "0.0.0.0/0") (get_gw e) [] (pos 0) [] v
            (unknown_still name e p w no_routes) (same_shell name e p w _ _ ∙ succeeds _ _))
          (rw (get_xtable_known (bytes "nat") table routed nat') (
            rw
              (get_chain_known c n chain routed live' counted' (bytes "nat") (bytes "POSTROUTING")
                table nat' had)
              (rw holds (
                rw (release_chain_known c n chain routed live' counted') (
                  rw
                    (add_rule_lem c masquerade (bytes "-A") chain again
                      (live_again c n chain routed live' counted'))
                    (rw takes (
                      (try-Preserves (dns_part Q name e) _ (dns_part-Leaves Q name e)
                          (λ _. pure-Preserves tt)).holds
                        _ made))))))))
