-- ===== src/PingSwitcher/Sharing.antt =====
-- The switch to another interface leaves the environment alone, however it ends.
use tu_thesis.System.{call_only}
use tu_thesis.Base.Int.{pos}
use tu_thesis.DnsMasq.Configuration.{release_configuration}
use tu_thesis.DnsMasq.Controller.{add_configuration, reload}
use tu_thesis.PingSwitcher.Switch.{drop_default_lem, without_default, default_command}
use tu_thesis.XTables.Chain.{release_chain}
use tu_thesis.NetworkFactory.Routes.{add_route_ok, with_routes}
use tu_thesis.Base.{refl, ℕ, ◌≡◌, ◌∙◌, ap, Option, none, some, Option-cases, inl, inr, List, []}
use tu_thesis.Text.Bytes.{Bytes, bytes}
use tu_thesis.Exec.{on_world, Exec}
use tu_thesis.Exec.Preserves.{try-Preserves, bind-Preserves, Preserves, pure-Preserves}
use tu_thesis.Route.Commands.{delete_route_lem}
use tu_thesis.XTables.Table.{get_chain}
use tu_thesis.EthernetController.{get_gw}
use tu_thesis.Map.{Map, bytes_key}
use tu_thesis.Shared
use tu_thesis.World.{World, EthernetController}
use tu_thesis.NetworkFactory.{get_xtable, release_route}
use tu_thesis.PingSwitcher.{
  add_masquerade, switch_to, share_internet, set_chain, set_dns_configuration, PingSwitcher,
  release_maybe,
}
use tu_thesis.PingSwitcher.Fixed.{Fixed, FixedView}
use tu_thesis.Untouched.{
  add_configuration-Keeps, get_chain-Keeps, get_xtable-Keeps, add_rule-Keeps, release_chain-Keeps,
  release_configuration-Keeps, Keeps, call_only-Keeps,
}

module _ (shell : List Bytes → Bytes → ℕ) (interfaces : Map Bytes EthernetController) where
  release_maybe-Keeps :
      (release : ℕ → Exec World (Unit {0})) (o : Option ℕ)
      → ((p : ℕ) → Keeps (FixedView shell interfaces) (release p))
      → Keeps (FixedView shell interfaces) (release_maybe release o)
  release_maybe-Keeps release none h = pure-Preserves _
  release_maybe-Keeps release (some p) h = h p

  release_route-Keeps : (p : ℕ) → Keeps (FixedView shell interfaces) (release_route p)
  unfolding release_route
  release_route-Keeps p = record {
    holds = λ w f. elim (Option-cases (Shared.release p w.route_objects).0) [
      | inl e ↦ rw (e, release_route) f
      | inr (r, e) ↦
          rw (e, release_route)
            (rw (delete_route_lem r (with_routes (Shared.release p w.route_objects).1 w)) f)
    ];
  }

  module _ (names : List Bytes) (name : Bytes) where
    -- The switcher uses the interface, and nothing else has changed.
    abbrev pub Settled : PingSwitcher × World → Type 0
    Settled (p, w) =
        ((p.interfaces ≡ names) × (p.current_interface ≡ name)) × Fixed shell interfaces w

    outside :
        {A : Type 0} (m : Exec World A)
        → Keeps (FixedView shell interfaces) m
        → Preserves Settled (on_world m)
    outside m keeps = record { holds = λ (p, w) (h, f). (h, keeps.holds w f) }

    set_chain-Settled : (chain : Option ℕ) → Preserves Settled (set_chain chain)
    unfolding set_chain
    set_chain-Settled chain = record {
      holds = λ (p, w) (h, f). (
        h,
        (release_maybe-Keeps release_chain p.masquarade_chain
              (release_chain-Keeps (FixedView shell interfaces))).holds
            w f,
      );
    }

    set_dns_configuration-Settled : (conf : ℕ) → Preserves Settled (set_dns_configuration conf)
    unfolding set_dns_configuration
    set_dns_configuration-Settled conf = record {
      holds = λ (p, w) (h, f). (
        h,
        (release_maybe-Keeps release_configuration p.dns_configaration
              (release_configuration-Keeps (FixedView shell interfaces))).holds
            w f,
      );
    }

    add_masquerade-Keeps :
        (chain : Option ℕ) (n : Bytes) → Keeps (FixedView shell interfaces) (add_masquerade chain n)
    add_masquerade-Keeps none n = record { holds = λ w f. f }
    add_masquerade-Keeps (some chain) n =
        bind-Preserves _ _ (add_rule-Keeps (FixedView shell interfaces) chain _ _)
          (λ _. pure-Preserves _)

    share_internet-Settled :
        (n : Bytes) (e : EthernetController) → Preserves Settled (share_internet n e)
    unfolding share_internet reload
    share_internet-Settled n e =
        bind-Preserves _ _
          (outside (get_xtable (bytes "nat")) (get_xtable-Keeps (FixedView shell interfaces) _))
          λ nat.
            bind-Preserves _ _
              (outside (get_chain nat (bytes "POSTROUTING"))
                (get_chain-Keeps (FixedView shell interfaces) _ _))
              λ chain. bind-Preserves _ _ (set_chain-Settled chain) λ _.
                bind-Preserves _ _ (outside (add_masquerade chain n) (add_masquerade-Keeps chain n))
                  λ _.
                    bind-Preserves _ _
                      (outside (call_only _) (call_only-Keeps (FixedView shell interfaces) _))
                      λ _.
                        bind-Preserves _ _
                          (outside (add_configuration _ _)
                            (add_configuration-Keeps (FixedView shell interfaces) _ _))
                          λ conf.
                            bind-Preserves _ _ (set_dns_configuration-Settled conf)
                              λ _. outside reload (call_only-Keeps (FixedView shell interfaces) _)

    pub switch_to-Settled :
        (e : EthernetController) (p : PingSwitcher) (w : World)
        → p.interfaces ≡ names
        → Fixed shell interfaces w
        → ((trace : List Bytes) → shell trace (default_command e) ≡ 0)
        → Settled (switch_to name e (p, w)).1
    unfolding switch_to
    switch_to-Settled e p w order f accepted =
        let dropped =
          (release_maybe-Keeps release_route p.default_gw release_route-Keeps).holds w f in
        let v = without_default name e p w in
        let added =
          add_route_ok (bytes "0.0.0.0/0") (get_gw e) [] (pos 0) [] v dropped.2
            (ap (λ g. g v.trace (default_command e)) dropped.0 ∙ accepted v.trace) in
        rw (drop_default_lem name e p w) (
          rw added (
            (try-Preserves (share_internet name e) _ (share_internet-Settled name e)
                (λ _. pure-Preserves tt)).holds
              _ ((order, refl), dropped)))
