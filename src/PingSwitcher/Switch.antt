-- ===== src/PingSwitcher/Switch.antt =====
-- What moving the default route leaves behind, where a part of it fails.
use tu_thesis.NetworkFactory.Routes.{add_route_ok, release_route_lem, add_route_fails}
use tu_thesis.DnsMasq.Controller.{reload, add_configuration}
use tu_thesis.System.{call_only}
use tu_thesis.XTables.Table.{get_chain}
use tu_thesis.NetworkFactory.{get_interface_known, release_route, get_xtable}
use tu_thesis.EthernetController.{get_dns_servers, get_gw}
use tu_thesis.Exec.{◌>>=◌, ◌>>◌, ok, Exec, on_world, try, pure}
use tu_thesis.Route.{route_command}
use tu_thesis.PingSwitcher.{
  check_interface, check_interface, dns_lines, drop_default, switch_to, release_maybe,
  add_masquerade, share_internet, PingSwitcher, set_dns_configuration, set_chain,
}
use tu_thesis.World.{World, EthernetController}
use tu_thesis.Base.{
  Bool, sym, ap, ◌∙◌, ℕ, ◌≡◌, ◌≢◌, refl, Option, none, some, List, [], ◌++◌, true, false,
}
use tu_thesis.Base.Int.{pos}
use tu_thesis.Text.Bytes.{Bytes, bytes, same}
use tu_thesis.Exec.Preserves.{
  Preserves, bind-Preserves, try-Preserves, pure-Preserves, on_world-Preserves,
}
use tu_thesis.PingSwitcher.Rounds.{ping_lem, answers, CanCheck, Known, after_check, via}

abbrev pub default_command : EthernetController → Bytes
default_command e = route_command (bytes "add") (via (bytes "0.0.0.0/0") e)

-- What the switcher is after the interface was chosen: in use, with this route.
abbrev pub Uses : Bytes → ℕ → PingSwitcher → Type 0
Uses name r p = (p.current_interface ≡ name) × (p.default_gw ≡ some r)

module _ (name : Bytes) (r : ℕ) where
  outside :
      {A B : Type 0} (m : Exec World A) (k : A → Exec (PingSwitcher × World) B)
      → ((a : A) → Preserves (λ (p, w). Uses name r p) (k a))
      → Preserves (λ (p, w). Uses name r p) (on_world m >>= k)
  outside m k later = bind-Preserves (on_world m) k (on_world-Preserves (Uses name r) m) later

  set_chain-Uses : (chain : Option ℕ) → Preserves (λ (p, w). Uses name r p) (set_chain chain)
  unfolding set_chain
  set_chain-Uses chain = record { holds = λ s h. h }

  set_dns_configuration-Uses :
      (conf : ℕ) → Preserves (λ (p, w). Uses name r p) (set_dns_configuration conf)
  unfolding set_dns_configuration
  set_dns_configuration-Uses conf = record { holds = λ s h. h }

  share_internet-Uses :
      (n : Bytes) (e : EthernetController)
      → Preserves (λ (p, w). Uses name r p) (share_internet n e)
  unfolding share_internet
  share_internet-Uses n e = outside (get_xtable (bytes "nat")) _ λ nat.
      outside (get_chain nat (bytes "POSTROUTING")) _ λ chain.
        bind-Preserves (set_chain chain) _ (set_chain-Uses chain) λ _.
          outside (add_masquerade chain n) _ λ _.
            outside (call_only (bytes "sysctl net.ipv4.conf." ++ (n ++ bytes ".rp_filter=2"))) _
              λ _.
                outside (add_configuration (bytes "resolvconf") (dns_lines (get_dns_servers e))) _
                  λ conf.
                    bind-Preserves (set_dns_configuration conf) _ (set_dns_configuration-Uses conf)
                      λ _. on_world-Preserves (Uses name r) reload

release_maybe_lem :
    (o : Option ℕ) (w : World)
    → let done = release_maybe release_route o w in
      (done.0 ≡ ok tt) × (done.1.routes ≡ w.routes) × (done.1.shell ≡ w.shell)
release_maybe_lem none w = (refl, refl, refl)
release_maybe_lem (some q) w = release_route_lem q w

module _ (name : Bytes) (e : EthernetController) (p : PingSwitcher) (w : World) where
  -- The world in which the default route is added: the old one, if there was one, is deleted.
  abbrev pub without_default : World
  without_default = (release_maybe release_route p.default_gw w).1

  pub drop_default_lem :
      drop_default (p, w) ≡ (ok tt, (record p { default_gw = none }, without_default))
  unfolding drop_default
  drop_default_lem =
      ap (λ r. (r, (record p { default_gw = none }, without_default)))
        (release_maybe_lem p.default_gw w).0

  pub unknown_still : w.routes ≡ [] → without_default.routes ≡ []
  unknown_still unknown = (release_maybe_lem p.default_gw w).1 ∙ unknown

  pub same_shell :
      (trace : List Bytes) (cmd : Bytes) → without_default.shell trace cmd ≡ w.shell trace cmd
  same_shell trace cmd = ap (λ f. f trace cmd) (release_maybe_lem p.default_gw w).2

  pub switch_to_refused :
      w.routes ≡ []
      → ((trace : List Bytes) → w.shell trace (default_command e) ≢ 0)
      → ((switch_to name e (p, w)).0 ≡ ok tt)
        × ((switch_to name e (p, w)).1.0 ≡ record p { default_gw = none })
  unfolding switch_to
  switch_to_refused unknown refused =
      let (_, thrown) =
        add_route_fails (bytes "0.0.0.0/0") (get_gw e) [] (pos 0) [] without_default
          (unknown_still unknown) (λ h. refused _ (sym (same_shell _ _) ∙ h)) in
      (rw drop_default_lem (rw thrown), rw drop_default_lem (rw thrown))

  pub switch_to_accepted :
      w.routes ≡ []
      → ((trace : List Bytes) → w.shell trace (default_command e) ≡ 0)
      → Uses name without_default.route_objects.next (switch_to name e (p, w)).1.0
  unfolding switch_to
  switch_to_accepted unknown accepted =
      let added =
        add_route_ok (bytes "0.0.0.0/0") (get_gw e) [] (pos 0) [] without_default
          (unknown_still unknown) (same_shell _ _ ∙ accepted _) in
      rw drop_default_lem (
        rw added (
          (try-Preserves (share_internet name e) _ (share_internet-Uses name _ name e)
              (λ _. pure-Preserves tt)).holds
            _ (refl, refl)))

-- What the outer `try` block leaves of a step that ends the round.
module _ {S : Type 0} where
  abbrev pub then_true : Exec S (Unit {0}) → Exec S Bool
  then_true m = try (m >> pure true) (λ _. pure false)

module _ (name : Bytes) (e : EthernetController) (p : PingSwitcher) (w : World) where
  pub check_interface_other :
      Known name e p w
      → CanCheck e w
      → answers e w ≡ true
      → same name p.current_interface ≡ false
      → check_interface name (p, w) ≡ then_true (switch_to name e) (p, after_check e w)
  unfolding check_interface
  check_interface_other known can alive other =
      rw (get_interface_known name w e known) (rw (ping_lem e w can) (rw alive (rw other refl)))
