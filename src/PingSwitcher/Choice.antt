-- ===== src/PingSwitcher/Choice.antt =====
-- Which interface a round chooses.
use tu_thesis.Base.{
  ◌≢◌, append-nil, none, ◌≡◌, ◌∙◌, refl, ap, sym, subst, true, false, List, [], ◌∷◌, ◌++◌,
  if◌then◌else◌,
}
use tu_thesis.Text.Bytes.{Bytes, same}
use tu_thesis.Exec.{Outcome, ok, throw, undefined, Exec, pure, continue, handle}
use tu_thesis.World.{World, EthernetController}
use tu_thesis.PingSwitcher.{PingSwitcher, move_default, switch_to, check_all, round}
use tu_thesis.PingSwitcher.Rounds.{Known, CanCheck, answers, after_check, Silent, check_all-Silent}
use tu_thesis.PingSwitcher.Switch.{
  check_interface_other, switch_to_accepted, switch_to_refused, without_default, default_command,
  Uses,
}

-- Nothing that the inner `try` block does lets the loop go on: the state is that which it left.
ends_loop :
    {S : Type 0} (r : Outcome (Unit {0})) (s : S) (rest : Exec S (Unit {0}))
    → let inner = handle r (λ _. pure tt) s in
      let outer = continue inner.0 (λ _. pure true) inner.1 in
      let checked = handle outer.0 (λ _. pure false) outer.1 in
      (continue checked.0 (λ stop. if stop then pure tt else rest) checked.1).1 ≡ inner.1
ends_loop (ok _) s rest = refl
ends_loop (throw x) s rest = refl
ends_loop undefined s rest = refl

module _ (name : Bytes) (e : EthernetController) (p : PingSwitcher) (w : World) where
  check_all_other :
      (later : List Bytes)
      → Known name e p w
      → CanCheck e w
      → answers e w ≡ true
      → same name p.current_interface ≡ false
      → (check_all (name ∷ later) (p, w)).1 ≡ (switch_to name e (p, after_check e w)).1
  unfolding check_all switch_to
  check_all_other later known can alive other =
      let done = move_default name e (p, after_check e w) in
      rw (check_interface_other name e p w known can alive other)
        (ends_loop done.0 done.1 (check_all later))

module _ (name : Bytes) (e : EthernetController) (p : PingSwitcher) (w v : World) where
  -- The first interface in the order that answers, and that it is not the one in use.
  abbrev pub Chosen : List Bytes → List Bytes → Type 0
  Chosen earlier later =
      (p.interfaces ≡ earlier ++ (name ∷ later))
      × Silent w earlier v
      × Known name e p v
      × CanCheck e v
      × (answers e v ≡ true)
      × (same name p.current_interface ≡ false)

  pub round-switch_to :
      (earlier later : List Bytes)
      → Chosen earlier later
      → (round (p, w)).1 ≡ (switch_to name e (p, after_check e v)).1
  unfolding round
  round-switch_to earlier later (order, silent, known, can, alive, other) =
      ap (λ l. (check_all l (p, w)).1) order
      ∙ ap (λ t. t.1) (check_all-Silent p (name ∷ later) silent)
      ∙ check_all_other name e p v later known can alive other

  -- The first interface in the order that answers, if it is not the one in use and its default route
  -- is accepted, is the one in use after the round, and the switcher holds its default route, even
  -- if the masquerading rule or the configuration of dnsmasq fails.
  pub round_chooses :
      (earlier later : List Bytes)
      → Chosen earlier later
      → ((trace : List Bytes) → v.shell trace (default_command e) ≡ 0)
      → Uses name (without_default name e p (after_check e v)).route_objects.next (round (p, w)).1.0
  round_chooses earlier later chosen accepted =
      let (_, _, _, can, _, _) = chosen in
      subst (λ t. Uses name (without_default name e p (after_check e v)).route_objects.next t.0)
        (sym (round-switch_to earlier later chosen))
        (switch_to_accepted name e p (after_check e v) can.0 accepted)

  -- If its default route is refused, the switcher still names the interface that it used before, but
  -- it has given up the default route of that interface.
  pub round_loses :
      (earlier later : List Bytes)
      → Chosen earlier later
      → ((trace : List Bytes) → v.shell trace (default_command e) ≢ 0)
      → (round (p, w)).1.0 ≡ record p { default_gw = none }
  round_loses earlier later chosen refused =
      let (_, _, _, can, _, _) = chosen in
      ap (λ t. t.0) (round-switch_to earlier later chosen)
      ∙ (switch_to_refused name e p (after_check e v) can.0 refused).1

-- A round in which no interface answers changes nothing in the switcher, which goes on to name the
-- interface that it used.
pub round_unanswered :
    (p : PingSwitcher) (w v : World) → Silent w p.interfaces v → round (p, w) ≡ (ok tt, (p, v))
unfolding round check_all
round_unanswered p w v silent =
    ap (λ l. check_all l (p, w)) (sym (append-nil p.interfaces)) ∙ check_all-Silent p [] silent
