-- ===== src/PingSwitcher/Settles.antt =====
-- That the switcher comes to use the first interface that answers, and keeps to it.
use tu_thesis.PingSwitcher.Choice.{round-switch_to}
use tu_thesis.Exec.Leads.{of_Preserves, bind-Leads, Leads}
use tu_thesis.PingSwitcher.Switch.{default_command}
use tu_thesis.Base.{
  sym, refl, Bool-cases, true, ℕ, zero, suc, ◌≡◌, ◌∙◌, ap, Bool, false, some, inl, inr, List, [],
  ◌∷◌, ◌++◌, ◌==◌, All,
}
use tu_thesis.Text.Bytes.{same_iff, same, Bytes, bytes}
use tu_thesis.Exec.{Exec, pure, ◌>>◌}
use tu_thesis.Exec.Preserves.{bind-Preserves, Preserves, pure-Preserves}
use tu_thesis.Map
use tu_thesis.Map.{Map, bytes_key}
use tu_thesis.World.{World, EthernetController}
use tu_thesis.Route.{route_command}
use tu_thesis.PingSwitcher.{PingSwitcher, round, ping_command}
use tu_thesis.PingSwitcher.Rounds.{round_steady, ping_route, CanCheck, answers, after_check, Silent}
use tu_thesis.PingSwitcher.Fixed.{Fixed}
use tu_thesis.PingSwitcher.Sharing.{Settled, switch_to-Settled}

-- The loop of `Run` for some rounds.
unfoldable pub rounds : ℕ → Exec (PingSwitcher × World) (Unit {0})
rounds zero = pure tt
rounds (suc n) = round >> rounds n

module _ (shell : List Bytes → Bytes → ℕ) (interfaces : Map Bytes EthernetController) where
  -- The ping over the gateway of the interface: whether it is answered, at any time.
  abbrev pub Pings : EthernetController → Bool → Type 0
  Pings e alive =
      ((trace : List Bytes) → shell trace (route_command (bytes "add") (ping_route e)) ≡ 0)
      × ((trace : List Bytes)
          → (shell (trace ++ (route_command (bytes "add") (ping_route e) ∷ [])) ping_command == 0)
            ≡ alive)

  abbrev pub Dead : Bytes → Type 0
  Dead name = (e : EthernetController) × (Map.lookup name interfaces ≡ some e) × Pings e false

  Pings-CanCheck :
      (e : EthernetController) (alive : Bool) (w : World)
      → Pings e alive
      → Fixed shell interfaces w
      → CanCheck e w × (answers e w ≡ alive)
  Pings-CanCheck e alive w (added, answer) (sh, _, unknown) = (
    (unknown, ap (λ f. f w.trace (route_command (bytes "add") (ping_route e))) sh ∙ added w.trace),
    ap (λ f. f (w.trace ++ (route_command (bytes "add") (ping_route e) ∷ [])) ping_command == 0) sh
        ∙ answer w.trace,
  )

  Dead-Silent :
      (names : List Bytes) (w : World)
      → All Dead names
      → Fixed shell interfaces w
      → (v : World) × Silent w names v × Fixed shell interfaces v
  Dead-Silent [] w dead f = (w, Silent.none_tried, f)
  Dead-Silent (name ∷ names) w ((e, known, pings), dead) f =
      let (can, quiet) = Pings-CanCheck e false w pings f in
      let (v, silent, g) = Dead-Silent names (after_check e w) dead f in
      (v, Silent.tried name e (ap (Map.lookup name) f.1 ∙ known) can quiet silent, g)

  -- The interface is known and answers, and its default route is accepted; those before it are known
  -- and do not answer.
  pub record Reachable (earlier : List Bytes) (name : Bytes) (e : EthernetController) : Type 0 where
    pub known : Map.lookup name interfaces ≡ some e
    pub alive : Pings e true
    pub routed : (trace : List Bytes) → shell trace (default_command e) ≡ 0
    pub dead : All Dead earlier

  module _ (earlier later : List Bytes) (name : Bytes) (e : EthernetController)
      (reachable : Reachable earlier name e) where
    abbrev order : List Bytes
    order = earlier ++ (name ∷ later)

    round-Settled :
        (p : PingSwitcher) (w : World)
        → p.interfaces ≡ order
        → Fixed shell interfaces w
        → Settled shell interfaces order name (round (p, w)).1
    round-Settled p w listed f =
        let (v, silent, g) = Dead-Silent earlier w reachable.dead f in
        let (can, answered) = Pings-CanCheck e true v reachable.alive g in
        let known = ap (Map.lookup name) g.1 ∙ reachable.known in
        elim (Bool-cases (same name p.current_interface)) [
          | inl current ↦
              let used : name ≡ p.current_interface =
                (same_iff name p.current_interface).0 current in
              rw
                (round_steady p w v earlier later e (listed ∙ ap (λ n. earlier ++ (n ∷ later)) used)
                  silent (ap (λ n. Map.lookup n v.interfaces) (sym used) ∙ known) can answered)
                ((listed, sym used), g)
          | inr other ↦
              rw
                (round-switch_to name e p w v earlier later
                  (listed, silent, known, can, answered, other))
                (switch_to-Settled shell interfaces order name e p (after_check e v) listed g
                  reachable.routed)
        ]

    round_again-Settled : Preserves (Settled shell interfaces order name) round
    round_again-Settled = record { holds = λ (p, w) (h, f). round-Settled p w h.0 f }

    rounds-Settled : (n : ℕ) → Preserves (Settled shell interfaces order name) (rounds n)
    unfolding rounds
    rounds-Settled zero = pure-Preserves tt
    rounds-Settled (suc n) = bind-Preserves _ _ round_again-Settled (λ _. rounds-Settled n)

-- While an interface of the list answers, its default route is accepted, and the interfaces before it
-- do not answer: from any state in which no route is known, the interface is in use after one round,
-- and stays in use, for any number of rounds, however the sharing of its connection ends.
pub rounds_settle :
    (p : PingSwitcher) (w : World) (earlier later : List Bytes) (name : Bytes)
    (e : EthernetController) (n : ℕ)
    → p.interfaces ≡ earlier ++ (name ∷ later)
    → w.routes ≡ []
    → Reachable w.shell w.interfaces earlier name e
    → (rounds (suc n) (p, w)).1.0.current_interface ≡ name
unfolding rounds
rounds_settle p w earlier later name e n listed unknown reachable =
    let order = earlier ++ (name ∷ later) in
    let first : Leads {S = PingSwitcher × World}
        (λ (q, v). (q.interfaces ≡ order) × Fixed w.shell w.interfaces v)
        (Settled w.shell w.interfaces order name) round =
      record {
        holds = λ (q, v) (h, f).
            round-Settled w.shell w.interfaces earlier later name e reachable q v h f;
      } in
    ((bind-Leads round (λ _. rounds n) first
        (λ _. of_Preserves _ (rounds-Settled w.shell w.interfaces earlier later name e reachable n))
        (λ s h. h)).holds
      (p, w) (listed, (refl, refl, unknown))).0.1
