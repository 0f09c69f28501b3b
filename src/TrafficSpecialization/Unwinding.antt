-- ===== src/TrafficSpecialization/Unwinding.antt =====
-- What the steps of the constructor do not touch, and what an exception in it leaves.
use tu_thesis.Base.{ℕ, ◌+◌, ◌^◌, ltb, Bool-cases, Option, none, some, Option-cases, inl, inr}
use tu_thesis.Text.Bytes.{Bytes, bytes}
use tu_thesis.Map
use tu_thesis.Map.{bytes_key}
use tu_thesis.Exec.{Exec, Exception}
use tu_thesis.Exec.Preserves.{bind-Preserves, pure-Preserves, raise-Preserves, try-Preserves}
use tu_thesis.Exec.Returns.{Returns, bind-Returns, try-Returns, raise-Returns}
use tu_thesis.World.{World}
use tu_thesis.Untouched.{
  View, Keeps, get_xtable-Keeps, get_chain-Keeps, add_rule-Keeps, release_chain-Keeps,
}
use tu_thesis.NetworkFactory.{get_interface_known, get_interface_unknown, get_interface}
use tu_thesis.TrafficSpecialization.{
  next_mark, unwinding, release_chain_maybe, mark_traffic, set_up_chains, unknown_interface,
}

pub unwinding-Returns :
    {A : Type 0} {Q : World → Type 0} {R : A → World → Type 0} {T U : World → Type 0}
    (release : Exec World (Unit {0})) (m : Exec World A)
    → Returns Q R T m
    → Returns T (λ _. U) U release
    → Returns Q R U (unwinding release m)
unwinding-Returns release m hm hr =
    try-Returns m _ hm (λ x. bind-Returns release _ hr (λ _. raise-Returns x))

module _ (Q : View → Type 0) where
  unwinding-Keeps :
      {A : Type 0} (release : Exec World (Unit {0})) (m : Exec World A)
      → Keeps Q release
      → Keeps Q m
      → Keeps Q (unwinding release m)
  unwinding-Keeps release m hr hm =
      try-Preserves m _ hm (λ x. bind-Preserves release _ hr (λ _. raise-Preserves x))

  pub next_mark-Keeps : Keeps Q next_mark
  unfolding next_mark
  next_mark-Keeps = record {
    holds =
        λ w q. elim (Bool-cases (ltb (w.mark + 101) (2 ^ 31))) [ inl e ↦ rw e q | inr e ↦ rw e q ];
  }

  release_chain_maybe-Keeps : (o : Option ℕ) → Keeps Q (release_chain_maybe o)
  release_chain_maybe-Keeps none = pure-Preserves _
  release_chain_maybe-Keeps (some p) = release_chain-Keeps Q p

  mark_traffic-Keeps :
      (prerouting output : Option ℕ) (rule : Bytes) → Keeps Q (mark_traffic prerouting output rule)
  mark_traffic-Keeps none output rule = record { holds = λ w q. q }
  mark_traffic-Keeps (some p) none rule =
      bind-Preserves _ _ (add_rule-Keeps Q p rule _) (λ _. record { holds = λ w q. q })
  mark_traffic-Keeps (some p) (some o) rule =
      bind-Preserves _ _ (add_rule-Keeps Q p rule _)
        (λ _. bind-Preserves _ _ (add_rule-Keeps Q o rule _) (λ _. pure-Preserves _))

  pub set_up_chains-Keeps : (rule : Bytes) → Keeps Q (set_up_chains rule)
  unfolding set_up_chains
  set_up_chains-Keeps rule = bind-Preserves _ _ (get_xtable-Keeps Q (bytes "mangle")) (λ mangle.
      bind-Preserves _ _ (get_chain-Keeps Q mangle (bytes "PREROUTING")) (λ prerouting.
        unwinding-Keeps _ _ (release_chain_maybe-Keeps prerouting) (
          bind-Preserves _ _ (get_xtable-Keeps Q (bytes "mangle")) (λ mangle.
            bind-Preserves _ _ (get_chain-Keeps Q mangle (bytes "OUTPUT")) (λ output.
              unwinding-Keeps _ _ (release_chain_maybe-Keeps output)
                (mark_traffic-Keeps prerouting output rule))))))

  pub unknown_interface-Keeps : (name : Bytes) (e : Exception) → Keeps Q (unknown_interface name e)
  unknown_interface-Keeps name (Exception.out_of_range m) = raise-Preserves _
  unknown_interface-Keeps name (Exception.invalid_argument m) = raise-Preserves _
  unknown_interface-Keeps name (Exception.runtime_error m) = raise-Preserves _

  pub get_interface-Keeps : (name : Bytes) → Keeps Q (get_interface name)
  get_interface-Keeps name = record {
    holds = λ w q. elim (Option-cases (Map.lookup name w.interfaces)) [
      | inl e ↦ rw (get_interface_unknown name w e) q
      | inr (i, e) ↦ rw (get_interface_known name w i e) q
    ];
  }
