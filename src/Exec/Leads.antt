-- ===== src/Exec/Leads.antt =====
-- Actions that lead from one statement on the state to another one, however they end.
use tu_thesis.Base.{Bool, true, false, if◌then◌else◌}
use tu_thesis.Exec.{Outcome, ok, throw, undefined, Exec, continue, ◌>>=◌}
use tu_thesis.Exec.Preserves.{Preserves}

pub record Leads {ℓ κ} {S : Type ℓ} {A : Type κ} (Q R : S → Type ℓ) (action : Exec S A)
    : Type ℓ where
  pub holds : (before : S) → Q before → R (action before).1

module _ {ℓ κ} {S : Type ℓ} {A : Type κ} {Q : S → Type ℓ} where
  pub of_Preserves : (action : Exec S A) → Preserves Q action → Leads Q Q action
  of_Preserves action h = record { holds = λ s q. h.holds s q }

module _ {ℓ κ μ} {S : Type ℓ} {A : Type κ} {B : Type μ} {R T : S → Type ℓ} where
  continue-Leads :
      (outcome : Outcome A) (next : A → Exec S B)
      → ((a : A) → Leads R T (next a))
      → ((s : S) → R s → T s)
      → Leads R T (continue outcome next)
  continue-Leads (throw x) next all weaker = record { holds = weaker }
  continue-Leads undefined next all weaker = record { holds = weaker }
  continue-Leads (ok a) next all weaker = all a

module _ {ℓ κ μ} {S : Type ℓ} {A : Type κ} {B : Type μ} {Q R T : S → Type ℓ} where
  -- What the first action leads to is to imply the last statement: an exception ends there.
  pub bind-Leads :
      (first : Exec S A) (next : A → Exec S B)
      → Leads Q R first
      → ((a : A) → Leads R T (next a))
      → ((s : S) → R s → T s)
      → Leads Q T (first >>= next)
  bind-Leads first next one all weaker = record {
    holds = λ s q.
        let (outcome, t) = first s in
        (continue-Leads outcome next all weaker).holds t (one.holds s q);
  }

module _ {ℓ κ} {S : Type ℓ} {A : Type κ} {Q R : S → Type ℓ} where
  pub if_Leads :
      (b : Bool) (then_action else_action : Exec S A)
      → Leads Q R then_action
      → Leads Q R else_action
      → Leads Q R (if b then then_action else else_action)
  if_Leads true m n hm hn = hm
  if_Leads false m n hm hn = hn
