-- ===== src/Exec/Preserves.antt =====
-- Statements on the state that an action leaves true, however it ends.
use tu_thesis.Base.{refl, Bool}
use tu_thesis.Base.{◌≡◌, refl, Bool, true, false, if◌then◌else◌}
use tu_thesis.Exec.{
  lift, raise, ◌≡◌, Exception, Outcome, ok, throw, undefined, Exec, pure, continue, handle, ◌>>=◌,
  try, on_world,
}

pub record Preserves {ℓ κ} {S : Type ℓ} {A : Type κ} (Q : S → Type ℓ) (action : Exec S A)
    : Type ℓ where
  pub holds : (before : S) → Q before → Q (action before).1

module _ {ℓ κ μ} {S : Type ℓ} {A : Type κ} {B : Type μ} {Q : S → Type ℓ} where
  continue-Preserves :
      (outcome : Outcome A) (next : A → Exec S B)
      → ((a : A) → Preserves Q (next a))
      → Preserves Q (continue outcome next)
  continue-Preserves (throw x) next all = record { holds = λ s q. q }
  continue-Preserves undefined next all = record { holds = λ s q. q }
  continue-Preserves (ok a) next all = all a

  pub bind-Preserves :
      (first : Exec S A) (next : A → Exec S B)
      → Preserves Q first
      → ((a : A) → Preserves Q (next a))
      → Preserves Q (first >>= next)
  bind-Preserves first next one all = record {
    holds = λ s q.
        let (outcome, t) = first s in (continue-Preserves outcome next all).holds t (one.holds s q);
  }

module _ {ℓ κ μ} {S : Type ℓ} {A : Type κ} {B : Type μ} {Q : S → Type ℓ} where
  -- What is computed without the state is known in what comes after it.
  pub lift-Preserves :
      (r : Outcome A) (next : A → Exec S B)
      → ((a : A) → r ≡ ok a → Preserves Q (next a))
      → Preserves Q (lift r >>= next)
  lift-Preserves (throw x) next all = record { holds = λ s q. q }
  lift-Preserves undefined next all = record { holds = λ s q. q }
  lift-Preserves (ok a) next all = all a refl

module _ {ℓ κ} {S : Type ℓ} {A : Type κ} {Q : S → Type ℓ} where
  pub pure-Preserves : (a : A) → Preserves Q (pure a)
  pure-Preserves a = record { holds = λ s q. q }

  pub raise-Preserves : (x : Exception) → Preserves {A = A} Q (raise x)
  raise-Preserves x = record { holds = λ s q. q }

  pub if_Preserves :
      (b : Bool) (yes_action no_action : Exec S A)
      → Preserves Q yes_action
      → Preserves Q no_action
      → Preserves Q (if b then yes_action else no_action)
  if_Preserves true m n hm hn = hm
  if_Preserves false m n hm hn = hn

  handle-Preserves :
      (outcome : Outcome A) (handler : Exception → Exec S A)
      → ((x : Exception) → Preserves Q (handler x))
      → Preserves Q (handle outcome handler)
  handle-Preserves (throw x) handler all = all x
  handle-Preserves undefined handler all = record { holds = λ s q. q }
  handle-Preserves (ok a) handler all = record { holds = λ s q. q }

  pub try-Preserves :
      (body : Exec S A) (handler : Exception → Exec S A)
      → Preserves Q body
      → ((x : Exception) → Preserves Q (handler x))
      → Preserves Q (try body handler)
  try-Preserves body handler one all = record {
    holds = λ s q.
        let (outcome, t) = body s in (handle-Preserves outcome handler all).holds t (one.holds s q);
  }

module _ {ℓ κ μ} {T : Type ℓ} {S : Type κ} {A : Type μ} where
  -- A step on the world alone preserves what is said of the object.
  pub on_world-Preserves :
      (Q : T → Type (ℓ ⊔ κ)) (m : Exec S A) → Preserves {S = T × S} (λ (t, s). Q t) (on_world m)
  on_world-Preserves Q m = record { holds = λ s q. q }
