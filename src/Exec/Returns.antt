-- ===== src/Exec/Returns.antt =====
-- What holds after an action that returns, and what holds after one that throws. Nothing is said of
-- undefined behaviour.
use tu_thesis.Exec.{
  ◌≡◌, Outcome, ok, throw, undefined, Exec, Exception, continue, handle, pure, raise, try, ◌>>=◌,
}
use tu_thesis.Exec.Preserves.{Preserves}

module _ {ℓ κ} {S : Type ℓ} {A : Type κ} where
  abbrev pub Ends : (A → S → Type ℓ) → (S → Type ℓ) → Outcome A → S → Type ℓ
  Ends R T (ok a) s = R a s
  Ends R T (throw e) s = T s
  Ends R T undefined s = Unit

  pub record Returns (Q : S → Type ℓ) (R : A → S → Type ℓ) (T : S → Type ℓ) (action : Exec S A)
      : Type (ℓ ⊔ κ) where
    pub ends : (before : S) → Q before → Ends R T (action before).0 (action before).1

  after_all : (T : S → Type ℓ) (outcome : Outcome A) (s : S) → T s → Ends (λ _. T) T outcome s
  after_all T (ok a) s t = t
  after_all T (throw e) s t = t
  after_all T undefined s t = tt

  pub of_Preserves :
      {Q : S → Type ℓ} (action : Exec S A) → Preserves Q action → Returns Q (λ _. Q) Q action
  of_Preserves {Q} action h = record { ends = λ s q. after_all Q (action s).0 _ (h.holds s q) }

  pub weaken :
      {Q : S → Type ℓ} {R : A → S → Type ℓ} {T U : S → Type ℓ} (action : Exec S A)
      → ((s : S) → T s → U s)
      → Returns Q R T action
      → Returns Q R U action
  weaken {R} {T} {U} action weaker h = record {
    ends = λ s q. ends_weaken (action s).0 _ (h.ends s q);
  }
    where
      ends_weaken : (outcome : Outcome A) (s : S) → Ends R T outcome s → Ends R U outcome s
      ends_weaken (ok a) s e = e
      ends_weaken (throw x) s e = weaker s e
      ends_weaken undefined s e = tt

module _ {ℓ κ μ} {S : Type ℓ} {A : Type κ} {B : Type μ} where
  continue-Ends :
      {R : A → S → Type ℓ} {R' : B → S → Type ℓ} {T : S → Type ℓ} (outcome : Outcome A)
      (next : A → Exec S B) (s : S)
      → ((a : A) → Returns (R a) R' T (next a))
      → Ends R T outcome s
      → Ends R' T (continue outcome next s).0 (continue outcome next s).1
  continue-Ends (ok a) next s all e = (all a).ends s e
  continue-Ends (throw x) next s all e = e
  continue-Ends undefined next s all e = tt

  pub bind-Returns :
      {Q : S → Type ℓ} {R : A → S → Type ℓ} {R' : B → S → Type ℓ} {T : S → Type ℓ}
      (first : Exec S A) (next : A → Exec S B)
      → Returns Q R T first
      → ((a : A) → Returns (R a) R' T (next a))
      → Returns Q R' T (first >>= next)
  bind-Returns first next one all = record {
    ends = λ s q. continue-Ends (first s).0 next (first s).1 all (one.ends s q);
  }

module _ {ℓ κ} {S : Type ℓ} {A : Type κ} where
  handle-Ends :
      {R : A → S → Type ℓ} {T U : S → Type ℓ} (outcome : Outcome A) (handler : Exception → Exec S A)
      (s : S)
      → ((x : Exception) → Returns T R U (handler x))
      → Ends R T outcome s
      → Ends R U (handle outcome handler s).0 (handle outcome handler s).1
  handle-Ends (ok a) handler s all e = e
  handle-Ends (throw x) handler s all e = (all x).ends s e
  handle-Ends undefined handler s all e = tt

  pub try-Returns :
      {Q : S → Type ℓ} {R : A → S → Type ℓ} {T U : S → Type ℓ} (body : Exec S A)
      (handler : Exception → Exec S A)
      → Returns Q R T body
      → ((x : Exception) → Returns T R U (handler x))
      → Returns Q R U (try body handler)
  try-Returns body handler one all = record {
    ends = λ s q. handle-Ends (body s).0 handler (body s).1 all (one.ends s q);
  }

  pub raise-Returns :
      {Q : S → Type ℓ} {R : A → S → Type ℓ} (x : Exception) → Returns {A = A} Q R Q (raise x)
  raise-Returns x = record { ends = λ s q. q }

  pub pure-Returns :
      {Q : S → Type ℓ} {R : A → S → Type ℓ} {T : S → Type ℓ} (a : A)
      → ((s : S) → Q s → R a s)
      → Returns Q R T (pure a)
  pure-Returns a h = record { ends = λ s q. h s q }

module _ {ℓ κ} {S : Type ℓ} {A : Type κ} where
  after_ok :
      (R : A → S → Type ℓ) (T U : S → Type ℓ) (outcome : Outcome A) (a : A) (s : S)
      → outcome ≡ ok a
      → Ends R T outcome s
      → Ends R U outcome s
  after_ok R T U (ok b) a s h e = e
  after_ok R T U (throw x) a s h e = absurd (cc)
  after_ok R T U undefined a s h e = tt

  -- An action that always returns does not throw.
  pub never_throws :
      {Q : S → Type ℓ} {R : A → S → Type ℓ} {T U : S → Type ℓ} (action : Exec S A) (a : A)
      → ((s : S) → (action s).0 ≡ ok a)
      → Returns Q R T action
      → Returns Q R U action
  never_throws {R} {T} {U} action a always h = record {
    ends = λ s q. after_ok R T U (action s).0 a (action s).1 (always s) (h.ends s q);
  }
