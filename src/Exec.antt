-- ===== src/Exec.antt =====
-- Methods that change a state and may throw. What was written before a throw stays written, so the
-- state comes back beside the exception too. `undefined` is undefined behaviour of the C++
-- program, such as a call through a null `shared_ptr`: no handler catches it.
pub mod Preserves
pub mod Leads
pub mod Returns
use tu_thesis.Base.{◌≡◌, ap}
use tu_thesis.Text.Bytes.{Bytes}

-- `std::out_of_range`, `std::invalid_argument` and `std::runtime_error`, with `what()`.
pub data Exception : Type 0 where
  out_of_range invalid_argument runtime_error : Bytes → Exception

pub data Outcome {ℓ} (A : Type ℓ) : Type ℓ where
  ok : A → Outcome A
  throw : Exception → Outcome A
  undefined : Outcome A

-- `;` of two steps that have no state.
abbrev pub and_then {ℓ κ} : {A : Type ℓ} {B : Type κ} → Outcome A → (A → Outcome B) → Outcome B
and_then (ok a) f = f a
and_then (throw e) f = throw e
and_then undefined f = undefined

abbrev pub Exec {ℓ κ} : Type ℓ → Type κ → Type (ℓ ⊔ κ)
Exec S A = S → Outcome A × S

module _ {ℓ κ} {S : Type ℓ} {A : Type κ} where
  abbrev pub pure : A → Exec S A
  pure a s = (ok a, s)

  abbrev pub raise : Exception → Exec S A
  raise e s = (throw e, s)

  abbrev pub stuck : Exec S A
  stuck s = (undefined, s)

  abbrev pub lift : Outcome A → Exec S A
  lift r s = (r, s)

abbrev pub modify {ℓ} : {S : Type ℓ} → (S → S) → Exec S (Unit {0})
modify f s = (ok tt, f s)

module _ {ℓ κ μ} {S : Type ℓ} {A : Type κ} {B : Type μ} where
  abbrev pub continue : Outcome A → (A → Exec S B) → Exec S B
  continue (ok a) f s = f a s
  continue (throw e) f s = (throw e, s)
  continue undefined f s = (undefined, s)

  infixl 5 ◌>>=◌
  abbrev pub ◌>>=◌ : Exec S A → (A → Exec S B) → Exec S B
  ◌>>=◌ m f s = let (r, s') = m s in continue r f s'

  infixl 5 ◌>>◌
  abbrev pub ◌>>◌ : Exec S A → Exec S B → Exec S B
  m >> n = m >>= λ _. n

module _ {ℓ κ} {S : Type ℓ} {A : Type κ} where
  abbrev pub handle : Outcome A → (Exception → Exec S A) → Exec S A
  handle (ok a) h s = (ok a, s)
  handle (throw e) h s = h e s
  handle undefined h s = (undefined, s)

  -- `try { m } catch(std::exception& e) { h }`
  abbrev pub try : Exec S A → (Exception → Exec S A) → Exec S A
  try m h s = let (r, s') = m s in handle r h s'

module _ {ℓ κ μ} {T : Type ℓ} {S : Type κ} {A : Type μ} where
  -- A step that leaves the fields of the object alone.
  abbrev pub on_world : Exec S A → Exec (T × S) A
  on_world m (t, s) = let (r, s') = m s in (r, (t, s'))

  -- A step on the object alone.
  abbrev pub on_object : Exec T A → Exec (T × S) A
  on_object m (t, s) = let (r, t') = m t in (r, (t', s))

module _ {ℓ κ} {T : Type ℓ} {S : Type κ} where
  -- An assignment to fields of the object.
  abbrev pub assign : (T → T) → Exec (T × S) (Unit {0})
  assign f (t, s) = (ok tt, (f t, s))

module _ {ℓ κ μ} {S : Type ℓ} {A : Type κ} {B : Type μ} where
  -- A step that returns is followed by what comes after it.
  pub bind_ok :
      (m : Exec S A) (f : A → Exec S B) {a : A} {s s' : S} → m s ≡ (ok a, s') → (m >>= f) s ≡ f a s'
  bind_ok m f e = ap (λ (r, t). continue r f t) e

  -- A step that throws is the last one.
  pub bind_throw :
      (m : Exec S A) (f : A → Exec S B) {x : Exception} {s s' : S}
      → m s ≡ (throw x, s')
      → (m >>= f) s ≡ (throw x, s')
  bind_throw m f e = ap (λ (r, t). continue r f t) e
