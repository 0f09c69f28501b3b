-- ===== src/PluginConfigurator/Numbers.antt =====
-- The numbers of the plugins are those below the next one.
use tu_thesis.Base.{
  if◌then◌else◌, ℕ, ◌<◌, ◌%◌, ◌+◌, ◌^◌, ◌≡◌, ◌∙◌, ap, refl, sym, Bool, true, false, Option, none,
  some, inl, inr, Bool-cases, ltb, arith,
}
use tu_thesis.Base.Int.{ℤ, pos, negsuc, same_int, same_int_iff, to_int}
use tu_thesis.Exec.{Exec}
use tu_thesis.Exec.Preserves.{Preserves}
use tu_thesis.Map
use tu_thesis.Map.{int_key, lookup-insert}
use tu_thesis.World.{World}
use tu_thesis.Plugin.{Plugin}
use tu_thesis.PluginConfigurator.{
  PluginConfigurator, new_configurator, add_plugin, on_plugin, on_found,
}

abbrev pub is_some {ℓ} : {A : Type ℓ} → Option A → Bool
is_some none = false
is_some (some a) = true

-- Whether a number has been given.
abbrev pub is_given : ℕ → ℤ → Bool
is_given next (pos n) = ltb n next
is_given next (negsuc n) = false

abbrev pub IsNumbered : PluginConfigurator → Type 0
IsNumbered c = (z : ℤ) → is_some (Map.lookup z c.plugins) ≡ is_given c.next_id z

pub new_configurator-IsNumbered : IsNumbered new_configurator
unfolding Map.lookup
new_configurator-IsNumbered (pos n) = ground arith
new_configurator-IsNumbered (negsuc n) = refl

to_int_small : (n : ℕ) → n < 2 ^ 31 → to_int (pos n) ≡ pos n
unfolding to_int
to_int_small n small = let e : n % 2 ^ 32 ≡ n = omega arith in rw e (ground arith)

is_some-insert :
    (id z : ℤ) (p : Plugin) (c : PluginConfigurator)
    → is_some (Map.lookup z (Map.insert id p c.plugins))
      ≡ (if same_int id z then true else is_some (Map.lookup z c.plugins))
is_some-insert id z p c = rw lookup-insert (by_case (same_int id z))
  where
    by_case :
        (b : Bool)
        → is_some (if b then some p else Map.lookup z c.plugins)
          ≡ (if b then true else is_some (Map.lookup z c.plugins))
    by_case true = refl
    by_case false = refl

is_given-suc :
    (next : ℕ) (z : ℤ)
    → (if same_int (pos next) z then true else is_given next z) ≡ is_given (next + 1) z
is_given-suc next (pos n) = ground arith
is_given-suc next (negsuc n) = refl

pub add_plugin-IsNumbered :
    (p : Plugin) (c : PluginConfigurator)
    → c.next_id < 2 ^ 31
    → IsNumbered c
    → IsNumbered (add_plugin p c)
unfolding add_plugin
add_plugin-IsNumbered p c small h z =
    let e : (c.next_id + 1) % 2 ^ 32 ≡ c.next_id + 1 = omega arith in
    rw (to_int_small c.next_id (omega arith))
      (rw (is_some-insert (pos c.next_id) z p c) (rw (h z) (rw e (is_given-suc c.next_id z))))

found-IsNumbered :
    {A : Type 0} (id : ℤ) (m : Exec (Plugin × World) A) (c : PluginConfigurator) (w : World)
    (o : Option Plugin)
    → Map.lookup id c.plugins ≡ o
    → IsNumbered c
    → IsNumbered (on_found id m c o w).1.0
found-IsNumbered id m c w none e h z = h z
found-IsNumbered id m c w (some p) e h z =
    is_some-insert id z (m (p, w)).1.0 c ∙ elim (Bool-cases (same_int id z)) [
      | inl same ↦ rw same (
          sym (ap is_some e)
          ∙ ap (λ y. is_some (Map.lookup y c.plugins)) ((same_int_iff id z).0 same)
          ∙ h z)
      | inr other ↦ rw other (h z)
    ]

pub on_plugin-IsNumbered :
    (A : Type 0) (id : ℤ) (m : Exec (Plugin × World) A)
    → Preserves {S = PluginConfigurator × World} (λ (c, w). IsNumbered c) (on_plugin id m)
unfolding on_plugin
on_plugin-IsNumbered A id m = record {
  holds = λ (c, w) h. found-IsNumbered id m c w (Map.lookup id c.plugins) refl h;
}
