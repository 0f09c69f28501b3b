-- ===== src/PingSwitcher/Fixed.antt =====
-- What the steps of the switcher leave alone: the shell, the interfaces and the known routes.
use tu_thesis.Base.{ℕ, ◌≡◌, List, []}
use tu_thesis.Text.Bytes.{Bytes}
use tu_thesis.Map.{Map}
use tu_thesis.World.{World, EthernetController}
use tu_thesis.Untouched.{View, view}

module _ (shell : List Bytes → Bytes → ℕ) (interfaces : Map Bytes EthernetController) where
  abbrev pub FixedView : View → Type 0
  FixedView v = (v.shell ≡ shell) × (v.interfaces ≡ interfaces) × (v.routes ≡ [])

  abbrev pub Fixed : World → Type 0
  Fixed w = FixedView (view w)
