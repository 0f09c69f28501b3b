-- ===== src/DnsMasq/Configuration/Uses.antt =====
-- The pointers to a configuration.
use tu_thesis.Base.{ℕ, ◌+◌, ◌≡◌, refl, some, List, inl, inr, Bool-cases, Option-cases}
use tu_thesis.Text.Bytes.{Bytes}
use tu_thesis.Exec.{ok}
use tu_thesis.Shared
use tu_thesis.Shared.Uses.{uses_at, uses_at-write, release-shared}
use tu_thesis.World.{World, Configuration}
use tu_thesis.DnsMasq.Configuration.{set_lines, write_configuration, add_all, release_configuration}
use tu_thesis.DnsMasq.Configuration.InSync.{Shows}

set_lines-uses :
    (p q : ℕ) (c : Configuration) (lines : List (Bytes × Bytes)) (w : World)
    → uses_at q (set_lines p c lines w).1.confs ≡ uses_at q w.confs
unfolding set_lines write_configuration
set_lines-uses p q c lines w = elim (Bool-cases (w.writable c.file_name)) [
  | inl writable ↦ rw writable (uses_at-write q p _ w.confs)
  | inr closed ↦ rw closed (uses_at-write q p _ w.confs)
]

-- Adding lines makes and drops no pointer.
pub add_all-uses :
    (p q : ℕ) (lines : List (Bytes × Bytes)) (w : World)
    → uses_at q (add_all p lines w).1.confs ≡ uses_at q w.confs
unfolding add_all
add_all-uses p q lines w = elim (Option-cases (Shared.object_at p w.confs)) [
  | inl gone ↦ rw gone refl
  | inr (c, live) ↦ rw live (set_lines-uses p q c _ w)
]

-- One of several pointers goes away: the file stays.
pub release_configuration-Shows :
    (p n : ℕ) (file : Bytes) (lines : List (Bytes × Bytes)) (w : World)
    → Shows p file lines w
    → uses_at p w.confs ≡ some (n + 2)
    → ((release_configuration p w).0 ≡ ok tt) × Shows p file lines (release_configuration p w).1
unfolding release_configuration
release_configuration-Shows p n file lines w s several =
    let (kept, still) = release-shared p n w.confs several in
    rw kept (refl, record { object = rw still s.object; file = s.file; writable = s.writable })
