-- ===== src/FileConfigurator/Sections.antt =====
-- The sections that are passed over.
use tu_thesis.Base.{
  Bool-cases, ◌++◌, ◌≡◌, ◌∙◌, ◌⊎◌, inl, inr, refl, none, false, List, [], ◌∷◌, All,
}
use tu_thesis.Text.Bytes.{Bytes, bytes, same}
use tu_thesis.Exec.{ok, bind_ok}
use tu_thesis.Map
use tu_thesis.Map.{bytes_key}
use tu_thesis.World.{World}
use tu_thesis.NetworkFactory.{get_interface_unknown}
use tu_thesis.FileConfigurator.{Reader, to_lower, configure_section, configure_sections}

-- The type of the section is not `ethernet`, in any case, or the factory does not know its interface.
abbrev pub Passed : Reader → World → Bytes → Type 0
Passed reader w name =
    (same (bytes "ethernet") (to_lower (reader.get name (bytes "type") [])) ≡ false)
    ⊎ (Map.lookup name w.interfaces ≡ none)

pub section_skipped :
    (reader : Reader) (name : Bytes) (w : World)
    → Passed reader w name
    → configure_section reader name w ≡ (ok tt, w)
unfolding configure_section
section_skipped reader name w (inl other) = rw other refl
section_skipped reader name w (inr unknown) =
    rw (get_interface_unknown name w unknown)
      (elim (Bool-cases (same (bytes "ethernet") (to_lower (reader.get name (bytes "type") [])))) [
        | inl e ↦ rw e refl
        | inr e ↦ rw e refl
      ])

-- Sections whose type is not `ethernet` and sections of unknown interfaces are passed over, wherever
-- they stand: the later sections are configured as if these were not there.
pub sections_skipped :
    (reader : Reader) (names rest : List Bytes) (w : World)
    → All (Passed reader w) names
    → configure_sections reader (names ++ rest) w ≡ configure_sections reader rest w
unfolding configure_sections
sections_skipped reader [] rest w h = refl
sections_skipped reader (name ∷ names) rest w (h, hs) =
    bind_ok (configure_section reader name) _ (section_skipped reader name w h)
    ∙ sections_skipped reader names rest w hs
