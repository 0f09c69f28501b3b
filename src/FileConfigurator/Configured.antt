-- ===== src/FileConfigurator/Configured.antt =====
-- The interfaces after the file was read.
use tu_thesis.Base.{
  ◌++◌, inl, inr, ◌∙◌, ap, subst, Bool-cases, All-zip, All-zip, ◌∙◌, ap, map, arith, Bool-cases,
  ◌≡◌, refl, true, false, Option, none, some, List, [], ◌∷◌, ◌==◌, All, if◌then◌else◌,
}
use tu_thesis.Text.Bytes.{same_iff, Bytes, bytes, same}
use tu_thesis.Exec.{raise, runtime_error, ok}
use tu_thesis.Map
use tu_thesis.FileConfigurator.{configure_file, configure}
use tu_thesis.Map.{Map, bytes_key, lookup-insert}
use tu_thesis.World.{World, EthernetController}
use tu_thesis.NetworkFactory.{get_interface_known}
use tu_thesis.FileConfigurator.{
  configure_sections, Reader, to_lower, configure_section, on_controller,
}
use tu_thesis.FileConfigurator.Sections.{section_skipped, Passed}
use tu_thesis.FileConfigurator.SetUp.{command_of, configured_of, set_up_lem}

-- A section of the file, and the controller of its interface if it is to be set up.
pub record Section : Type 0 where
  pub name : Bytes
  pub controller : Option EthernetController

-- No two sections have one name.
abbrev pub Distinct : List Section → Type 0
Distinct [] = Unit
Distinct (s ∷ sections) = All (λ t. same s.name t.name ≡ false) sections × Distinct sections

module _ (reader : Reader) where
  abbrev pub address : Bytes → Bytes
  address name = reader.get name (bytes "ip") []

  -- The section of an Ethernet interface that the factory knows, without a range to serve, where the shell
  -- runs the command that sets it up, whatever was run before.
  pub record SetsUp (w : World) (name : Bytes) (e : EthernetController) : Type 0 where
    pub ethernet : same (bytes "ethernet") (to_lower (reader.get name (bytes "type") [])) ≡ true
    pub known : Map.lookup name w.interfaces ≡ some e
    pub no_range : reader.get name (bytes "dhcp-range") [] ≡ []
    pub accepts :
        (trace : List Bytes) → (w.shell trace (command_of reader name (address name) e) == 0) ≡ true

  abbrev FitsOf : World → Bytes → Option EthernetController → Type 0
  FitsOf w name none = Passed reader w name
  FitsOf w name (some e) = SetsUp w name e

  -- A section that is to be set up can be, and any other one is passed over.
  abbrev pub Fits : World → Section → Type 0
  Fits w s = FitsOf w s.name s.controller

  abbrev made_of :
      Bytes → Option EthernetController → Option EthernetController → Option EthernetController
  made_of name none old = old
  made_of name (some e) old = some (configured_of reader name (address name) e)

  -- What the file makes of the controller of a name: what the section of that name says, if there is one
  -- that is to be set up.
  abbrev pub after : List Section → Bytes → Option EthernetController → Option EthernetController
  after [] name old = old
  after (s ∷ sections) name old =
      if same s.name name then made_of s.name s.controller old else after sections name old

  set_up_section :
      (name : Bytes) (e : EthernetController) (w : World)
      → SetsUp w name e
      → let (r, w') = configure_section reader name w in
        (r ≡ ok tt)
        × (w'.interfaces
            ≡ Map.insert name (configured_of reader name (address name) e) w.interfaces)
        × (w'.shell ≡ w.shell)
  unfolding configure_section on_controller
  set_up_section name e w s =
      let (done, is, interfaces, shell) =
        set_up_lem reader name (address name) e w s.no_range (s.accepts w.trace) in
      rw (s.ethernet, get_interface_known name w e s.known) (done, rw (is, interfaces) refl, shell)

  -- What one section does: its own interface gets what it says, and the shell is the same.
  abbrev Did : Section → World → World → Type 0
  Did s before after =
      ((name : Bytes)
        → Map.lookup name after.interfaces ≡ (
            if same s.name name
            then made_of s.name s.controller (Map.lookup name before.interfaces)
            else Map.lookup name before.interfaces))
      × (after.shell ≡ before.shell)

  section_lem :
      (name : Bytes) (o : Option EthernetController) (w : World)
      → FitsOf w name o
      → let (r, w') = configure_section reader name w in
        (r ≡ ok tt) × Did (record { name = name; controller = o }) w w'
  section_lem name none w passed =
      rw (section_skipped reader name w passed) (refl, (λ m. ground arith, refl))
  section_lem name (some e) w s =
      let (done, interfaces, shell) = set_up_section name e w s in
      (done, (λ m. ap (Map.lookup m) interfaces ∙ lookup-insert name m _ w.interfaces, shell))

  apart_sym : (a b : Bytes) → same a b ≡ false → same b a ≡ false
  apart_sym a b h = ground (arith, same_iff a b, same_iff b a)

  -- A section of another name still fits.
  still_fits :
      (s : Section) (before now : World) (name : Bytes) (o : Option EthernetController)
      → Did s before now
      → same s.name name ≡ false
      → FitsOf before name o
      → FitsOf now name o
  still_fits s before now name none d apart (inl other) = inl other
  still_fits s before now name none d apart (inr unknown) = inr (d.0 name ∙ rw apart unknown)
  still_fits s before now name (some e) d apart f = record {
    ethernet = f.ethernet;
    known = d.0 name ∙ rw apart f.known;
    no_range = f.no_range;
    accepts = rw (d.1) f.accepts;
  }

  after_apart :
      (sections : List Section) (name : Bytes) (o : Option EthernetController)
      → All (λ t. same name t.name ≡ false) sections
      → after sections name o ≡ o
  after_apart [] name o h = refl
  after_apart (s ∷ sections) name o (first, h) =
      rw (apart_sym name s.name first) (after_apart sections name o h)

  after_one :
      (s : Section) (sections : List Section) (name : Bytes) (old new : Option EthernetController)
      → All (λ t. same s.name t.name ≡ false) sections
      → new ≡ (if same s.name name then made_of s.name s.controller old else old)
      → after sections name new ≡ after (s ∷ sections) name old
  after_one s sections name old new apart is = elim (Bool-cases (same s.name name)) [
    | inl here ↦
        let e = (same_iff s.name name).0 here in
        after_apart sections name new
          (subst (λ m. All (λ t. same m t.name ≡ false) sections) e apart)
        ∙ is
        ∙ rw here refl
    | inr there ↦ rw there (
        ap (after sections name)
          (subst (λ b. new ≡ (if b then made_of s.name s.controller old else old)) there is))
  ]

  sections_lem :
      (sections : List Section) (name : Bytes) (w : World)
      → Distinct sections
      → All (Fits w) sections
      → let (r, w') = configure_sections reader (map (λ s. s.name) sections) w in
        (r ≡ ok tt)
        × (Map.lookup name w'.interfaces ≡ after sections name (Map.lookup name w.interfaces))
  unfolding configure_sections
  sections_lem [] name w distinct fits = (refl, refl)
  sections_lem (s ∷ sections) name w (apart, distinct) (fit, fits) =
      let (done, did) = section_lem s.name s.controller w fit in
      let w' = (configure_section reader s.name w).1 in
      let (rest, is) =
        sections_lem sections name w' distinct
          (All-zip (λ t a f. still_fits s w w' t.name t.controller did a f) sections apart fits) in
      rw done (rest, is ∙ after_one s sections name _ _ apart (did.0 name))

parsed_file :
    (file : Bytes) (reader : Reader) (names : List Bytes) (w : World)
    → reader.parsed ≡ true
    → reader.sections ≡ names
    → configure_file file reader w ≡ configure_sections reader names w
unfolding configure_file
parsed_file file reader names w parsed listed =
    ap
      (λ b.
        (if b
            then configure_sections reader reader.sections
            else raise (runtime_error (bytes "Can't load " ++ file)))
          w)
      parsed
    ∙ ap (λ l. configure_sections reader l w) listed

-- The configuration names a file that can be read. Each of its sections is for an Ethernet interface that
-- the factory knows, with no range to serve and with a command that the shell runs, or it is of another
-- type or of an unknown interface: `configure` returns, keeps the name of the file, and each controller is
-- what the section of its name makes of it - an address, or the DHCP client - and is as it was if no
-- section sets it up.
pub configure_interfaces :
    (open_reader : Bytes → Reader) (conf : Map Bytes Bytes) (old file : Bytes)
    (sections : List Section) (name : Bytes) (w : World)
    → Map.lookup (bytes "file") conf ≡ some file
    → (open_reader file).parsed ≡ true
    → (open_reader file).sections ≡ map (λ s. s.name) sections
    → Distinct sections
    → All (Fits (open_reader file) w) sections
    → let (r, (file', w')) = configure open_reader conf (old, w) in
      (r ≡ ok tt)
      × (file' ≡ file)
      × (Map.lookup name w'.interfaces
          ≡ after (open_reader file) sections name (Map.lookup name w.interfaces))
unfolding configure
configure_interfaces open_reader conf old file sections name w named parsed listed distinct fits =
    let (done, is) = sections_lem (open_reader file) sections name w distinct fits in
    rw (named, parsed_file file (open_reader file) _ w parsed listed) (done, refl, is)
