-- ===== src/FileConfigurator.antt =====
-- FileConfigurators/src: the interfaces are configured from an INI file.
pub mod Sections
pub mod SetUp
pub mod Configured
use tu_thesis.Base.{
  ℕ, ◌+◌, leb, ◌&&◌, Bool, Option, none, some, List, [], ◌∷◌, ◌++◌, map, if◌then◌else◌,
}
use tu_thesis.Base.Int.{ℤ}
use tu_thesis.Text.Bytes.{Bytes, bytes, same}
use tu_thesis.Text.Stream.{open_stream, getline, line_or}
use tu_thesis.Exec.{
  Exec, Exception, out_of_range, runtime_error, Outcome, ok, throw, pure, raise, stuck, lift,
  on_world, assign, try, ◌>>=◌, ◌>>◌,
}
use tu_thesis.Map
use tu_thesis.Map.{Map, empty, bytes_key}
use tu_thesis.World.{World, EthernetController}
use tu_thesis.DhcpClient.{to_uint}
use tu_thesis.EthernetController.{set_static, use_dhcp, set_dhcp_server}
use tu_thesis.NetworkFactory.{get_interface}

-- The INI reader of a file, a third-party class: whether it could be read, the sections in the order
-- of their names, and `Get` and `GetInteger` with their default.
pub record Reader : Type 0 where
  pub parsed : Bool
  pub sections : List Bytes
  pub get : Bytes → Bytes → Bytes → Bytes
  pub get_integer : Bytes → Bytes → ℤ → ℤ

abbrev to_lower_byte : ℕ → ℕ
to_lower_byte c = if leb b'A' c && leb c b'Z' then c + 32 else c

-- `std::transform(…, ::tolower)`
unfoldable pub to_lower : Bytes → Bytes
to_lower = map to_lower_byte

-- A method of the controller that the factory keeps under a name.
abbrev write_back :
    {A : Type 0} → Bytes → Outcome A × (EthernetController × World) → Outcome A × World
write_back name (r, (e, w)) = (r, record w { interfaces = Map.insert name e w.interfaces })

unfoldable pub on_controller :
    {A : Type 0} → Bytes → EthernetController → Exec (EthernetController × World) A → Exec World A
on_controller name e m w = write_back name (m (e, w))

abbrev second_server : Bytes → List Bytes
second_server [] = []
second_server (c ∷ cs) = (c ∷ cs) ∷ []

-- The second name server is used only beside a first one.
abbrev pub dns_servers : Bytes → Bytes → List Bytes
dns_servers [] dns2 = []
dns_servers (c ∷ cs) dns2 = (c ∷ cs) ∷ second_server dns2

-- A range is two addresses with a comma between them.
abbrev serve : Reader → Bytes → Bytes → Exec (EthernetController × World) (Unit {0})
serve reader name [] = pure tt
serve reader name (c ∷ cs) =
    let first = getline b',' (open_stream (c ∷ cs)) in
    let last = getline b',' first.stream in
    set_dhcp_server (line_or [] first) (line_or [] last)
      (to_uint (reader.get_integer name (bytes "lease") (ℤ.pos 7200)))

-- A static address, if there is one, and DHCP otherwise.
abbrev pub set_up : Reader → Bytes → Bytes → Exec (EthernetController × World) (Unit {0})
set_up reader name [] = use_dhcp
set_up reader name (c ∷ cs) = do
  set_static (c ∷ cs) (reader.get name (bytes "netmask") (bytes "255.255.255.0"))
      (reader.get name (bytes "gateway") [])
      (dns_servers (reader.get name (bytes "dns_server1") [])
        (reader.get name (bytes "dns_server2") []))
  serve reader name (reader.get name (bytes "dhcp-range") [])

-- `catch(std::out_of_range& e)` around `getInterface`: the section is skipped.
abbrev found_interface : Reader → Bytes → Outcome EthernetController → Exec World (Unit {0})
found_interface reader name (ok e) =
    on_controller name e (set_up reader name (reader.get name (bytes "ip") []))
found_interface reader name (throw (out_of_range _)) = pure tt
found_interface reader name (throw x) = raise x
found_interface reader name Outcome.undefined = stuck

-- One section of the file.
unfoldable pub configure_section : Reader → Bytes → Exec World (Unit {0})
configure_section reader name w =
    if same (bytes "ethernet") (to_lower (reader.get name (bytes "type") []))
    then (let (r, w') = get_interface name w in found_interface reader name r w')
    else pure tt w

unfoldable pub configure_sections : Reader → List Bytes → Exec World (Unit {0})
configure_sections reader [] = pure tt
configure_sections reader (name ∷ names) = do
  configure_section reader name
  configure_sections reader names

-- `configureFileConfigurator`
unfoldable pub configure_file : Bytes → Reader → Exec World (Unit {0})
configure_file file_name reader =
    if reader.parsed
    then configure_sections reader reader.sections
    else raise (runtime_error (bytes "Can't load " ++ file_name))

abbrev file_of : Option Bytes → Exec (Bytes × World) (Unit {0})
file_of none = raise (out_of_range (bytes "map::at"))
file_of (some file_name) = assign (λ _. file_name)

-- `FileConfigurator::configure`, on the member `file_name`; the reader opens the file of that name.
unfoldable pub configure : (Bytes → Reader) → Map Bytes Bytes → Exec (Bytes × World) (Unit {0})
configure open_reader conf = do
  file_of (Map.lookup (bytes "file") conf)
  (λ (file_name, w). on_world (configure_file file_name (open_reader file_name)) (file_name, w))

-- `getConfiguration`
unfoldable pub get_configuration : Bytes → Map Bytes Bytes
get_configuration file_name = Map.insert (bytes "file") file_name empty
