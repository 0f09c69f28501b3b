-- ===== src/DnsMasq/Controller.antt =====
-- DNSMasqController/src/DNSMasqController.cpp: the configurations by name, as weak pointers.
pub mod Known
use tu_thesis.Base.{ℕ, Option, none, some, List, ◌++◌}
use tu_thesis.Text.Bytes.{Bytes, bytes}
use tu_thesis.Exec.{Exec, pure, stuck, try, ◌>>=◌, ◌>>◌}
use tu_thesis.Map
use tu_thesis.Map.{bytes_key}
use tu_thesis.Shared
use tu_thesis.World.{World, Configuration}
use tu_thesis.System.{call_only}
use tu_thesis.DnsMasq.Configuration.{new_configuration, add_all}

-- the constructor
abbrev pub start_dnsmasq : Exec World (Unit {0})
start_dnsmasq = call_only (bytes "systemctl start dnsmasq")

-- the destructor
abbrev pub stop_dnsmasq : Exec World (Unit {0})
stop_dnsmasq = call_only (bytes "systemctl stop dnsmasq")

-- `reloadConfiguration`
unfoldable pub reload : Exec World (Unit {0})
reload = call_only (bytes "systemctl reload dnsmasq")

abbrev pub file_of : Bytes → Bytes
file_of name = bytes "/etc/dnsmasq.d/" ++ (name ++ bytes ".conf")

-- `std::make_shared<DNSMasqConfiguration>` and `this->configurations[name] = result`
abbrev keep_configuration : Bytes → Configuration → Exec World ℕ
keep_configuration name c w = pure w.confs.next (record w {
  confs = Shared.allocate c w.confs;
  configurations = Map.insert name w.confs.next w.configurations;
})

-- The handler of the exception that `at` throws.
unfoldable pub create : Bytes → List (Bytes × Bytes) → Exec World ℕ
create name conf = do c ← new_configuration (file_of name) conf; keep_configuration name c

-- `result->addConfiguration(conf)` through the pointer that `lock` returned, which may be null.
abbrev pub extend_locked : Option ℕ → List (Bytes × Bytes) → Exec World ℕ
extend_locked none conf = stuck
extend_locked (some p) conf = do add_all p conf; pure p

-- `addConfiguration`
unfoldable pub add_configuration : Bytes → List (Bytes × Bytes) → Exec World ℕ
add_configuration name conf w = elim (Map.lookup name w.configurations) [
  | none ↦ create name conf w
  | some p ↦
      let (locked, confs) = Shared.lock p w.confs in
      try (extend_locked locked conf) (λ _. create name conf) (record w { confs = confs })
]
