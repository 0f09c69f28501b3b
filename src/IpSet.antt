-- ===== src/IpSet.antt =====
-- IPSet/src/IPSet.cpp: a set of addresses of the kernel, and the program's copy of it.
pub mod Members
pub mod Entered
pub mod Kernel
use tu_thesis.Base.{Bool, false, ◌||◌, List, [], ◌∷◌, ◌++◌, if◌then◌else◌}
use tu_thesis.Text.Bytes.{Bytes, bytes, same}
use tu_thesis.Exec.{Exec, pure, on_world, assign, ◌>>◌}
use tu_thesis.World.{World, IpSet}
use tu_thesis.System.{call_or_throw, call_only}

-- `std::find(ips.begin(), ips.end(), ip) != ips.end()`
unfoldable pub contains : Bytes → List Bytes → Bool
contains ip [] = false
contains ip (x ∷ xs) = same x ip || contains ip xs

-- `IPSet::IPSet`
unfoldable pub new_ipset : Bytes → Bytes → Exec World IpSet
unfolding call_or_throw
new_ipset name type =
    let cmd = bytes "ipset create " ++ (name ++ (bytes " " ++ (type ++ bytes " family inet"))) in
    call_or_throw cmd (
      bytes "Failed to create ipset with name '"
      ++ (name ++ (bytes "' and '" ++ (type ++ (bytes "' type: " ++ cmd)))))
    >> pure (record { name = name; ips = [] })

abbrev pub add_command : Bytes → Bytes → Bytes
add_command name ip = bytes "ipset add " ++ (name ++ (bytes " " ++ ip))

abbrev pub add_message : Bytes → Bytes → Bytes
add_message name ip =
    bytes "Failed to add '"
    ++ (ip ++ (bytes "' to '" ++ (name ++ (bytes "' ipset using: " ++ add_command name ip))))

-- `IPSet::addIP`, on an object and the world. If it throws, the object is as it was.
unfoldable pub add_ip : Bytes → Exec (IpSet × World) (Unit {0})
add_ip ip (set, w) =
    let cmd = add_command set.name ip in
    if contains ip set.ips
    then pure tt (set, w)
    else (do
      on_world (call_or_throw cmd (add_message set.name ip))
      assign (λ s. record s { ips = s.ips ++ (ip ∷ []) }))
        (set, w)

abbrev pub flush_command : Bytes → Bytes
flush_command name = bytes "ipset flush " ++ name

-- `IPSet::clearIPs`
unfoldable pub clear_ips : Exec (IpSet × World) (Unit {0})
unfolding call_or_throw
clear_ips (set, w) =
    (do
      on_world (call_or_throw (flush_command set.name) (bytes "Failed to clear " ++ set.name))
      assign (λ s. record s { ips = [] }))
      (set, w)

-- `IPSet::~IPSet`
unfoldable pub delete_ipset : IpSet → Exec World (Unit {0})
unfolding call_only
delete_ipset set = call_only (bytes "ipset destroy " ++ set.name)
