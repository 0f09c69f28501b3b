-- ===== src/Ip.antt =====
-- Interface/src/IP.cpp: an address is the text that it was given, unchecked.
use tu_thesis.Base.{Bool, true, false, [], ◌∷◌, ◌++◌}
use tu_thesis.Text.Bytes.{Bytes, same}
use tu_thesis.World.{Ip}

-- `IP::set`, and the constructor
abbrev pub new_ip : Bytes → Ip
new_ip value = record { ip = value }

-- `IP::toString`
abbrev pub to_string : Ip → Bytes
to_string a = a.ip

-- `IP::isEmpty`
unfoldable pub is_empty : Ip → Bool
is_empty a = elim a.ip [ [] ↦ true | _ ∷ _ ↦ false ]

-- `operator+(std::string base, IP ip)`
abbrev pub append_ip : Bytes → Ip → Bytes
append_ip base a = base ++ to_string a

-- `IP::operator==`
unfoldable pub same_ip : Ip → Ip → Bool
same_ip a b = same b.ip a.ip
