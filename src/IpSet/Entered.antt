-- ===== src/IpSet/Entered.antt =====
-- The addresses of a set after some were added to it, each of them accepted.
use tu_thesis.Base.{
  ◌≡◌, ◌∙◌, refl, false, List, [], ◌∷◌, ◌++◌, append_assoc, append-nil, arith, if◌then◌else◌,
}
use tu_thesis.Text.Bytes.{Bytes, same_refl}
use tu_thesis.IpSet.{contains}
use tu_thesis.IpSet.Members.{IsNodup, contains-append}

-- Each address that is not there yet is put behind the others.
abbrev pub enter : List Bytes → Bytes → List Bytes
enter ips ip = if contains ip ips then ips else ips ++ (ip ∷ [])

unfoldable pub entered : List Bytes → List Bytes → List Bytes
entered ips [] = ips
entered ips (d ∷ ds) = entered (enter ips d) ds

fresh_of_IsNodup :
    (ips : List Bytes) (d : Bytes) (ds : List Bytes)
    → IsNodup (ips ++ (d ∷ ds))
    → contains d ips ≡ false
unfolding contains
fresh_of_IsNodup [] d ds u = refl
fresh_of_IsNodup (x ∷ ips) d ds (h, u) = ground (
  arith,
  fresh_of_IsNodup ips d ds u,
  contains-append x ips (d ∷ ds),
  same_refl x,
  tu_thesis.Text.Bytes.same_iff x d,
  tu_thesis.Text.Bytes.same_iff d x,
)

-- Distinct addresses are all added, in their order.
pub entered-IsNodup : (ips ds : List Bytes) → IsNodup (ips ++ ds) → entered ips ds ≡ ips ++ ds
unfolding entered
entered-IsNodup ips [] u = rw append-nil
entered-IsNodup ips (d ∷ ds) u = rw (fresh_of_IsNodup ips d ds u) (
    entered-IsNodup (ips ++ (d ∷ [])) ds (rw (append_assoc ips (d ∷ []) ds) u)
    ∙ append_assoc ips (d ∷ []) ds)
