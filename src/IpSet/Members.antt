-- ===== src/IpSet/Members.antt =====
-- The addresses that a set holds.
use tu_thesis.Exec.{ok, throw, runtime_error}
use tu_thesis.System.{issue, call_or_throw_lem}
use tu_thesis.IpSet.{add_message, add_command}
use tu_thesis.Base.{if◌then◌else◌, ◌==◌}
use tu_thesis.Base.{◌≡◌, refl, false, ◌||◌, List, [], ◌∷◌, ◌++◌, arith, Bool-cases, inl, inr}
use tu_thesis.Text.Bytes.{Bytes, same_iff, same_refl}
use tu_thesis.World.{World, IpSet}
use tu_thesis.IpSet.{contains, add_ip}

pub contains-append :
    (x : Bytes) (xs ys : List Bytes) → contains x (xs ++ ys) ≡ (contains x xs || contains x ys)
unfolding contains
contains-append x [] ys = refl
contains-append x (y ∷ xs) ys = ground (arith, contains-append x xs ys)

-- No address is listed twice.
abbrev pub IsNodup : List Bytes → Type 0
IsNodup [] = Unit
IsNodup (x ∷ xs) = (contains x xs ≡ false) × IsNodup xs

IsNodup-append_one :
    (x : Bytes) (xs : List Bytes) → contains x xs ≡ false → IsNodup xs → IsNodup (xs ++ (x ∷ []))
unfolding contains
IsNodup-append_one x [] fresh u = (refl, tt)
IsNodup-append_one x (y ∷ xs) fresh (h, u) = (
  ground (arith, contains-append y xs (x ∷ []), same_iff x y, same_iff y x, same_refl x),
  IsNodup-append_one x xs (ground arith) u,
)

-- `addIP` keeps the addresses distinct, whether it returns or throws.
pub add_ip-IsNodup :
    (ip : Bytes) (set : IpSet) (w : World) → IsNodup set.ips → IsNodup (add_ip ip (set, w)).1.0.ips
unfolding add_ip
add_ip-IsNodup ip set w u = elim (Bool-cases (contains ip set.ips)) [
  | inl old ↦ rw old u
  | inr new ↦ rw new (ground (arith, IsNodup-append_one ip set.ips new u))
]

-- `addIP`: an address that the set holds issues no command. A new one is stored if the command
-- succeeds; if it fails, an exception tells, and the set is as it was.
pub add_ip_lem :
    (ip : Bytes) (set : IpSet) (w : World)
    → let cmd = add_command set.name ip in
      add_ip ip (set, w) ≡ (
        if contains ip set.ips
        then (ok tt, (set, w))
        else if w.shell w.trace cmd == 0
        then (ok tt, (record set { ips = set.ips ++ (ip ∷ []) }, issue cmd w))
        else (throw (runtime_error (add_message set.name ip)), (set, issue cmd w)))
unfolding add_ip
add_ip_lem ip set w = elim (Bool-cases (contains ip set.ips)) [
  | inl old ↦ rw old refl
  | inr new ↦ rw new (elim (Bool-cases (w.shell w.trace (add_command set.name ip) == 0)) [
    | inl e ↦ rw call_or_throw_lem (rw e refl)
    | inr e ↦ rw call_or_throw_lem (rw e refl)
  ])
]
