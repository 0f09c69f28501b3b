-- ===== src/DhcpServer/Served.antt =====
-- The file that makes dnsmasq serve a range of addresses.
use tu_thesis.Shared
use tu_thesis.DnsMasq.Controller.Known.{add_configuration-Shows}
use tu_thesis.DnsMasq.Configuration.Uses.{add_all-uses}
use tu_thesis.Shared.Uses.{uses_at-lock, uses_at}
use tu_thesis.Base.{
  append-nil, ◌+◌, some, ◌+◌, some, ℕ, ◌≤◌, ◌≡◌, ◌≢◌, refl, true, none, List, [], ◌∷◌, ◌++◌, ◌∙◌,
  append_assoc,
}
use tu_thesis.Text.Bytes.{Bytes, bytes}
use tu_thesis.Exec.{ok}
use tu_thesis.Map
use tu_thesis.Map.{bytes_key, lookup-insert_self}
use tu_thesis.Shared.{lock-object_at, object_at-allocate}
use tu_thesis.World.{Configuration, World}
use tu_thesis.System.{call_only}
use tu_thesis.DnsMasq.Configuration.{new_configuration, write_configuration, add_all, add_one}
use tu_thesis.DnsMasq.Configuration.InSync.{Shows, add_all-Shows}
use tu_thesis.DnsMasq.Controller.{add_configuration, create, file_of, reload}
use tu_thesis.DhcpServer.{create_configuration}
use tu_thesis.DhcpServer.Lease.{Written, lease_string-Written}

-- A configuration of a new name, whose file can be written: a new object with the lines, and the file
-- that shows them.
pub new_name-Shows :
    (name : Bytes) (lines : List (Bytes × Bytes)) (w : World)
    → Map.lookup name w.configurations ≡ none
    → w.writable (file_of name) ≡ true
    → ((add_configuration name lines w).0 ≡ ok w.confs.next)
      × Shows w.confs.next (file_of name) lines (add_configuration name lines w).1
unfolding add_configuration create new_configuration write_configuration
new_name-Shows name lines w unknown writable =
    rw (unknown, add_configuration)
      (rw writable (
        refl,
        record {
          object = object_at-allocate _ w.confs;
          file = lookup-insert_self _ _ _;
          writable = writable;
        },
      ))

-- The two lines that make dnsmasq serve a range.
abbrev pub served : Bytes → Bytes → Bytes → Bytes → List (Bytes × Bytes)
served name first last time =
    (bytes "interface", name)
    ∷ (bytes "dhcp-range", name ++ (bytes "," ++ (first ++ (bytes "," ++ (last ++ time)))))
    ∷ []

two_lines-Shows :
    (p : ℕ) (file : Bytes) (lines : List (Bytes × Bytes)) (a b : Bytes × Bytes) (w : World)
    → Shows p file lines w
    → ((add_all p (a ∷ []) w).0 ≡ ok tt)
      × ((add_all p (b ∷ []) (add_all p (a ∷ []) w).1).0 ≡ ok tt)
      × Shows p file (lines ++ (a ∷ b ∷ [])) (add_all p (b ∷ []) (add_all p (a ∷ []) w).1).1
      × (uses_at p (add_all p (b ∷ []) (add_all p (a ∷ []) w).1).1.confs ≡ uses_at p w.confs)
two_lines-Shows p file lines a b w s =
    let (done, s') =
      add_all-Shows p (record { file_name = file; configuration = lines }) w (a ∷ [])
        (s.object, s.writable) in
    let (done', s'') =
      add_all-Shows p (record { file_name = file; configuration = lines ++ (a ∷ []) }) _ (b ∷ [])
        (s'.object, s'.writable) in
    (
      done,
      done',
      rw (← append_assoc lines (a ∷ []) (b ∷ [])) s'',
      add_all-uses p p (b ∷ []) _ ∙ add_all-uses p p (a ∷ []) w,
    )

pub create_configuration-Shows :
    (name first last : Bytes) (lease : ℕ) (w : World) (p : ℕ) (file : Bytes)
    (lines : List (Bytes × Bytes))
    → first ≢ []
    → last ≢ []
    → 120 ≤ lease
    → (add_configuration (bytes "dhcp-" ++ first) [] w).0 ≡ ok p
    → Shows p file lines (add_configuration (bytes "dhcp-" ++ first) [] w).1
    → (time : Bytes) × Written lease time
      × ((create_configuration name first last lease w).0 ≡ ok p)
      × Shows p file
          (lines ++ served name first last time)
          (create_configuration name first last lease w).1
      × (uses_at p (create_configuration name first last lease w).1.confs
          ≡ uses_at p (add_configuration (bytes "dhcp-" ++ first) [] w).1.confs)
unfolding create_configuration add_one reload call_only
create_configuration-Shows name [] last lease w p file lines f l long made shows = absurd (f refl)
create_configuration-Shows name (x ∷ first) [] lease w p file lines f l long made shows =
    absurd (l refl)
create_configuration-Shows name (x ∷ first) (y ∷ last) lease w p file lines f l long made shows =
    let (time, eq, written) = lease_string-Written lease long in
    let (done, done', s, uses) =
      two_lines-Shows p file lines (bytes "interface", name)
        (
          bytes "dhcp-range",
          name ++ (bytes "," ++ ((x ∷ first) ++ (bytes "," ++ ((y ∷ last) ++ time)))),
        )
        (add_configuration (bytes "dhcp-" ++ (x ∷ first)) [] w).1 shows in
    (
      time,
      written,
      rw eq (rw made (rw done (rw done' refl))),
      rw eq (
          rw made (
            rw done
              (rw done' (record { object = s.object; file = s.file; writable = s.writable })))),
      rw eq (rw made (rw done (rw done' uses))),
    )

-- The configuration of a name that is in use, whose file can be written: it stays as it is, and gets
-- one more pointer.
pub known_name-Shows :
    (name file : Bytes) (lines : List (Bytes × Bytes)) (p n : ℕ) (w : World)
    → Map.lookup name w.configurations ≡ some p
    → Shows p file lines w
    → uses_at p w.confs ≡ some (n + 1)
    → ((add_configuration name [] w).0 ≡ ok p)
      × Shows p file lines (add_configuration name [] w).1
      × (uses_at p (add_configuration name [] w).1.confs ≡ some (n + 2))
unfolding add_configuration
known_name-Shows name file lines p n w known s several =
    let c : Configuration = record { file_name = file; configuration = lines } in
    let (made, shows) = add_configuration-Shows name [] p c w known (s.object, s.writable) in
    let (locked, still) = lock-object_at p c w.confs s.object in
    let v = record w { confs = (Shared.lock p w.confs).1 } in
    let (done, _) = add_all-Shows p c v [] (still, s.writable) in
    (
      made,
      rw (← append-nil lines) shows,
      rw (known, add_configuration)
          (rw locked (rw done (add_all-uses p p [] v ∙ uses_at-lock p n w.confs several))),
    )
