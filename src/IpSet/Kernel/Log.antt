-- ===== src/IpSet/Kernel/Log.antt =====
-- A kernel that is computed from the commands: what is asked of the kernel can hold.
use tu_thesis.Base.{
  ◌||◌, ◌∙◌, arith, ◌≡◌, ap, refl, Bool, true, false, List, [], ◌∷◌, ◌++◌, append_assoc, append-nil,
  ◌==◌, if◌then◌else◌,
}
use tu_thesis.Text.Bytes.{same_refl, bytes, Bytes, same}
use tu_thesis.IpSet.{add_command, flush_command}
use tu_thesis.IpSet.Kernel.{Shell, Kernel}

-- Whether the kernel's set of a name holds an address after an accepted command: `ipset add` puts it
-- in, `ipset flush` empties the set.
abbrev pub effect : Bytes → Bytes → Bytes → Bool → Bool
effect name ip cmd held =
    if same cmd (add_command name ip)
    then true
    else if same cmd (flush_command name)
    then false
    else held

-- Whether it does after commands that are run behind others; a refused one changes nothing.
unfoldable pub held_after : Shell → Bytes → Bytes → List Bytes → List Bytes → Bool → Bool
held_after shell name ip past [] held = held
held_after shell name ip past (cmd ∷ cmds) held =
    held_after shell name ip (past ++ (cmd ∷ [])) cmds
      (if shell past cmd == 0 then effect name ip cmd held else held)

same_append : (p x y : Bytes) → same (p ++ x) (p ++ y) ≡ same x y
unfolding same
same_append [] x y = refl
same_append (c ∷ p) x y = ground (arith, same_append p x y)

effect-add_command :
    (name ip x : Bytes) (held : Bool)
    → effect name x (add_command name ip) held ≡ (same ip x || held)
unfolding same bytes
effect-add_command name ip x held = rw (same_append name (b' ' ∷ ip) (b' ' ∷ x)) (ground arith)

effect-flush_command :
    (name x : Bytes) (held : Bool) → effect name x (flush_command name) held ≡ false
unfolding same bytes
effect-flush_command name x held = rw (same_refl name) refl

held_after-one :
    (shell : Shell) (name ip cmd : Bytes) (before cmds : List Bytes) (held : Bool)
    → held_after shell name ip before (cmds ++ (cmd ∷ [])) held ≡ (
        let old = held_after shell name ip before cmds held in
        if shell (before ++ cmds) cmd == 0 then effect name ip cmd old else old)
unfolding held_after
held_after-one shell name ip cmd before [] held = rw append-nil refl
held_after-one shell name ip cmd before (c ∷ cmds) held =
    let held' = if shell before c == 0 then effect name ip c held else held in
    let old = held_after shell name ip (before ++ (c ∷ [])) cmds held' in
    held_after-one shell name ip cmd (before ++ (c ∷ [])) cmds held'
    ∙ ap (λ t. if shell t cmd == 0 then effect name ip cmd old else old)
        (append_assoc before (c ∷ []) cmds)

pub log_kernel : (shell : Shell) (name : Bytes) → Kernel shell name
log_kernel shell name = record {
  holds = λ ip cmds. held_after shell name ip [] cmds false;
  added = λ ip x cmds address accepted.
      held_after-one shell name x (add_command name ip) [] cmds false
      ∙ rw accepted (effect-add_command name ip x _);
  flushed = λ x cmds accepted.
      held_after-one shell name x (flush_command name) [] cmds false
      ∙ rw accepted (effect-flush_command name x _);
  not_added = λ ip x cmds address refused.
      held_after-one shell name x (add_command name ip) [] cmds false ∙ rw refused refl;
  not_flushed = λ x cmds refused.
      held_after-one shell name x (flush_command name) [] cmds false ∙ rw refused refl;
}

-- Before the first command every set is empty.
pub log_kernel-empty :
    (shell : Shell) (name ip : Bytes) → (log_kernel shell name).holds ip [] ≡ false
unfolding log_kernel held_after
log_kernel-empty shell name ip = refl
