-- ===== src/IpSet/Kernel.antt =====
-- The set of the kernel and the program's copy of it.
pub mod Log
use tu_thesis.IpSet.Members.{contains-append, add_ip_lem}
use tu_thesis.Exec.Preserves.{bind-Preserves, try-Preserves, pure-Preserves, Preserves}
use tu_thesis.System.{call_or_throw_lem, issue}
use tu_thesis.Base.{
  ap₂, ◌<◌, All, Bool-cases, ◌||◌, ◌∙◌, sym, arith, inl, inr, Bool-cases, ℕ, ◌≡◌, ap, refl, Bool,
  true, false, List, [], ◌∷◌, ◌++◌, append_assoc, append-nil, ◌==◌, if◌then◌else◌,
}
use tu_thesis.Text.Bytes.{same_refl, bytes, Bytes, same}
use tu_thesis.Text.Number.{to_string}
use tu_thesis.Exec.{Exec, pure, try, ◌>>◌}
use tu_thesis.World.{World, IpSet}
use tu_thesis.IpSet.{contains, add_command, flush_command, add_ip, clear_ips}

-- The shell: the status of a command after those that were run before.
abbrev pub Shell : Type 0
Shell = List Bytes → Bytes → ℕ

-- The text of an IPv4 address: four numbers of a byte each, with dots between them.
abbrev pub IsAddress : Bytes → Type 0
IsAddress ip =
    (a b c d : ℕ) × (a < 256)
    × (b < 256)
    × (c < 256)
    × (d < 256)
    × (ip ≡ to_string a ++ (b'.' ∷ (to_string b ++ (b'.' ∷ (to_string c ++ (b'.' ∷ to_string d))))))

-- `ipset` on the set of a name, as its manual describes the type hash:ip: whether the set holds an
-- address after commands. An accepted `ipset add` of one address puts it in, an accepted `ipset flush`
-- empties the set, and either, refused, changes nothing. Of what a network, a range or a host name puts
-- in nothing is said.
pub record Kernel (shell : Shell) (name : Bytes) : Type 0 where
  pub holds : Bytes → List Bytes → Bool
  pub added :
      (ip x : Bytes) (cmds : List Bytes)
      → IsAddress ip
      → (shell cmds (add_command name ip) == 0) ≡ true
      → holds x (cmds ++ (add_command name ip ∷ [])) ≡ (same ip x || holds x cmds)
  pub not_added :
      (ip x : Bytes) (cmds : List Bytes)
      → IsAddress ip
      → (shell cmds (add_command name ip) == 0) ≡ false
      → holds x (cmds ++ (add_command name ip ∷ [])) ≡ holds x cmds
  pub flushed :
      (x : Bytes) (cmds : List Bytes)
      → (shell cmds (flush_command name) == 0) ≡ true
      → holds x (cmds ++ (flush_command name ∷ [])) ≡ false
  pub not_flushed :
      (x : Bytes) (cmds : List Bytes)
      → (shell cmds (flush_command name) == 0) ≡ false
      → holds x (cmds ++ (flush_command name ∷ [])) ≡ holds x cmds

-- A call of the object, from a client that logs exceptions.
pub data Call : Type 0 where
  add : Bytes → Call
  clear : Call

-- What it adds is one address.
abbrev pub OfAddress : Call → Type 0
OfAddress (add ip) = IsAddress ip
OfAddress clear = Unit

unfoldable pub run_call : Call → Exec (IpSet × World) (Unit {0})
unfolding add_ip clear_ips
run_call (add ip) = try (add_ip ip) (λ _. pure tt)
run_call clear = try clear_ips (λ _. pure tt)

unfoldable pub run_calls : List Call → Exec (IpSet × World) (Unit {0})
unfolding run_call
run_calls [] = pure tt
run_calls (call ∷ calls) = run_call call >> run_calls calls

module _ (shell : Shell) (name : Bytes) (kernel : Kernel shell name) where
  -- The copy holds what the kernel holds.
  pub record Agrees (s : IpSet × World) : Type 0 where
    pub same_shell : s.1.shell ≡ shell
    pub same_name : s.0.name ≡ name
    pub agrees : (ip : Bytes) → contains ip s.0.ips ≡ kernel.holds ip s.1.trace

  issued-Agrees :
      (set : IpSet) (w : World) (cmd : Bytes) (ips : List Bytes)
      → Agrees (set, w)
      → ((x : Bytes) → contains x ips ≡ kernel.holds x (w.trace ++ (cmd ∷ [])))
      → Agrees (record set { ips = ips }, issue cmd w)
  issued-Agrees set w cmd ips a follows = record {
    same_shell = a.same_shell;
    same_name = a.same_name;
    agrees = follows;
  }

  refused-Agrees :
      (set : IpSet) (w : World) (cmd : Bytes)
      → Agrees (set, w)
      → ((x : Bytes) → kernel.holds x (w.trace ++ (cmd ∷ [])) ≡ kernel.holds x w.trace)
      → Agrees (set, issue cmd w)
  refused-Agrees set w cmd a kept =
      issued-Agrees set w cmd set.ips a (λ x. a.agrees x ∙ sym (kept x))

  added_one : (ip x : Bytes) (h : Bool) → (h || contains x (ip ∷ [])) ≡ (same ip x || h)
  unfolding contains
  added_one ip x h = ground arith

  added-Agrees :
      (ip : Bytes) (set : IpSet) (w : World)
      → IsAddress ip
      → Agrees (set, w)
      → (w.shell w.trace (add_command set.name ip) == 0) ≡ true
      → Agrees (record set { ips = set.ips ++ (ip ∷ []) }, issue (add_command set.name ip) w)
  added-Agrees ip set w address a e =
      issued-Agrees set w (add_command set.name ip) (set.ips ++ (ip ∷ [])) a (λ x.
        contains-append x set.ips (ip ∷ [])
        ∙ added_one ip x (contains x set.ips)
        ∙ ap (λ h. same ip x || h) (a.agrees x)
        ∙ sym (
            kernel.added ip x w.trace address (
              ap₂ (λ f n. f w.trace (add_command n ip) == 0) (sym a.same_shell) (sym a.same_name)
              ∙ e))
        ∙ ap (λ n. kernel.holds x (w.trace ++ (add_command n ip ∷ []))) (sym a.same_name))

  -- Whatever the copy held before, an accepted `ipset flush` makes the two agree.
  pub flushed-Agrees :
      (set : IpSet) (w : World)
      → w.shell ≡ shell
      → set.name ≡ name
      → (w.shell w.trace (flush_command set.name) == 0) ≡ true
      → Agrees (record set { ips = [] }, issue (flush_command set.name) w)
  unfolding contains
  flushed-Agrees set w of_shell of_name e = record {
    same_shell = of_shell;
    same_name = of_name;
    agrees = λ x.
        sym (
          kernel.flushed x w.trace
            (ap₂ (λ f n. f w.trace (flush_command n) == 0) (sym of_shell) (sym of_name) ∙ e))
        ∙ ap (λ n. kernel.holds x (w.trace ++ (flush_command n ∷ []))) (sym of_name);
  }

  not_added-Agrees :
      (ip : Bytes) (set : IpSet) (w : World)
      → IsAddress ip
      → Agrees (set, w)
      → (w.shell w.trace (add_command set.name ip) == 0) ≡ false
      → Agrees (set, issue (add_command set.name ip) w)
  not_added-Agrees ip set w address a e = refused-Agrees set w (add_command set.name ip) a (λ x.
      ap (λ n. kernel.holds x (w.trace ++ (add_command n ip ∷ []))) a.same_name
      ∙ kernel.not_added ip x w.trace address
          (ap₂ (λ f n. f w.trace (add_command n ip) == 0) (sym a.same_shell) (sym a.same_name) ∙ e))

  not_flushed-Agrees :
      (set : IpSet) (w : World)
      → Agrees (set, w)
      → (w.shell w.trace (flush_command set.name) == 0) ≡ false
      → Agrees (set, issue (flush_command set.name) w)
  not_flushed-Agrees set w a e = refused-Agrees set w (flush_command set.name) a (λ x.
      ap (λ n. kernel.holds x (w.trace ++ (flush_command n ∷ []))) a.same_name
      ∙ kernel.not_flushed x w.trace
          (ap₂ (λ f n. f w.trace (flush_command n) == 0) (sym a.same_shell) (sym a.same_name) ∙ e))

  pub add_ip-Agrees : (ip : Bytes) → IsAddress ip → Preserves Agrees (add_ip ip)
  add_ip-Agrees ip address = record {
    holds = λ (set, w) a. rw (add_ip_lem ip set w) (elim (Bool-cases (contains ip set.ips)) [
      | inl old ↦ rw old a
      | inr new ↦ rw new (elim (Bool-cases (w.shell w.trace (add_command set.name ip) == 0)) [
        | inl e ↦ rw e (added-Agrees ip set w address a e)
        | inr e ↦ rw e (not_added-Agrees ip set w address a e)
      ])
    ]);
  }

  clear_ips-Agrees : Preserves Agrees clear_ips
  unfolding clear_ips
  clear_ips-Agrees = record {
    holds = λ (set, w) a. elim (Bool-cases (w.shell w.trace (flush_command set.name) == 0)) [
      | inl e ↦ rw call_or_throw_lem (rw e (flushed-Agrees set w a.same_shell a.same_name e))
      | inr e ↦ rw call_or_throw_lem (rw e (not_flushed-Agrees set w a e))
    ];
  }

  run_call-Agrees : (call : Call) → OfAddress call → Preserves Agrees (run_call call)
  unfolding run_call
  run_call-Agrees (add ip) address =
      try-Preserves _ _ (add_ip-Agrees ip address) (λ _. pure-Preserves _)
  run_call-Agrees clear _ = try-Preserves _ _ clear_ips-Agrees (λ _. pure-Preserves _)

  run_calls-Agrees : (calls : List Call) → All OfAddress calls → Preserves Agrees (run_calls calls)
  unfolding run_calls
  run_calls-Agrees [] _ = pure-Preserves _
  run_calls-Agrees (call ∷ calls) (address, addresses) =
      bind-Preserves _ _ (run_call-Agrees call address) (λ _. run_calls-Agrees calls addresses)

-- Any calls of addIP and clearIPs on an object whose copy is empty, in any order, where each text that
-- is added is one IPv4 address, the shell may refuse each command and exceptions are logged: if the set
-- of the kernel was empty, the copy holds an address in the end if and only if the set of the kernel
-- does.
pub run_calls-Kernel :
    (w : World) (name : Bytes) (kernel : Kernel w.shell name) (calls : List Call)
    → All OfAddress calls
    → ((ip : Bytes) → kernel.holds ip w.trace ≡ false)
    → let s = (run_calls calls (record { name = name; ips = [] }, w)).1 in
      (ip : Bytes) → contains ip s.0.ips ≡ kernel.holds ip s.1.trace
unfolding contains
run_calls-Kernel w name kernel calls addresses new =
    ((run_calls-Agrees w.shell name kernel calls addresses).holds
      (record { name = name; ips = [] }, w)
      (record { same_shell = refl; same_name = refl; agrees = λ ip. sym (new ip) })).agrees
