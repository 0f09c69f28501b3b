-- ===== src/System.antt =====
-- src/System/src/System.cpp: commands that are run through the shell.
pub mod Output
use tu_thesis.Base.{
  Bool-cases, inl, inr, ◌≡◌, ◌≢◌, refl, arith, ℕ, zero, suc, Bool, true, false, Option, none, some,
  List, [], ◌∷◌, ◌++◌, ◌==◌, if◌then◌else◌, length,
}
use tu_thesis.Text.Bytes.{Bytes, bytes}
use tu_thesis.Exec.{
  ok, throw, Exec, Outcome, ok, throw, Exception, runtime_error, pure, raise, continue, ◌>>=◌, ◌>>◌,
}
use tu_thesis.World.{World}

abbrev pub issue : Bytes → World → World
issue cmd w = record w { trace = w.trace ++ (cmd ∷ []) }

-- `System::call`
unfoldable pub call : Bytes → Exec World ℕ
call cmd w = (ok (w.shell w.trace cmd), issue cmd w)

-- `if(0 != System::call(cmd)) throw std::runtime_error(message);`
unfoldable pub call_or_throw : Bytes → Bytes → Exec World (Unit {0})
unfolding call
call_or_throw cmd message = do
  status ← call cmd
  if status == 0 then pure tt else raise (runtime_error message)

-- `System::call(cmd);` with the status not read
unfoldable pub call_only : Bytes → Exec World (Unit {0})
unfolding call
call_only cmd = do call cmd; pure tt

-- `fgets` with room for `n` bytes: a line with its `\n`, or the first `n` bytes of it.
unfoldable pub fgets : ℕ → Bytes → Bytes × Bytes
fgets zero s = ([], s)
fgets (suc n) [] = ([], [])
fgets (suc n) (c ∷ cs) =
    let (line, rest) = fgets n cs in if c == b'\n' then (c ∷ [], cs) else (c ∷ line, rest)

-- The bytes of a C string, up to the first NUL.
unfoldable pub c_string : Bytes → Bytes
c_string [] = []
c_string (c ∷ cs) = let rest = c_string cs in if c == 0 then [] else c ∷ rest

-- `while (fgets(buffer.data(), buffer.size(), pipe.get())) result += buffer.data();` Each round
-- takes a byte at least, so the length is enough fuel.
unfoldable pub read_all : ℕ → Bytes → Bytes
read_all zero s = []
read_all (suc fuel) [] = []
read_all (suc fuel) (c ∷ cs) =
    let (line, rest) = fgets 127 (c ∷ cs) in c_string line ++ read_all fuel rest

abbrev read_pipe : Option Bytes → Exec World Bytes
read_pipe none = raise (runtime_error (bytes "popen() failed!"))
read_pipe (some out) = pure (read_all (length out) out)

-- `System::exec`
unfoldable pub exec : Bytes → Exec World Bytes
unfolding read_all fgets c_string
exec cmd w = read_pipe (w.output w.trace cmd) (issue cmd w)

module _ (cmd message : Bytes) (w : World) where
  pub call_or_throw_ok :
      w.shell w.trace cmd ≡ 0 → call_or_throw cmd message w ≡ (ok tt, issue cmd w)
  unfolding call_or_throw
  call_or_throw_ok h = rw h

  pub call_or_throw_fails :
      w.shell w.trace cmd ≢ 0
      → call_or_throw cmd message w ≡ (throw (runtime_error message), issue cmd w)
  unfolding call_or_throw
  call_or_throw_fails h = ground arith

  pub call_or_throw_lem :
      call_or_throw cmd message w
      ≡ ((if w.shell w.trace cmd == 0 then ok tt else throw (runtime_error message)), issue cmd w)
  unfolding call_or_throw
  call_or_throw_lem = elim (Bool-cases (w.shell w.trace cmd == 0)) [
    | inl e ↦ rw e refl
    | inr e ↦ rw e refl
  ]
