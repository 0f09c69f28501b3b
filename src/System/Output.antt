-- ===== src/System/Output.antt =====
-- What `System::exec` returns.
use tu_thesis.Base.{
  ℕ, zero, suc, ◌≤◌, ◌≡◌, refl, ap, ap₂, ◌∙◌, false, some, [], ◌∷◌, ◌++◌, length, has, arith,
}
use tu_thesis.Text.Bytes.{Bytes}
use tu_thesis.Exec.{ok}
use tu_thesis.World.{World}
use tu_thesis.System.{issue, fgets, c_string, read_all, exec}

fgets-append : (n : ℕ) (s : Bytes) → let (line, rest) = fgets n s in line ++ rest ≡ s
unfolding fgets
fgets-append zero s = refl
fgets-append (suc n) [] = refl
fgets-append (suc n) (c ∷ cs) = ground (arith, fgets-append n cs)

fgets-shorter : (n : ℕ) (c : ℕ) (cs : Bytes) → length (fgets (suc n) (c ∷ cs)).1 ≤ length cs
unfolding fgets
fgets-shorter zero c cs = ground arith
fgets-shorter (suc n) c [] = ground arith
fgets-shorter (suc n) c (d ∷ cs) = ground (arith, fgets-shorter n d cs)

c_string_whole : (s : Bytes) → has 0 s ≡ false → c_string s ≡ s
unfolding c_string
c_string_whole [] h = refl
c_string_whole (c ∷ cs) h = ground (arith, c_string_whole cs)

has-append : (d : ℕ) (s t : Bytes) → has d (s ++ t) ≡ false → (has d s ≡ false) × (has d t ≡ false)
has-append d [] t h = (refl, h)
has-append d (c ∷ s) t h = ground (arith, has-append d s t)

read_all_whole : (fuel : ℕ) (s : Bytes) → length s ≤ fuel → has 0 s ≡ false → read_all fuel s ≡ s
unfolding read_all
read_all_whole zero [] le h = refl
read_all_whole zero (c ∷ cs) le h = absurd (omega arith)
read_all_whole (suc fuel) [] le h = refl
read_all_whole (suc fuel) (c ∷ cs) le h =
    let pieces = fgets-append 127 (c ∷ cs) in
    let clean = has-append 0 (fgets 127 (c ∷ cs)).0 (fgets 127 (c ∷ cs)).1 (rw pieces h) in
    ap₂ ◌++◌ (c_string_whole _ clean.0)
      (read_all_whole fuel _ (omega (arith, fgets-shorter 126 c cs)) clean.1)
    ∙ pieces

-- If `popen` succeeds and no NUL is printed, `exec` returns all that the command prints, however
-- it is cut by the buffer, and changes nothing but the trace.
pub exec_whole :
    (cmd out : Bytes) (w : World)
    → w.output w.trace cmd ≡ some out
    → has 0 out ≡ false
    → exec cmd w ≡ (ok out, issue cmd w)
unfolding exec
exec_whole cmd out w e h =
    rw e (ap (λ t. (ok t, issue cmd w)) (read_all_whole (length out) out (omega arith) h))
