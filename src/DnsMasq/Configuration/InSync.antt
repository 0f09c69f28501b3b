-- ===== src/DnsMasq/Configuration/InSync.antt =====
-- The file of a configuration shows its lines.
use tu_thesis.Base.{
  ℕ, ◌≡◌, refl, ap, ◌∙◌, Bool, true, false, ◌&&◌, ◌||◌, none, some, List, [], ◌∷◌, ◌++◌,
  append_assoc, arith,
}
use tu_thesis.Text.Bytes.{Bytes, same, same_refl}
use tu_thesis.Exec.{ok, throw, Exception}
use tu_thesis.Map
use tu_thesis.Map.{bytes_key, lookup-insert_self}
use tu_thesis.Shared
use tu_thesis.Shared.{object_at-write}
use tu_thesis.World.{World, Configuration}
use tu_thesis.DnsMasq.Configuration.{
  render, write_configuration, set_lines, on_configuration, add_all, replace_first, replaced,
  replace,
}

pub render-append : (xs ys : List (Bytes × Bytes)) → render (xs ++ ys) ≡ render xs ++ render ys
unfolding render
render-append [] ys = refl
render-append ((name, value) ∷ xs) ys =
    rw (render-append xs ys) (rw (append_assoc, append_assoc) refl)

-- The configuration behind `p` has these lines, and its file, which can be written, holds them.
pub record Shows (p : ℕ) (file_name : Bytes) (lines : List (Bytes × Bytes)) (w : World)
    : Type 0 where
  pub object :
      Shared.object_at p w.confs ≡ some (record { file_name = file_name; configuration = lines })
  pub file : Map.lookup file_name w.files ≡ some (render lines)
  pub writable : w.writable file_name ≡ true

module _ (p : ℕ) (c : Configuration) (w : World) where
  abbrev pub IsOpen : Type 0
  IsOpen = (Shared.object_at p w.confs ≡ some c) × (w.writable c.file_name ≡ true)

  set_lines_lem :
      (lines : List (Bytes × Bytes))
      → IsOpen
      → ((set_lines p c lines w).0 ≡ ok tt) × Shows p c.file_name lines (set_lines p c lines w).1
  unfolding set_lines write_configuration
  set_lines_lem lines (live, writable) = rw writable (
    refl,
    record {
      object = object_at-write p c _ w.confs live;
      file = lookup-insert_self _ _ _;
      writable = writable;
    },
  )

  -- `addConfiguration` on a live configuration whose file can be written: the new lines follow the old
  -- ones in the object, and the file holds the text of both.
  pub add_all-Shows :
      (lines : List (Bytes × Bytes))
      → IsOpen
      → ((add_all p lines w).0 ≡ ok tt)
        × Shows p c.file_name (c.configuration ++ lines) (add_all p lines w).1
  unfolding add_all
  add_all-Shows lines (live, writable) =
      rw (ap (λ o. on_configuration (λ d. set_lines p d (d.configuration ++ lines)) o w) live)
        (set_lines_lem (c.configuration ++ lines) (live, writable))

-- Whether a line stands among the lines.
abbrev pub has_line : Bytes → Bytes → List (Bytes × Bytes) → Bool
has_line name value [] = false
has_line name value ((n, v) ∷ rest) = (same name n && same value v) || has_line name value rest

replace_first_found :
    (name old new : Bytes) (before after : List (Bytes × Bytes))
    → has_line name old before ≡ false
    → replace_first name old new (before ++ ((name, old) ∷ after))
      ≡ some (before ++ ((name, new) ∷ after))
unfolding replace_first
replace_first_found name old new [] after h = ground (arith, same_refl name, same_refl old)
replace_first_found name old new ((n, v) ∷ before) after h =
    ground (arith, replace_first_found name old new before after)

replace_first_missing :
    (name old new : Bytes) (lines : List (Bytes × Bytes))
    → has_line name old lines ≡ false
    → replace_first name old new lines ≡ none
unfolding replace_first
replace_first_missing name old new [] h = refl
replace_first_missing name old new ((n, v) ∷ lines) h =
    ground (arith, replace_first_missing name old new lines)

module _ (p : ℕ) (file_name name old new : Bytes) (w : World) where
  abbrev at_lines : List (Bytes × Bytes) → Configuration
  at_lines lines = record { file_name = file_name; configuration = lines }

  -- `replaceConfiguration` changes the value of the first line with the name and the old value, in
  -- the object and in the file, and leaves the other lines and their order.
  pub replace-Shows :
      (before after : List (Bytes × Bytes))
      → IsOpen p (at_lines (before ++ ((name, old) ∷ after))) w
      → has_line name old before ≡ false
      → ((replace p name old new w).0 ≡ ok tt)
        × Shows p file_name (before ++ ((name, new) ∷ after)) (replace p name old new w).1
  unfolding replace
  replace-Shows before after (live, writable) first =
      let c = at_lines (before ++ ((name, old) ∷ after)) in
      rw
        (ap
            (λ o.
              on_configuration
                (λ d. replaced p name old d (replace_first name old new d.configuration)) o w)
            live
          ∙ ap (λ o. replaced p name old c o w)
              (replace_first_found name old new before after first))
        (set_lines_lem p c w (before ++ ((name, new) ∷ after)) (live, writable))

  -- Where no line has the name and the old value, it throws, and nothing has changed.
  pub replace_missing :
      (c : Configuration)
      → Shared.object_at p w.confs ≡ some c
      → has_line name old c.configuration ≡ false
      → (e : Exception) × (replace p name old new w ≡ (throw e, w))
  unfolding replace
  replace_missing c live missing = (
    _,
    ap
          (λ o.
            on_configuration
              (λ d. replaced p name old d (replace_first name old new d.configuration)) o w)
          live
        ∙ ap (λ o. replaced p name old c o w)
            (replace_first_missing name old new c.configuration missing),
  )
