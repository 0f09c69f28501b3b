-- ===== src/NetworkManager/Main/Missing.antt =====
-- A section of the plugins' file without a library.
use tu_thesis.Base.{
  ℕ, ◌≡◌, ◌≢◌, refl, ap, ◌∙◌, sym, Option, none, some, List, [], ◌∷◌, ◌++◌, inl, inr, Bool-cases,
}
use tu_thesis.Text.Bytes.{Bytes, same, same_iff}
use tu_thesis.Exec.{Exec, Outcome, ok, throw, undefined, continue}
use tu_thesis.Exec.Preserves.{
  Preserves, bind-Preserves, lift-Preserves, pure-Preserves, on_world-Preserves,
}
use tu_thesis.Map
use tu_thesis.Map.{Map, bytes_key, empty, lookup-insert}
use tu_thesis.World.{World}
use tu_thesis.FileConfigurator.{Reader}
use tu_thesis.NetworkManager.{Ini}
use tu_thesis.Plugin.{Plugin}
use tu_thesis.PluginConfigurator.{PluginConfigurator}
use tu_thesis.DLoader.{new_dloader, Linker, DLoader}
use tu_thesis.NetworkManager.Main.{
  PluginFile, library_path, main, Environment, load_all, Loaded, remember_loader, prepare,
  keep_loader, find_loader, started, start_plugin, load_plugin, load_plugins,
}

-- It gives no value: an exception, or undefined behaviour.
abbrev pub IsFailure : {A : Type 0} → Outcome A → Type 0
IsFailure {A} r = (a : A) → r ≢ ok a

fails_first :
    {S A B : Type 0} (r : Outcome A) (f : A → Exec S B) (s : S)
    → IsFailure r
    → IsFailure (continue r f s).0
fails_first (ok a) f s h = absurd (h a refl)
fails_first (throw x) f s h = λ b e. cc
fails_first undefined f s h = λ b e. cc

fails_later :
    {S A B : Type 0} (r : Outcome A) (f : A → Exec S B) (s : S)
    → ((a : A) → r ≡ ok a → IsFailure (f a s).0)
    → IsFailure (continue r f s).0
fails_later (ok a) f s h = h a refl
fails_later (throw x) f s h = λ b e. cc
fails_later undefined f s h = λ b e. cc

module _ (linker : Linker) (open_reader : Bytes → Reader) (type : Bytes)
    (missing : linker.dlopen (library_path type) ≡ none) where
  -- No library of the type was loaded.
  abbrev NotLoaded : Loaded linker open_reader × World → Type 0
  NotLoaded (l, w) = Map.lookup type l.loaders ≡ none

  refused : (dl : DLoader linker) → new_dloader linker (library_path type) ≢ ok dl
  unfolding new_dloader
  refused dl = rw missing (λ e. cc)

  remember-NotLoaded :
      (t : Bytes) (dl : DLoader linker)
      → new_dloader linker (library_path t) ≡ ok dl
      → Preserves NotLoaded (remember_loader linker open_reader t dl)
  remember-NotLoaded t dl opened = record {
    holds = λ (l, w) fresh. elim (Bool-cases (same t type)) [
      | inl e ↦ absurd (
          refused dl
            (ap (λ u. new_dloader linker (library_path u)) (sym ((same_iff t type).0 e)) ∙ opened))
      | inr e ↦ rw lookup-insert (rw e fresh)
    ];
  }

  find_loader-NotLoaded : (t : Bytes) → Preserves NotLoaded (find_loader linker open_reader t)
  unfolding find_loader
  find_loader-NotLoaded t = record {
    holds = λ (l, w) h. (kept (Map.lookup t l.loaders)).holds (l, w) h;
  }
    where
      kept :
          (o : Option (DLoader linker)) → Preserves NotLoaded (keep_loader linker open_reader t o)
      kept (some dl) = pure-Preserves dl
      kept none =
          lift-Preserves (new_dloader linker (library_path t))
            (remember_loader linker open_reader t) (λ dl e. remember-NotLoaded t dl e)

  started-NotLoaded :
      (l : Loaded linker open_reader) (r : Outcome (Unit {0})) (p : Plugin) (w : World)
      → Map.lookup type l.loaders ≡ none
      → NotLoaded (started linker open_reader l (r, (p, w))).1
  started-NotLoaded l (ok u) p w h = h
  started-NotLoaded l (throw x) p w h = h
  started-NotLoaded l undefined p w h = h

  start_plugin-NotLoaded :
      (conf : Map Bytes Bytes) (p : Plugin)
      → Preserves NotLoaded (start_plugin linker open_reader conf p)
  unfolding start_plugin
  start_plugin-NotLoaded conf p = record { holds = λ (l, w) h. started-NotLoaded l _ _ _ h }

  load_plugin-NotLoaded :
      (reader : Ini) (t : Bytes) → Preserves NotLoaded (load_plugin linker open_reader reader t)
  unfolding load_plugin
  load_plugin-NotLoaded reader t = bind-Preserves _ _ (find_loader-NotLoaded t) (λ dl.
      bind-Preserves _ _ (on_world-Preserves (λ l. Map.lookup type l.loaders ≡ none) _)
        (λ p. start_plugin-NotLoaded _ p))

  load_plugin_fails :
      (reader : Ini) (s : Loaded linker open_reader × World)
      → NotLoaded s
      → IsFailure (load_plugin linker open_reader reader type s).0
  unfolding load_plugin find_loader new_dloader
  load_plugin_fails reader (l, w) fresh = rw fresh (rw missing (λ a e. cc))

  load_plugins_fails :
      (reader : Ini) (before after : List Bytes) (s : Loaded linker open_reader × World)
      → NotLoaded s
      → IsFailure (load_plugins linker open_reader reader (before ++ (type ∷ after)) s).0
  unfolding load_plugins
  load_plugins_fails reader [] after s fresh =
      fails_first (load_plugin linker open_reader reader type s).0 _ _
        (load_plugin_fails reader s fresh)
  load_plugins_fails reader (t ∷ before) after s fresh =
      fails_later (load_plugin linker open_reader reader t s).0 _ _ (λ _ _.
        load_plugins_fails reader before after _ ((load_plugin-NotLoaded reader t).holds s fresh))

  load_all_fails :
      (file : PluginFile) (before after : List Bytes) (c : PluginConfigurator) (w : World)
      → file.sections ≡ before ++ (type ∷ after)
      → IsFailure (load_all linker open_reader file (c, w)).0
  unfolding load_all Map.lookup
  load_all_fails file before after c w sections = rw sections (
      load_plugins_fails file.entries before after (record { loaders = empty; configurator = c }, w)
        refl)

-- A section anywhere in the plugins' file whose library cannot be opened: whatever the other sections
-- do, and whatever was loaded before it, `main` never returns an exit status: it ends with an exception
-- or undefined behaviour. The mask of the signals is set before.
pub main_fails :
    (linker : Linker) (open_reader : Bytes → Reader) (env : Environment) (type : Bytes)
    (before after : List Bytes) (c : PluginConfigurator) (w : World)
    → env.masked ≡ 0
    → env.file.sections ≡ before ++ (type ∷ after)
    → linker.dlopen (library_path type) ≡ none
    → (status : ℕ) → (main linker open_reader env (c, w)).0 ≢ ok status
unfolding main
main_fails linker open_reader env type before after c w masked sections missing = rw masked (
    fails_later (prepare env w).0 _ _ (λ _ _.
      fails_first (load_all linker open_reader env.file (c, (prepare env w).1)).0 _ _ (
        load_all_fails linker open_reader type missing env.file before after c (prepare env w).1
          sections)))
