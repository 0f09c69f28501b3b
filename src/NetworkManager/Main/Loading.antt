-- ===== src/NetworkManager/Main/Loading.antt =====
-- The numbers that the plugins of the file get.
use tu_thesis.Base.{
  ◌==◌, ◌≡◌, ℕ, ◌+◌, ◌^◌, ◌<◌, ◌≤◌, Option, none, some, List, [], ◌∷◌, arith, length,
}
use tu_thesis.Text.Bytes.{Bytes}
use tu_thesis.Exec.{Outcome, ok, throw, undefined}
use tu_thesis.Exec.Preserves.{Preserves, lift-Preserves, pure-Preserves, on_world-Preserves}
use tu_thesis.Exec.Leads.{if_Leads, Leads, of_Preserves, bind-Leads}
use tu_thesis.Web.Socket.{Socket}
use tu_thesis.Web.Process.{serve_clients}
use tu_thesis.Web.Process.Clients.{serve_clients-IsNumbered}
use tu_thesis.Map
use tu_thesis.Map.{Map, bytes_key, empty}
use tu_thesis.World.{World}
use tu_thesis.FileConfigurator.{Reader}
use tu_thesis.NetworkManager.{Ini}
use tu_thesis.Plugin.{Plugin}
use tu_thesis.PluginConfigurator.{new_configurator, PluginConfigurator, add_plugin}
use tu_thesis.PluginConfigurator.Numbers.{
  new_configurator-IsNumbered, IsNumbered, add_plugin-IsNumbered,
}
use tu_thesis.DLoader.{new_dloader, Linker, DLoader}
use tu_thesis.NetworkManager.Main.{
  library_path, PluginFile, main, Environment, load_all, library_path, Loaded, remember_loader,
  prepare, keep_loader, find_loader, started, start_plugin, load_plugin, load_plugins,
}

-- The numbers are those below the next one, and at most `k` have been given.
pub record Numbers (k : ℕ) (c : PluginConfigurator) : Type 0 where
  pub numbered : IsNumbered c
  pub bounded : c.next_id ≤ k

Numbers-more : (k m : ℕ) (c : PluginConfigurator) → k ≤ m → Numbers k c → Numbers m c
Numbers-more k m c le h = record { numbered = h.numbered; bounded = omega (arith, h.bounded) }

Numbers-add_plugin :
    (k : ℕ) (p : Plugin) (c : PluginConfigurator)
    → k < 2 ^ 31
    → Numbers k c
    → Numbers (k + 1) (add_plugin p c)
Numbers-add_plugin k p c small h = record {
  numbered = add_plugin-IsNumbered p c (omega (arith, h.bounded)) h.numbered;
  bounded = unfold add_plugin in omega (arith, h.bounded);
}

module _ (linker : Linker) (open_reader : Bytes → Reader) where
  abbrev Holds : ℕ → Loaded linker open_reader × World → Type 0
  Holds k (l, w) = Numbers k l.configurator

  keep_loader-Holds :
      (k : ℕ) (type : Bytes) (o : Option (DLoader linker))
      → Preserves (Holds k) (keep_loader linker open_reader type o)
  keep_loader-Holds k type (some dl) = pure-Preserves dl
  keep_loader-Holds k type none =
      lift-Preserves (new_dloader linker (library_path type))
        (remember_loader linker open_reader type) (λ dl e. record { holds = λ s h. h })

  find_loader-Holds :
      (k : ℕ) (type : Bytes) → Preserves (Holds k) (find_loader linker open_reader type)
  unfolding find_loader
  find_loader-Holds k type = record {
    holds = λ (l, w) h. (keep_loader-Holds k type (Map.lookup type l.loaders)).holds (l, w) h;
  }

  started-Holds :
      (k : ℕ) (l : Loaded linker open_reader) (r : Outcome (Unit {0})) (p : Plugin) (w : World)
      → k < 2 ^ 31
      → Numbers k l.configurator
      → Holds (k + 1) (started linker open_reader l (r, (p, w))).1
  started-Holds k l (ok u) p w small h = Numbers-add_plugin k p l.configurator small h
  started-Holds k l (throw x) p w small h = Numbers-more k (k + 1) _ (omega arith) h
  started-Holds k l undefined p w small h = Numbers-more k (k + 1) _ (omega arith) h

  start_plugin-Leads :
      (k : ℕ) (conf : Map Bytes Bytes) (p : Plugin)
      → k < 2 ^ 31
      → Leads (Holds k) (Holds (k + 1)) (start_plugin linker open_reader conf p)
  unfolding start_plugin
  start_plugin-Leads k conf p small = record { holds = λ (l, w) h. started-Holds k l _ _ _ small h }

  load_plugin-Leads :
      (k : ℕ) (reader : Ini) (type : Bytes)
      → k < 2 ^ 31
      → Leads (Holds k) (Holds (k + 1)) (load_plugin linker open_reader reader type)
  unfolding load_plugin
  load_plugin-Leads k reader type small =
      let more = λ (s : Loaded linker open_reader × World) (h : Holds k s).
        Numbers-more k (k + 1) s.0.configurator (omega arith) h in
      bind-Leads _ _ (of_Preserves _ (find_loader-Holds k type))
        (λ dl.
          bind-Leads _ _ (of_Preserves _ (on_world-Preserves (λ l. Numbers k l.configurator) _))
            (λ p. start_plugin-Leads k _ p small) more)
        more

  load_plugins-Leads :
      (k : ℕ) (reader : Ini) (types : List Bytes)
      → k + length types ≤ 2 ^ 31
      → Leads (Holds k) (Holds (k + length types)) (load_plugins linker open_reader reader types)
  unfolding load_plugins
  load_plugins-Leads k reader [] small = record {
    holds = λ (l, w) h. Numbers-more k (k + 0) _ (omega arith) h;
  }
  load_plugins-Leads k reader (type ∷ types) small =
      let e : k + length (type ∷ types) ≡ k + 1 + length types = omega arith in
      rw e (
        bind-Leads _ _ (load_plugin-Leads k reader type (omega arith))
          (λ _. load_plugins-Leads (k + 1) reader types (omega arith))
          (λ s h. Numbers-more (k + 1) (k + 1 + length types) s.0.configurator (omega arith) h))

  load_all-Leads :
      (file : PluginFile)
      → length file.sections ≤ 2 ^ 31
      → Leads {S = PluginConfigurator × World}
          (λ (c, w). Numbers 0 c)
          (λ (c, w). Numbers (length file.sections) c)
          (load_all linker open_reader file)
  unfolding load_all
  load_all-Leads file small = record {
    holds = λ (c, w) h.
        Numbers-more (0 + length file.sections) (length file.sections) _ (omega arith) (
          (load_plugins-Leads 0 file.entries file.sections (omega arith)).holds
            (record { loaders = empty; configurator = c }, w) h);
  }

-- Whatever the file names, and however `main` ends: with at most 2 ^ 31 sections the numbers of the
-- plugins are those below the next one, and no more than the sections.
pub main-Numbers :
    (linker : Linker) (open_reader : Bytes → Reader) (env : Environment) (w : World)
    → length env.file.sections ≤ 2 ^ 31
    → Numbers (length env.file.sections) (main linker open_reader env (new_configurator, w)).1.0
unfolding main
main-Numbers linker open_reader env w small =
    let all = length env.file.sections in
    let weaker = λ (s : PluginConfigurator × World) (h : Numbers 0 s.0).
      Numbers-more 0 all s.0 (omega arith) h in
    (if_Leads (env.masked == 0) _ _
        (bind-Leads _ _ (of_Preserves _ (on_world-Preserves (Numbers 0) (prepare env)))
          (λ _.
            bind-Leads _ _ (load_all-Leads linker open_reader env.file small)
              (λ _. of_Preserves _ (pure-Preserves _)) (λ s h. h))
          weaker)
        (record { holds = weaker })).holds
      (new_configurator, w)
      (record { numbered = new_configurator-IsNumbered; bounded = omega arith })

-- The whole program, the loading and then any clients with any requests, however it ends: with at most
-- 2 ^ 31 sections the numbers of the plugins are those below the next one.
pub program-IsNumbered :
    (linker : Linker) (open_reader : Bytes → Reader) (env : Environment) (w : World) (fuel : ℕ)
    (sockets : List Socket)
    → length env.file.sections ≤ 2 ^ 31
    → IsNumbered
        (serve_clients open_reader fuel sockets
          (main linker open_reader env (new_configurator, w)).1).1.0
program-IsNumbered linker open_reader env w fuel sockets small =
    serve_clients-IsNumbered open_reader fuel sockets _ _
      (main-Numbers linker open_reader env w small).numbered
