-- ===== src/DLoader.antt =====
-- DLoader: plugins from shared libraries.
use tu_thesis.Base.{Option, none, some}
use tu_thesis.Text.Bytes.{Bytes, bytes}
use tu_thesis.Exec.{Exec, Outcome, ok, throw, runtime_error, raise}
use tu_thesis.World.{World}
use tu_thesis.Plugin.{Plugin}

-- The dynamic linker: `dlopen` of a path gives a library or null, `dlsym` a symbol of it or null, here
-- what a call of the symbol as an allocator does, and `dlerror` a text.
pub record Linker : Type 1 where
  pub Library : Type 0
  pub dlopen : Bytes → Option Library
  pub dlsym : Library → Bytes → Option (Exec World Plugin)
  pub dlerror : Bytes

module _ (linker : Linker) where
  pub record DLoader : Type 0 where
    pub handle : linker.Library
    pub allocator_name : Bytes
    pub deallocator_name : Bytes

  abbrev opened : Option linker.Library → Outcome DLoader
  opened none = throw (runtime_error linker.dlerror)
  opened (some library) = ok (record {
    handle = library;
    allocator_name = bytes "allocator";
    deallocator_name = bytes "deallocator";
  })

  -- The constructor, with the names that it has by default.
  unfoldable pub new_dloader : Bytes → Outcome DLoader
  new_dloader library_path = opened (linker.dlopen library_path)

  abbrev allocated : Option (Exec World Plugin) → Option (Exec World Plugin) → Exec World Plugin
  allocated (some allocate) (some _) = allocate
  allocated _ _ = raise (runtime_error linker.dlerror)

  -- `createInstance`: both functions are looked up, and the first one is called.
  unfoldable pub create_instance : DLoader → Exec World Plugin
  create_instance dl =
      allocated (linker.dlsym dl.handle dl.allocator_name)
        (linker.dlsym dl.handle dl.deallocator_name)
