-- ===== src/PingSwitcher/Configuration.antt =====
-- The switcher's configuration, as text and back.
use tu_thesis.Base.{◌≡◌, ap, ◌∙◌, All}
use tu_thesis.Text.Bytes.{Bytes, bytes}
use tu_thesis.Text.Stream.Split.{
  split, join_with, IsItem, getlines-eq-split, split-IsItem, split-join_with,
}
use tu_thesis.Map
use tu_thesis.Map.{Map, empty, bytes_key, lookup-insert_self, value_or_empty}
use tu_thesis.PingSwitcher.{PingSwitcher, configure, get_configuration}

-- Whatever the switcher was and the configuration holds, the loop over the stream gives the interfaces
-- that a split of the text by recursion gives, of the empty text if the configuration has none.
pub configure-eq-split :
    (conf : Map Bytes Bytes) (p : PingSwitcher)
    → (configure conf p).interfaces
      ≡ split b',' (value_or_empty (Map.lookup (bytes "interfaces") conf))
unfolding configure
configure-eq-split conf p = getlines-eq-split b',' _

interfaces_text :
    (p : PingSwitcher)
    → value_or_empty (Map.lookup (bytes "interfaces") (get_configuration p))
      ≡ join_with b',' p.interfaces
unfolding get_configuration
interfaces_text p = rw lookup-insert_self

-- Interfaces whose names hold no comma come back from the text that `getConfiguration` gives.
pub configure-get_configuration :
    (p q : PingSwitcher)
    → All (IsItem b',') p.interfaces
    → (configure (get_configuration p) q).interfaces ≡ p.interfaces
configure-get_configuration p q h =
    configure-eq-split (get_configuration p) q
    ∙ ap (split b',') (interfaces_text p)
    ∙ split-join_with b',' p.interfaces h

-- Whatever a switcher was configured with, configuring another one from what it then shows gives the
-- same interfaces in the same order.
pub configure_again :
    (conf : Map Bytes Bytes) (p q : PingSwitcher)
    → (configure (get_configuration (configure conf p)) q).interfaces
      ≡ (configure conf p).interfaces
configure_again conf p q =
    configure-get_configuration (configure conf p) q (rw configure-eq-split (split-IsItem b',' _))
