-- ===== src/XTables/Chain/Pair.antt =====
-- Two new chains with a rule each, which go away with their only pointers.
use tu_thesis.Base.{◌≡◌, refl, ℕ, ◌+◌, false, some, [], ◌∷◌, arith, length}
use tu_thesis.Text.Bytes.{bytes}
use tu_thesis.Exec.{ok}
use tu_thesis.Shared
use tu_thesis.Shared.{Heap, object_at, release}
use tu_thesis.World.{World, Chain, ChainRule}
use tu_thesis.System.{issue}
use tu_thesis.XTables.ChainRule
use tu_thesis.XTables.ChainRule.{strip_counters, delete_chain_rule}
use tu_thesis.XTables.Chain.{release_chain, delete_chain, delete_rules}

module _ (c d : Chain) (h : Heap Chain) where
  abbrev pub two : Heap Chain
  two = Shared.allocate d (Shared.allocate c h)

  pub first_live : object_at h.next two ≡ some c
  unfolding object_at Shared.allocate
  first_live = ground arith

  pub second_live : (c' : Chain) → object_at (h.next + 1) (Shared.write h.next c' two) ≡ some d
  unfolding object_at Shared.allocate Shared.write
  second_live c' = ground arith

  -- Both chains were changed, and each has its only pointer.
  abbrev pub changed : Chain → Chain → Heap Chain
  changed c' d' = Shared.write (h.next + 1) d' (Shared.write h.next c' two)

  pub second_last : (c' d' : Chain) → (release (h.next + 1) (changed c' d')).0 ≡ some d'
  unfolding release Shared.allocate Shared.write
  second_last c' d' = ground arith

  pub first_last :
      (c' d' : Chain) → (release h.next (release (h.next + 1) (changed c' d')).1).0 ≡ some c'
  unfolding release Shared.allocate Shared.write
  first_last c' d' = ground arith

-- A chain of the kernel whose only rule and only pointer go away.
pub release_chain_last :
    (p k : ℕ) (c : Chain) (r : ChainRule) (w : World)
    → (release p w.chains).0 ≡ some c
    → c.package_rules ≡ record { entries = (k, r) ∷ [] }
    → c.created ≡ false
    → w.clear_order ((k, r) ∷ []) ≡ (k, r) ∷ []
    → release_chain p w ≡ (
      ok tt,
      issue
          (ChainRule.rule_command r.table_name
            (bytes "-D")
            r.chain_name
            (strip_counters (length r.rule) r.rule))
          (record w { chains = (release p w.chains).1 }),
    )
unfolding release_chain delete_chain delete_rules delete_chain_rule
release_chain_last p k c r w last rules kernel one =
    rw (last, release_chain) (rw rules (rw one (rw kernel refl)))
