-- ===== src/Topology/Store.antt =====
-- crates/omni-topology/src/store.rs: the in-memory layout store.
use omnipresent.Prelude.{Option, none, some}
use omnipresent.Prelude.Outcome.{Outcome, ok, err}
use omnipresent.Topology.Layout.{VirtualLayout}

pub data NoLayoutStored : Type 0 where
  no_layout_stored : NoLayoutStored

pub record InMemoryLayoutStore : Type 0 where
  pub layout : Option VirtualLayout

unfoldable pub load : InMemoryLayoutStore → Outcome NoLayoutStored VirtualLayout
load s = elim s.layout [ none ↦ err no_layout_stored | some l ↦ ok l ]

unfoldable pub save : VirtualLayout → InMemoryLayoutStore → InMemoryLayoutStore
save l s = record { layout = some l }
