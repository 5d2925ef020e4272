-- ===== src/Positional/Gets.antt =====
-- The lookups by the keys of the three permuted indexes (store.rs). The permutations are computed
-- on first access and kept; the array never changes.
use ferratomic.Prelude.{ℕ, List}
use ferratomic.Prelude.Order.{Ord}
use ferratomic.Datom.Types.{Value, Datom}
use ferratomic.Positional.Eytzinger.{Search, layout_permutation, layout_search}
use ferratomic.Positional.Interpolation.{reverse}
use ferratomic.Positional.Permutation.{build_permutation}
use ferratomic.Positional.Keys.Aevt
use ferratomic.Positional.Keys.Vaet
use ferratomic.Positional.Keys.Avet
use ferratomic.Positional.Keys.Aevt.{AevtKey, aevt_ord}
use ferratomic.Positional.Keys.Vaet.{VaetKey, vaet_ord}
use ferratomic.Positional.Keys.Avet.{AvetKey, avet_ord}

module _ (values : Ord Value) (canonical : List Datom) where
  abbrev pub perm_aevt : List ℕ
  perm_aevt = layout_permutation (build_permutation (aevt_ord values) Aevt.from_datom canonical)

  abbrev pub perm_vaet : List ℕ
  perm_vaet = layout_permutation (build_permutation (vaet_ord values) Vaet.from_datom canonical)

  abbrev pub perm_avet : List ℕ
  perm_avet = layout_permutation (build_permutation (avet_ord values) Avet.from_datom canonical)

  abbrev pub aevt_get : AevtKey → Search Datom
  aevt_get key = layout_search canonical (λ d. reverse (Aevt.cmp_datom values key d)) perm_aevt

  abbrev pub vaet_get : VaetKey → Search Datom
  vaet_get key = layout_search canonical (λ d. reverse (Vaet.cmp_datom values key d)) perm_vaet

  abbrev pub avet_get : AvetKey → Search Datom
  avet_get key = layout_search canonical (λ d. reverse (Avet.cmp_datom values key d)) perm_avet
