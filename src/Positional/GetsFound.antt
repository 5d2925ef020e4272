-- ===== src/Positional/GetsFound.antt =====
-- The lookups find the datoms with the key (INV-FERR-027).
use ferratomic.Prelude.{◌^◌, ◌≤◌, sym, subst, List, length}
use ferratomic.Prelude.Order.{Ord}
use mathlib.Core.Path.{fun_ext}
use ferratomic.Datom.Types.{Value, Datom}
use ferratomic.Positional.Eytzinger.{layout_permutation, layout_search}
use ferratomic.Positional.Interpolation.{reverse}
use ferratomic.Positional.Permutation.{build_permutation}
use ferratomic.Positional.PermutationSearch.{FindsKey, layout_search-build_permutation}
use ferratomic.Positional.Keys.Aevt
use ferratomic.Positional.Keys.Vaet
use ferratomic.Positional.Keys.Avet
use ferratomic.Positional.Keys.Ops.{reverse-cmp}
use ferratomic.Positional.Keys.Aevt.{AevtKey, aevt_ord}
use ferratomic.Positional.Keys.Vaet.{VaetKey, vaet_ord}
use ferratomic.Positional.Keys.Avet.{AvetKey, avet_ord}
use ferratomic.Positional.Gets.{aevt_get, vaet_get, avet_get}

-- A search that compares the key with the datom, and turns the result round
reversed-FindsKey :
    {A : Type 0} {K : Type 0} (o : Ord K) (key_fn : A → K) (canonical : List A) (key : K)
    → length canonical ≤ 2 ^ 32
    → FindsKey o key_fn canonical key (
        layout_search canonical
          (λ d. reverse (o.cmp key (key_fn d)))
          (layout_permutation (build_permutation o key_fn canonical)))
reversed-FindsKey o key_fn canonical key bound =
    subst
      (λ f.
        FindsKey o key_fn canonical key
          (layout_search canonical f (layout_permutation (build_permutation o key_fn canonical))))
      (fun_ext (λ d. sym (reverse-cmp o key (key_fn d))))
      (layout_search-build_permutation o key_fn canonical key bound)

-- In a store of at most 2^32 datoms, a lookup by a key of the AEVT, the VAET or the AVET index ends
-- without a panic, and returns a datom of the store that has the key, or reports that the store has
-- none, whatever the order of values.
pub index_gets :
    (values : Ord Value) (canonical : List Datom)
    → length canonical ≤ 2 ^ 32
    → (aevt : AevtKey) (vaet : VaetKey) (avet : AvetKey)
    → FindsKey (aevt_ord values) Aevt.from_datom canonical aevt (aevt_get values canonical aevt)
      × FindsKey (vaet_ord values) Vaet.from_datom canonical vaet (vaet_get values canonical vaet)
      × FindsKey (avet_ord values) Avet.from_datom canonical avet (avet_get values canonical avet)
index_gets values canonical bound aevt vaet avet = (
  reversed-FindsKey (aevt_ord values) Aevt.from_datom canonical aevt bound,
  reversed-FindsKey (vaet_ord values) Vaet.from_datom canonical vaet bound,
  reversed-FindsKey (avet_ord values) Avet.from_datom canonical avet bound,
)
