-- ===== src/Examples/Names.antt =====
-- Interning at concrete names.
use ferratomic.Prelude.{ℕ, ◌<◌, ◌≡◌, refl, ◌⊎◌, none, List, [], ◌∷◌, length}
use ferratomic.Prelude.Results.{ok}
use ferratomic.Prelude.Order.{list_cmp}
use ferratomic.Prelude.TreeMap.{insert}
use ferratomic.Clock.TxId.{node_ord}
use ferratomic.Datom.Types.{Attribute}
use ferratomic.Intern.{AttributeIntern, number, from_attributes, id_of, intern}
use ferratomic.Intern.Table.{IsIntern, Interned, from_attributes-IsIntern, intern_verdict}

-- "b", "a" and "b" again: the ids follow the order of the names.
abbrev names : List Attribute
names = (0x62 ∷ []) ∷ (0x61 ∷ []) ∷ (0x62 ∷ []) ∷ []

abbrev two_names : AttributeIntern
two_names = record {
  to_id = (0x61 ∷ [], 0) ∷ (0x62 ∷ [], 1) ∷ [];
  to_name = (0x61 ∷ []) ∷ (0x62 ∷ []) ∷ [];
}

names_interned : from_attributes names ≡ ok two_names
unfolding from_attributes number insert node_ord list_cmp
names_interned = refl

two_names-IsIntern : IsIntern two_names
two_names-IsIntern = from_attributes-IsIntern names two_names names_interned

intern_verdict_example :
    ((id : ℕ) × ((intern (0x63 ∷ []) two_names).1 ≡ ok id)
      × Interned (0x63 ∷ []) two_names (intern (0x63 ∷ []) two_names).0 id)
    ⊎ (((intern (0x63 ∷ []) two_names).0 ≡ two_names)
        × (id_of (0x63 ∷ []) two_names ≡ none)
        × (0xFFFF < length two_names.to_name))
intern_verdict_example = intern_verdict (0x63 ∷ []) two_names two_names-IsIntern
