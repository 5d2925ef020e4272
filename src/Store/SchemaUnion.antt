-- ===== src/Store/SchemaUnion.antt =====
-- The union of schemas as a whole (INV-FERR-009, INV-FERR-043).
use ferratomic.Prelude.{
  ◌≡◌, refl, sym, ap, ◌∙◌, inl, inr, Option, none, some, [], ◌∷◌, ◌++◌, Option-cases,
}
use ferratomic.Prelude.Order.{Ord, eq_cases, lesser, lesser_idem, lesser_assoc}
use ferratomic.Prelude.TreeMap
use ferratomic.Prelude.TreeMap.{TreeMap, lookup}
use ferratomic.Clock.TxId.{node_ord}
use ferratomic.Datom.Types.{Attribute}
use ferratomic.Tx.Schema.{AttributeDef, Schema, get_attribute}
use ferratomic.Store.OrdMap.{united}
use ferratomic.Store.Schemas.{SchemaMergeResult, merge_attributes, merge_schemas}
use ferratomic.Store.SchemaLaws.{
  IsSchema, conflict, conflict_comm, united_comm, lookup-merge_attributes,
  merge_attributes-IsSchema,
}
use ferratomic.Store.SchemaConflicts.{
  reports, reports_inj, report, conflicts_with, nothing, conflicts-merge_attributes, Agree-refl,
  no_conflicts,
}

module _ (defs : Ord AttributeDef) where
  result_eq : (r q : SchemaMergeResult) → r.schema ≡ q.schema → r.conflicts ≡ q.conflicts → r ≡ q
  result_eq r q h k = cc

  merge_first :
      (a : Schema)
      → IsSchema a
      → merge_attributes defs a nothing ≡ record { schema = a; conflicts = [] }
  merge_first a s =
      result_eq (merge_attributes defs a nothing) _
        (TreeMap.ext node_ord _ a (merge_attributes-IsSchema defs a nothing tt) s λ i.
          lookup-merge_attributes defs i a nothing s
          ∙ ap (λ x. united (lesser defs) x (lookup node_ord i a))
              (TreeMap.lookup-Above {V = AttributeDef} node_ord i [] tt))
        (conflicts-merge_attributes defs a nothing [] s (Agree-refl defs [] a)
          ∙ no_conflicts defs a)

  merge_attributes-append :
      (a b : TreeMap Attribute AttributeDef) (r : SchemaMergeResult)
      → merge_attributes defs (a ++ b) r ≡ merge_attributes defs b (merge_attributes defs a r)
  unfolding merge_attributes
  merge_attributes-append [] b r = refl
  merge_attributes-append ((k, d) ∷ a) b r = merge_attributes-append a b _

  merge_second :
      (a b : Schema)
      → IsSchema a
      → merge_schemas defs a b ≡ merge_attributes defs b (record { schema = a; conflicts = [] })
  unfolding merge_schemas
  merge_second a b s =
      merge_attributes-append a b nothing ∙ ap (merge_attributes defs b) (merge_first a s)

  pub merge_schemas-IsSchema :
      (a b : Schema) → IsSchema a → IsSchema (merge_schemas defs a b).schema
  merge_schemas-IsSchema a b s =
      rw (merge_second a b s)
        (merge_attributes-IsSchema defs b (record { schema = a; conflicts = [] }) s)

  lookup-merge_schemas :
      (i : Attribute) (a b : Schema)
      → IsSchema a
      → IsSchema b
      → lookup node_ord i (merge_schemas defs a b).schema
        ≡ united (lesser defs) (lookup node_ord i a) (lookup node_ord i b)
  lookup-merge_schemas i a b s t =
      rw (merge_second a b s)
        (lookup-merge_attributes defs i b (record { schema = a; conflicts = [] }) t)

  conflicts-merge_schemas :
      (a b : Schema)
      → IsSchema a
      → IsSchema b
      → (merge_schemas defs a b).conflicts ≡ conflicts_with defs a b
  conflicts-merge_schemas a b s t = rw (merge_second a b s) (
      conflicts-merge_attributes defs b (record { schema = a; conflicts = [] }) a t
        (Agree-refl defs a b))

  Above-reports :
      (i : Attribute) (a : Schema) (l : TreeMap Attribute AttributeDef)
      → TreeMap.Above node_ord i l
      → TreeMap.Above node_ord i (reports (conflicts_with defs a l))
  Above-reports i a [] h = tt
  Above-reports i a ((k, d) ∷ l) h =
      elim (Option-cases (conflict defs (lookup node_ord k a) (some d))) [
        | inl e ↦ rw (e, report) (Above-reports i a l h.1)
        | inr ((x, y), e) ↦ rw (e, report) (h.0, Above-reports i a l h.1)
      ]

  reports-IsSorted :
      (a : Schema) (l : TreeMap Attribute AttributeDef)
      → TreeMap.IsSorted node_ord l
      → TreeMap.IsSorted node_ord (reports (conflicts_with defs a l))
  reports-IsSorted a [] s = tt
  reports-IsSorted a ((k, d) ∷ l) s =
      elim (Option-cases (conflict defs (lookup node_ord k a) (some d))) [
        | inl e ↦ rw (e, report) (reports-IsSorted a l s.1)
        | inr ((x, y), e) ↦ rw (e, report) (Above-reports k a l s.0, reports-IsSorted a l s.1)
      ]

  conflict-none : (x : Option AttributeDef) → conflict defs x none ≡ none
  unfolding conflict
  conflict-none none = refl
  conflict-none (some x) = refl

  lookup-reports :
      (i : Attribute) (a : Schema) (l : TreeMap Attribute AttributeDef)
      → TreeMap.IsSorted node_ord l
      → lookup node_ord i (reports (conflicts_with defs a l))
        ≡ conflict defs (lookup node_ord i a) (lookup node_ord i l)
  lookup-reports i a [] s =
      TreeMap.lookup-Above node_ord i [] tt
      ∙ sym (
          ap (conflict defs (lookup node_ord i a)) (TreeMap.lookup-Above node_ord i [] tt)
          ∙ conflict-none (lookup node_ord i a))
  lookup-reports i a ((k, d) ∷ l) s =
      elim (Option-cases (conflict defs (lookup node_ord k a) (some d))) [
        | inl e ↦ elim (eq_cases node_ord i k) [
          | inl same ↦
              rw (e, same, report, TreeMap.lookup_head node_ord k d l)
                (TreeMap.lookup-Above node_ord k _ (Above-reports k a l s.0) ∙ sym e)
          | inr n ↦ rw (e, report, TreeMap.lookup_ne node_ord i k d l n) (lookup-reports i a l s.1)
        ]
        | inr ((x, y), e) ↦ elim (eq_cases node_ord i k) [
          | inl same ↦
              rw (e, same, report, TreeMap.lookup_head node_ord k d l)
                (TreeMap.lookup_head node_ord k (x, y) (reports (conflicts_with defs a l)) ∙ sym e)
          | inr n ↦
              rw (e, report, TreeMap.lookup_ne node_ord i k d l n)
                (TreeMap.lookup_ne node_ord i k (x, y) (reports (conflicts_with defs a l)) n
                  ∙ lookup-reports i a l s.1)
        ]
      ]

  conflicts_comm :
      (a b : Schema) → IsSchema a → IsSchema b → conflicts_with defs a b ≡ conflicts_with defs b a
  conflicts_comm a b s t = reports_inj (conflicts_with defs a b) (conflicts_with defs b a) (
      TreeMap.ext node_ord _ _ (reports-IsSorted a b t) (reports-IsSorted b a s) λ i.
        lookup-reports i a b t
        ∙ conflict_comm defs (lookup node_ord i a) (lookup node_ord i b)
        ∙ sym (lookup-reports i b a s))

  conflict_idem : (x : Option AttributeDef) → conflict defs x x ≡ none
  unfolding conflict
  conflict_idem none = refl
  conflict_idem (some x) = rw (defs.cmp_refl x, conflict) refl

  united_idem : (x : Option AttributeDef) → united (lesser defs) x x ≡ x
  united_idem none = refl
  united_idem (some x) = ap some (lesser_idem defs x)

  united_assoc :
      (x y z : Option AttributeDef)
      → united (lesser defs) (united (lesser defs) x y) z
        ≡ united (lesser defs) x (united (lesser defs) y z)
  united_assoc none y z = refl
  united_assoc (some x) none z = refl
  united_assoc (some x) (some y) none = refl
  united_assoc (some x) (some y) (some z) = ap some (lesser_assoc defs x y z)

  pub merge_schemas_comm :
      (a b : Schema) → IsSchema a → IsSchema b → merge_schemas defs a b ≡ merge_schemas defs b a
  merge_schemas_comm a b s t =
      result_eq _ _
        (TreeMap.ext node_ord _ _ (merge_schemas-IsSchema a b s) (merge_schemas-IsSchema b a t) λ i.
          lookup-merge_schemas i a b s t
          ∙ united_comm defs (lookup node_ord i a) (lookup node_ord i b)
          ∙ sym (lookup-merge_schemas i b a t s))
        (conflicts-merge_schemas a b s t
          ∙ conflicts_comm a b s t
          ∙ sym (conflicts-merge_schemas b a t s))

  pub merge_schemas_idem :
      (a : Schema) → IsSchema a → merge_schemas defs a a ≡ record { schema = a; conflicts = [] }
  merge_schemas_idem a s =
      result_eq _ _
        (TreeMap.ext node_ord _ a (merge_schemas-IsSchema a a s) s
          λ i. lookup-merge_schemas i a a s s ∙ united_idem (lookup node_ord i a))
        (conflicts-merge_schemas a a s s
          ∙ reports_inj (conflicts_with defs a a) [] (
              TreeMap.ext node_ord _ [] (reports-IsSorted a a s) tt λ i.
                lookup-reports i a a s
                ∙ conflict_idem (lookup node_ord i a)
                ∙ sym (TreeMap.lookup-Above node_ord i [] tt)))

  pub merge_schemas_assoc :
      (a b c : Schema)
      → IsSchema a
      → IsSchema b
      → IsSchema c
      → (merge_schemas defs (merge_schemas defs a b).schema c).schema
        ≡ (merge_schemas defs a (merge_schemas defs b c).schema).schema
  merge_schemas_assoc a b c s t u =
      let ab = merge_schemas-IsSchema a b s in
      let bc = merge_schemas-IsSchema b c t in
      TreeMap.ext node_ord _ _ (merge_schemas-IsSchema (merge_schemas defs a b).schema c ab)
        (merge_schemas-IsSchema a (merge_schemas defs b c).schema s)
        λ i.
          lookup-merge_schemas i (merge_schemas defs a b).schema c ab u
          ∙ ap (λ x. united (lesser defs) x (lookup node_ord i c)) (lookup-merge_schemas i a b s t)
          ∙ united_assoc (lookup node_ord i a) (lookup node_ord i b) (lookup node_ord i c)
          ∙ sym (
              lookup-merge_schemas i a (merge_schemas defs b c).schema s bc
              ∙ ap (united (lesser defs) (lookup node_ord i a)) (lookup-merge_schemas i b c t u))

  -- For schemas a and b in the order of their attributes, the union has for each attribute the lesser
  -- of the two definitions, or the only one; its conflicts are those of the attributes that both
  -- define differently, with the lesser definition as kept and the greater as discarded; and the union
  -- of b and a is the same in both.
  pub merge_schemas_union :
      (a b : Schema)
      → IsSchema a
      → IsSchema b
      → ((i : Attribute)
          → (get_attribute i (merge_schemas defs a b).schema
              ≡ united (lesser defs) (get_attribute i a) (get_attribute i b))
            × (lookup node_ord i (reports (merge_schemas defs a b).conflicts)
                ≡ conflict defs (get_attribute i a) (get_attribute i b)))
        × (merge_schemas defs a b ≡ merge_schemas defs b a)
  unfolding get_attribute
  merge_schemas_union a b s t = (
    λ i. (
      lookup-merge_schemas i a b s t,
      ap (λ c. lookup node_ord i (reports c)) (conflicts-merge_schemas a b s t)
          ∙ lookup-reports i a b t,
    ),
    merge_schemas_comm a b s t,
  )
