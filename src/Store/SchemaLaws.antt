-- ===== src/Store/SchemaLaws.antt =====
-- The union of schemas keeps the lesser of two definitions, and reports every conflict
-- (INV-FERR-009, INV-FERR-043).
use ferratomic.Prelude.{
  ◌≡◌, refl, sym, ap, ◌∙◌, inl, inr, Option, none, some, [], ◌∷◌, Ordering, Ordering-cases, arith,
}
use ferratomic.Prelude.Order.{Ord, eq_cases, lesser, lesser_comm}
use ferratomic.Prelude.TreeMap
use ferratomic.Prelude.TreeMap.{TreeMap, lookup}
use ferratomic.Clock.TxId.{node_ord}
use ferratomic.Datom.Types.{Attribute}
use ferratomic.Tx.Schema.{AttributeDef, Schema, get_attribute, define}
use ferratomic.Store.OrdMap.{united}
use ferratomic.Store.Schemas.{SchemaMergeResult, merge_attribute, merge_attributes}

abbrev pub IsSchema : Schema → Type 0
IsSchema s = TreeMap.IsSorted node_ord s

module _ (defs : Ord AttributeDef) where
  -- What two stores' definitions of an attribute give: the conflict, if they differ.
  unfoldable pub conflict :
      Option AttributeDef → Option AttributeDef → Option (AttributeDef × AttributeDef)
  conflict none y = none
  conflict (some x) none = none
  conflict (some x) (some y) = elim (defs.cmp x y) [
    | Ordering.eq ↦ none
    | Ordering.lt ↦ some (x, y)
    | Ordering.gt ↦ some (y, x)
  ]

  pub conflict_comm : (x y : Option AttributeDef) → conflict x y ≡ conflict y x
  unfolding conflict
  conflict_comm none none = refl
  conflict_comm none (some y) = refl
  conflict_comm (some x) none = refl
  conflict_comm (some x) (some y) =
      ground (arith, defs.cmp_lt x y, defs.cmp_gt x y, defs.eq_of_cmp x y, defs.cmp_refl x)

  pub united_comm :
      (x y : Option AttributeDef) → united (lesser defs) x y ≡ united (lesser defs) y x
  united_comm none none = refl
  united_comm none (some y) = refl
  united_comm (some x) none = refl
  united_comm (some x) (some y) = ap some (lesser_comm defs x y)

  -- The attribute's definition after a round.
  lookup-merge_attribute :
      (attr : Attribute) (def : AttributeDef) (e : Option AttributeDef) (r : SchemaMergeResult)
      → lookup node_ord attr r.schema ≡ e
      → lookup node_ord attr (merge_attribute defs attr def e r).schema
        ≡ united (lesser defs) e (some def)
  unfolding merge_attribute define lesser
  lookup-merge_attribute attr def none r h = TreeMap.lookup-insert_self node_ord attr def r.schema
  lookup-merge_attribute attr def (some existing) r h =
      elim (Ordering-cases (defs.cmp def existing)) [
        | inl e ↦
            rw (e, merge_attribute, defs.cmp_gt def existing e, lesser, united)
              (TreeMap.lookup-insert_self node_ord attr def r.schema)
        | inr (inl e) ↦
            let same : def ≡ existing = defs.eq_of_cmp def existing e in
            rw (e, merge_attribute, same, defs.cmp_refl existing, lesser, united) h
        | inr (inr e) ↦ rw (e, merge_attribute, defs.cmp_lt def existing e, lesser, united) h
      ]

  pub lookup-merge_attribute_ne :
      (i attr : Attribute) (def : AttributeDef) (e : Option AttributeDef) (r : SchemaMergeResult)
      → ¬ (node_ord.cmp i attr ≡ Ordering.eq)
      → lookup node_ord i (merge_attribute defs attr def e r).schema ≡ lookup node_ord i r.schema
  unfolding merge_attribute define
  lookup-merge_attribute_ne i attr def none r h =
      TreeMap.lookup-insert_ne node_ord i attr def r.schema h
  lookup-merge_attribute_ne i attr def (some existing) r h =
      elim (Ordering-cases (defs.cmp def existing)) [
        | inl e ↦ rw (e, merge_attribute) (TreeMap.lookup-insert_ne node_ord i attr def r.schema h)
        | inr (inl e) ↦ rw (e, merge_attribute) refl
        | inr (inr e) ↦ rw (e, merge_attribute) refl
      ]

  merge_attribute-IsSchema :
      (attr : Attribute) (def : AttributeDef) (e : Option AttributeDef) (r : SchemaMergeResult)
      → IsSchema r.schema
      → IsSchema (merge_attribute defs attr def e r).schema
  unfolding merge_attribute define
  merge_attribute-IsSchema attr def none r s = TreeMap.insert-IsSorted node_ord attr def r.schema s
  merge_attribute-IsSchema attr def (some existing) r s =
      elim (Ordering-cases (defs.cmp def existing)) [
        | inl e ↦ rw (e, merge_attribute) (TreeMap.insert-IsSorted node_ord attr def r.schema s)
        | inr (inl e) ↦ rw (e, merge_attribute) s
        | inr (inr e) ↦ rw (e, merge_attribute) s
      ]

  pub merge_attributes-IsSchema :
      (l : TreeMap Attribute AttributeDef) (r : SchemaMergeResult)
      → IsSchema r.schema
      → IsSchema (merge_attributes defs l r).schema
  unfolding merge_attributes
  merge_attributes-IsSchema [] r s = s
  merge_attributes-IsSchema ((k, d) ∷ l) r s =
      merge_attributes-IsSchema l _ (merge_attribute-IsSchema k d (get_attribute k r.schema) r s)

  united-none : (x : Option AttributeDef) → united (lesser defs) x none ≡ x
  united-none none = refl
  united-none (some x) = refl

  pub lookup-merge_attributes :
      (i : Attribute) (l : TreeMap Attribute AttributeDef) (r : SchemaMergeResult)
      → TreeMap.IsSorted node_ord l
      → lookup node_ord i (merge_attributes defs l r).schema
        ≡ united (lesser defs) (lookup node_ord i r.schema) (lookup node_ord i l)
  unfolding merge_attributes get_attribute
  lookup-merge_attributes i [] r s = sym (
      ap (united (lesser defs) (lookup node_ord i r.schema)) (TreeMap.lookup-Above node_ord i [] tt)
      ∙ united-none (lookup node_ord i r.schema))
  lookup-merge_attributes i ((k, d) ∷ l) r s =
      let next = merge_attribute defs k d (lookup node_ord k r.schema) r in
      elim (eq_cases node_ord i k) [
        | inl e ↦
            rw (e, TreeMap.lookup_head node_ord k d l)
              (lookup-merge_attributes k l next s.1
                ∙ ap (united (lesser defs) (lookup node_ord k next.schema))
                    (TreeMap.lookup-Above node_ord k l s.0)
                ∙ united-none (lookup node_ord k next.schema)
                ∙ lookup-merge_attribute k d (lookup node_ord k r.schema) r refl)
        | inr n ↦
            lookup-merge_attributes i l next s.1
            ∙ rw (TreeMap.lookup_ne node_ord i k d l n) (
                ap (λ x. united (lesser defs) x (lookup node_ord i l))
                  (lookup-merge_attribute_ne i k d (lookup node_ord k r.schema) r n))
      ]
