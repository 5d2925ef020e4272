-- ===== src/Store/SchemaConflicts.antt =====
-- The conflicts that the union of schemas reports (INV-FERR-043).
use ferratomic.Prelude.{
  ◌≡◌, refl, sym, ap, ◌∙◌, inl, inr, Option, none, some, List, [], ◌∷◌, ◌++◌, append-nil,
  append_assoc, Ordering-cases,
}
use ferratomic.Prelude.Order.{Ord}
use ferratomic.Prelude.TreeMap
use ferratomic.Prelude.TreeMap.{TreeMap, lookup}
use ferratomic.Clock.TxId.{node_ord}
use ferratomic.Datom.Types.{Attribute}
use ferratomic.Tx.Schema.{AttributeDef, Schema, empty_schema, get_attribute}
use ferratomic.Store.Schemas.{SchemaConflict, SchemaMergeResult, merge_attribute, merge_attributes}
use ferratomic.Store.SchemaLaws.{conflict, lookup-merge_attribute_ne}

-- The conflicts by their attributes.
abbrev pub reports : List SchemaConflict → TreeMap Attribute (AttributeDef × AttributeDef)
reports [] = []
reports (c ∷ l) = (c.attribute, (c.kept, c.discarded)) ∷ reports l

conflicts_from : TreeMap Attribute (AttributeDef × AttributeDef) → List SchemaConflict
conflicts_from [] = []
conflicts_from ((k, (x, y)) ∷ l) =
    record { attribute = k; kept = x; discarded = y } ∷ conflicts_from l

conflicts_from-reports : (l : List SchemaConflict) → conflicts_from (reports l) ≡ l
unfolding conflicts_from
conflicts_from-reports [] = refl
conflicts_from-reports (c ∷ l) = ap (λ r. c ∷ r) (conflicts_from-reports l)

pub reports_inj : (l r : List SchemaConflict) → reports l ≡ reports r → l ≡ r
reports_inj l r h = sym (conflicts_from-reports l) ∙ ap conflicts_from h ∙ conflicts_from-reports r

abbrev pub report : Attribute → Option (AttributeDef × AttributeDef) → List SchemaConflict
report k none = []
report k (some (x, y)) = record { attribute = k; kept = x; discarded = y } ∷ []

abbrev pub nothing : SchemaMergeResult
nothing = record { schema = empty_schema; conflicts = [] }

module _ (defs : Ord AttributeDef) where
  -- The conflicts of the definitions of `l` with those of a schema.
  abbrev pub conflicts_with : Schema → TreeMap Attribute AttributeDef → List SchemaConflict
  conflicts_with s [] = []
  conflicts_with s ((k, d) ∷ l) =
      report k (conflict defs (lookup node_ord k s) (some d)) ++ conflicts_with s l

  conflicts-merge_attribute :
      (k : Attribute) (d : AttributeDef) (e : Option AttributeDef) (r : SchemaMergeResult)
      → (merge_attribute defs k d e r).conflicts
        ≡ r.conflicts ++ report k (conflict defs e (some d))
  unfolding merge_attribute conflict
  conflicts-merge_attribute k d none r = sym (append-nil r.conflicts)
  conflicts-merge_attribute k d (some x) r = elim (Ordering-cases (defs.cmp d x)) [
    | inl e ↦ rw (e, merge_attribute, defs.cmp_gt d x e, conflict) refl
    | inr (inl e) ↦
        let same : d ≡ x = defs.eq_of_cmp d x e in
        rw (e, merge_attribute, same, defs.cmp_refl x, conflict) (sym (append-nil r.conflicts))
    | inr (inr e) ↦ rw (e, merge_attribute, defs.cmp_lt d x e, conflict) refl
  ]

  -- Both schemas have the same definitions of the attributes of `l`.
  abbrev Agree : Schema → Schema → TreeMap Attribute AttributeDef → Type 0
  Agree s t [] = Unit
  Agree s t ((k, d) ∷ l) = (lookup node_ord k s ≡ lookup node_ord k t) × Agree s t l

  Agree-next :
      (k : Attribute) (d : AttributeDef) (e : Option AttributeDef) (r : SchemaMergeResult)
      (s : Schema) (l : TreeMap Attribute AttributeDef)
      → TreeMap.Above node_ord k l
      → Agree r.schema s l
      → Agree (merge_attribute defs k d e r).schema s l
  Agree-next k d e r s [] a h = tt
  Agree-next k d e r s ((j, w) ∷ l) a h =
      let above = node_ord.cmp_gt k j a.0 in
      (
        lookup-merge_attribute_ne defs j k d e r (λ same. cc (above, same)) ∙ h.0,
        Agree-next k d e r s l a.1 h.1,
      )

  pub conflicts-merge_attributes :
      (l : TreeMap Attribute AttributeDef) (r : SchemaMergeResult) (s : Schema)
      → TreeMap.IsSorted node_ord l
      → Agree r.schema s l
      → (merge_attributes defs l r).conflicts ≡ r.conflicts ++ conflicts_with s l
  unfolding merge_attributes get_attribute
  conflicts-merge_attributes [] r s sorted h = sym (append-nil r.conflicts)
  conflicts-merge_attributes ((k, d) ∷ l) r s sorted h =
      let next = merge_attribute defs k d (lookup node_ord k r.schema) r in
      conflicts-merge_attributes l next s sorted.1
        (Agree-next k d (lookup node_ord k r.schema) r s l sorted.0 h.1)
      ∙ ap (λ c. c ++ conflicts_with s l)
          (conflicts-merge_attribute k d (lookup node_ord k r.schema) r
            ∙ ap (λ x. r.conflicts ++ report k (conflict defs x (some d))) (h.0))
      ∙ append_assoc r.conflicts (report k (conflict defs (lookup node_ord k s) (some d)))
          (conflicts_with s l)

  pub Agree-refl : (s : Schema) (l : TreeMap Attribute AttributeDef) → Agree s s l
  Agree-refl s [] = tt
  Agree-refl s ((k, d) ∷ l) = (refl, Agree-refl s l)

  pub no_conflicts : (l : TreeMap Attribute AttributeDef) → conflicts_with [] l ≡ []
  unfolding conflict
  no_conflicts [] = refl
  no_conflicts ((k, d) ∷ l) =
      rw (TreeMap.lookup-Above {V = AttributeDef} node_ord k [] tt, conflict) (no_conflicts l)
