-- ===== src/Tx/Verdict.antt =====
-- What a commit accepts, and whom it blames (INV-FERR-006, INV-FERR-009).
use ferratomic.Prelude.{
  ◌≡◌, ◌≢◌, refl, ap, ◌⊎◌, inl, inr, true, false, none, some, List, [], ◌∷◌, ◌++◌, All,
  Option-cases, Bool-cases, arith,
}
use ferratomic.Prelude.Results.{ok, err}
use ferratomic.Datom.Types.{
  Value, keyword, string, long, double, bool, instant, uuid, bytes, ref, big_int, big_dec, Datom,
}
use ferratomic.Tx.Schema.{ValueType, AttributeDef, Schema, get_attribute}
use ferratomic.Tx.Commit.{
  TxValidationError, unknown_attribute, schema_violation, Building, value_matches_type,
  validate_datom, validate_datoms, commit,
}

abbrev pub type_of : Value → ValueType
type_of (keyword s) = ValueType.keyword
type_of (string s) = ValueType.string
type_of (long n) = ValueType.long
type_of (double f) = ValueType.double
type_of (bool b) = ValueType.boolean
type_of (instant n) = ValueType.instant
type_of (uuid u) = ValueType.uuid
type_of (bytes s) = ValueType.bytes
type_of (ref e) = ValueType.ref
type_of (big_int n) = ValueType.big_int
type_of (big_dec n) = ValueType.big_dec

matches_type : (v : Value) (t : ValueType) → value_matches_type v t ≡ true → type_of v ≡ t
unfolding value_matches_type
matches_type v t h = ground arith

matches_type_self : (v : Value) → value_matches_type v (type_of v) ≡ true
unfolding value_matches_type
matches_type_self v = ground arith

-- The schema knows the attribute of the datom, and the value has the attribute's type.
abbrev pub IsTyped : Schema → Datom → Type 0
IsTyped schema d =
    (def : AttributeDef) × (get_attribute d.attribute schema ≡ some def)
    × (type_of d.value ≡ def.value_type)

-- Why the datom is refused.
abbrev pub IsBlamed : Schema → Datom → TxValidationError → Type 0
IsBlamed schema d e =
    ((get_attribute d.attribute schema ≡ none) × (e ≡ unknown_attribute d.attribute))
    ⊎ ((def : AttributeDef) × (get_attribute d.attribute schema ≡ some def)
        × (type_of d.value ≢ def.value_type)
        × (e ≡ schema_violation d.attribute def.value_type d.value))

-- The datoms up to the first that is refused.
pub record Refusal (schema : Schema) (datoms : List Datom) (e : TxValidationError) : Type 0 where
  pub before : List Datom
  pub datom : Datom
  pub after : List Datom
  pub split : datoms ≡ before ++ datom ∷ after
  pub typed : All (IsTyped schema) before
  pub blamed : IsBlamed schema datom e

-- The verdict on one datom.
datom_verdict :
    (schema : Schema) (d : Datom)
    → ((validate_datom d (get_attribute d.attribute schema) ≡ ok tt) × IsTyped schema d)
      ⊎ ((e : TxValidationError) × (validate_datom d (get_attribute d.attribute schema) ≡ err e)
          × IsBlamed schema d e)
datom_verdict schema d = elim (Option-cases (get_attribute d.attribute schema)) [
  | inl h ↦ inr (unknown_attribute d.attribute, rw h refl, inl (h, refl))
  | inr (def, h) ↦ elim (Bool-cases (value_matches_type d.value def.value_type)) [
    | inl m ↦ inl (rw (h, validate_datom, m) refl, (def, h, matches_type d.value def.value_type m))
    | inr m ↦ inr (
      schema_violation d.attribute def.value_type d.value,
      rw (h, validate_datom, m) refl,
      inr (def, h, (λ same. mismatch d.value def.value_type m same), refl),
    )
  ]
]
  where
    mismatch : (v : Value) (t : ValueType) → value_matches_type v t ≡ false → type_of v ≢ t
    mismatch v t m same = let yes = matches_type_self v in cc

validate_verdict :
    (schema : Schema) (datoms : List Datom)
    → ((validate_datoms datoms schema ≡ ok tt) × All (IsTyped schema) datoms)
      ⊎ ((e : TxValidationError) × (validate_datoms datoms schema ≡ err e)
          × Refusal schema datoms e)
unfolding validate_datoms
validate_verdict schema [] = inl (refl, tt)
validate_verdict schema (d ∷ datoms) = elim (datom_verdict schema d) [
  | inr (e, h, blamed) ↦ inr (
    e,
    rw h refl,
    record { before = []; datom = d; after = datoms; split = refl; typed = tt; blamed = blamed },
  )
  | inl (h, typed) ↦ elim (validate_verdict schema datoms) [
    | inl (rest, all) ↦ inl (rw h rest, (typed, all))
    | inr (e, rest, r) ↦ inr (
      e,
      rw h rest,
      record {
        before = d ∷ r.before;
        datom = r.datom;
        after = r.after;
        split = ap (λ l. d ∷ l) r.split;
        typed = (typed, r.typed);
        blamed = r.blamed;
      },
    )
  ]
]

-- A commit either succeeds, with the node and the datoms as they were, and then every datom has an
-- attribute that the schema knows and a value of its type; or it fails with the error of the first
-- datom for which this is not so.
pub commit_verdict :
    (t : Building) (schema : Schema)
    → ((commit t schema ≡ ok (record { node = t.node; datoms = t.datoms }))
        × All (IsTyped schema) t.datoms)
      ⊎ ((e : TxValidationError) × (commit t schema ≡ err e) × Refusal schema t.datoms e)
unfolding commit
commit_verdict t schema = elim (validate_verdict schema t.datoms) [
  | inl (h, all) ↦ inl (rw h refl, all)
  | inr (e, h, r) ↦ inr (e, rw h refl, r)
]
