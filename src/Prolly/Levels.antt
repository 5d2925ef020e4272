-- ===== src/Prolly/Levels.antt =====
-- The recursion of `build_internal_nodes` ends at a single root (build.rs).
use ferratomic.Prelude.{
  ℕ, min, zero, suc, ◌+◌, ◌<◌, ◌≤◌, ◌≡◌, refl, ap, inl, inr, Option, some, List, [], ◌∷◌, ◌==◌,
  length, arith, Bool-cases,
}
use ferratomic.Prelude.Bytes.{Bytes}
use ferratomic.Prelude.Results.{Result, ok, err}
use ferratomic.Prolly.Boundary.{is_empty, split_at_boundaries}
use ferratomic.Prolly.Build.{
  FerraError, ChunkStore, Entry, entry_key, serialize_leaf_chunk, serialize_internal_chunk,
  put_group, put_groups, prepend, separator, only_addr, then_put, then_build, build_internal_nodes,
  build_prolly_tree,
}
use ferratomic.Prolly.Split.{
  concat, split_at_boundaries-IsSized, length-le_concat, length-lt_concat,
}

nonempty {ℓ} : {A : Type ℓ} (gs : List (List A)) → 1 ≤ length (concat gs) → 1 ≤ length gs
unfolding concat
nonempty [] b = omega arith
nonempty (g ∷ gs) b = omega arith

module _ (table : ℕ → ℕ) (pattern_width : ℕ) where
  abbrev groups_of : List Entry → List (List Entry)
  groups_of = split_at_boundaries table pattern_width entry_key

  -- Each level above is shorter, and none is empty.
  groups_fewer :
      (entries : List Entry) → 2 ≤ length entries → length (groups_of entries) < length entries
  groups_fewer entries b =
      let (all, sized) = split_at_boundaries-IsSized table pattern_width entry_key entries in
      let same : length (concat (groups_of entries)) ≡ length entries = ap length all in
      omega (arith, same, length-lt_concat (groups_of entries) sized (omega arith))

  groups_within : (entries : List Entry) → length (groups_of entries) ≤ length entries
  groups_within entries =
      let (all, sized) = split_at_boundaries-IsSized table pattern_width entry_key entries in
      let same : length (concat (groups_of entries)) ≡ length entries = ap length all in
      omega (arith, same, length-le_concat (groups_of entries) sized)

  groups_nonempty : (entries : List Entry) → 1 ≤ length entries → 1 ≤ length (groups_of entries)
  groups_nonempty entries b =
      let (all, sized) = split_at_boundaries-IsSized table pattern_width entry_key entries in
      let same : length (concat (groups_of entries)) ≡ length entries = ap length all in
      nonempty (groups_of entries) (omega arith)

module _ {ℓ κ} {S : Type ℓ} {X : Type κ} (chunk_store : ChunkStore S X)
    (blake : Bytes → Bytes) where
  -- A pass that succeeds has `n` addresses.
  abbrev Addresses : ℕ → S × Result (FerraError X) (List Entry) → Type 0
  Addresses n (s, ok addrs) = length addrs ≡ n
  Addresses n (s, err x) = Unit

  abbrev Ends : S × Option (Result (FerraError X) Bytes) → Type κ
  Ends outcome = (r : Result (FerraError X) Bytes) × (outcome.1 ≡ some r)

  prepend-Addresses :
      (n : ℕ) (sep addr : Bytes) (p : S × Result (FerraError X) (List Entry))
      → Addresses n p
      → Addresses (suc n) (prepend chunk_store blake sep addr p)
  prepend-Addresses n sep addr (s, ok addrs) h = ap suc h
  prepend-Addresses n sep addr (s, err x) h = tt

  then_put-Addresses :
      (n : ℕ) (group : List Entry) (go_on : S → S × Result (FerraError X) (List Entry))
      (p : S × Result (FerraError X) Bytes)
      → ((s : S) → Addresses n (go_on s))
      → Addresses (suc n) (then_put chunk_store blake group go_on p)
  then_put-Addresses n group go_on (s, ok addr) h =
      prepend-Addresses n (separator group) addr (go_on s) (h s)
  then_put-Addresses n group go_on (s, err x) h = tt

  put_groups-Addresses :
      (serialize : List Entry → Result (FerraError X) Bytes) (groups : List (List Entry)) (s : S)
      → Addresses (length groups) (put_groups chunk_store blake serialize groups s)
  unfolding put_groups
  put_groups-Addresses serialize [] s = refl
  put_groups-Addresses serialize (group ∷ groups) s =
      then_put-Addresses (length groups) group (put_groups chunk_store blake serialize groups)
        (put_group chunk_store blake s (serialize group)) (put_groups-Addresses serialize groups)

  then_build-Ends :
      (n : ℕ) (go_on : List Entry → S → S × Option (Result (FerraError X) Bytes))
      (p : S × Result (FerraError X) (List Entry))
      → Addresses n p
      → ((addrs : List Entry) (s : S) → length addrs ≡ n → Ends (go_on addrs s))
      → Ends (then_build chunk_store blake go_on p)
  then_build-Ends n go_on (s, ok addrs) h ends = ends addrs s h
  then_build-Ends n go_on (s, err x) h ends = (err x, refl)

  module _ (table : ℕ → ℕ) (pattern_width : ℕ) where
    build_internal_nodes-Ends :
        (fuel level : ℕ) (children : List Entry) (s : S)
        → 1 ≤ length children
        → length children ≤ fuel
        → Ends (build_internal_nodes chunk_store blake table pattern_width fuel level children s)
    unfolding build_internal_nodes
    build_internal_nodes-Ends zero level children s one b = absurd (omega arith)
    build_internal_nodes-Ends (suc fuel) level children s one b =
        let groups : List (List Entry) = groups_of table pattern_width children in
        elim (Bool-cases (length children == 1)) [
          | inl single ↦ rw single (ok (only_addr children), refl)
          | inr more ↦ rw more (
              then_build-Ends (length groups)
                (build_internal_nodes chunk_store blake table pattern_width fuel
                  (min 255 (level + 1)))
                (put_groups chunk_store blake (serialize_internal_chunk level) groups s)
                (put_groups-Addresses (serialize_internal_chunk level) groups s)
                (λ addrs t e.
                  build_internal_nodes-Ends fuel (min 255 (level + 1)) addrs t
                    (omega (arith, groups_nonempty table pattern_width children one))
                    (omega (arith, groups_fewer table pattern_width children (ground arith)))))
        ]

    -- With one unit of fuel for each entry, building the tree ends with a result, an address or an error,
    -- whatever the store and the hashes answer.
    pub build_prolly_tree-ends :
        (kvs : List Entry) (s : S)
        → (r : Result (FerraError X) Bytes) × ((build_prolly_tree chunk_store blake table
              pattern_width
              (length kvs)
              kvs
              s).1
            ≡ some r)
    unfolding build_prolly_tree is_empty
    build_prolly_tree-ends [] s =
        ((put_group chunk_store blake s (serialize_leaf_chunk [])).1, refl)
    build_prolly_tree-ends (kv ∷ kvs) s =
        let groups : List (List Entry) = groups_of table pattern_width (kv ∷ kvs) in
        then_build-Ends (length groups)
          (build_internal_nodes chunk_store blake table pattern_width (length (kv ∷ kvs)) 1)
          (put_groups chunk_store blake serialize_leaf_chunk groups s)
          (put_groups-Addresses serialize_leaf_chunk groups s)
          (λ addrs t e.
            build_internal_nodes-Ends (length (kv ∷ kvs)) 1 addrs t
              (omega (arith, groups_nonempty table pattern_width (kv ∷ kvs) (omega arith)))
              (omega (arith, groups_within table pattern_width (kv ∷ kvs))))
