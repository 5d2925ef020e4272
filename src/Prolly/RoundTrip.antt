-- ===== src/Prolly/RoundTrip.antt =====
-- A tree that was built is read back (ferratomic-core/src/prolly: build.rs, read.rs, INV-FERR-049).
use ferratomic.Prelude.{
  ℕ, zero, suc, min, ◌+◌, ◌≤◌, ◌≡◌, refl, ap, ◌∙◌, inl, inr, ◌⊎◌, true, Option, none, some, List,
  [], ◌∷◌, ◌++◌, append-nil, length, ◌==◌, arith, Bool-cases,
}
use ferratomic.Prelude.Bytes.{Bytes}
use ferratomic.Prelude.Results.{Result, ok, err, step_cases}
use ferratomic.Prolly.Boundary.{is_empty, split_at_boundaries}
use ferratomic.Prolly.Build.{
  FerraError, ChunkStore, Entry, entry_key, serialize_leaf_chunk, serialize_internal_chunk,
  put_group, put_groups, only_addr, then_build, build_internal_nodes, build_prolly_tree,
}
use ferratomic.Prolly.Split.{concat, split_at_boundaries-IsSized}
use ferratomic.Prolly.Levels.{build_prolly_tree-ends}
use ferratomic.Prolly.Read.{keys_ascend}
use ferratomic.Prolly.ReadTree.{read_prolly_tree_vec}
use ferratomic.Prolly.Stored.{IsChunkStore, Grows, Reads, Reads-Grows, ReadsAll, ReadsAll-split}
use ferratomic.Prolly.Covers.{keys_ascend-append, leaf-Covers, internal-Covers}
use ferratomic.Prolly.Pass.{CoversAll, Passed, put_groups-Passed}

module _ {ℓ κ} {S : Type ℓ} {X : Type κ} (chunk_store : ChunkStore S X) (blake : Bytes → Bytes)
    (honest : IsChunkStore chunk_store blake)
    (sized : (content : Bytes) → length (blake content) ≡ 32) where
  leaves-CoversAll :
      (s : S) (groups : List (List Entry))
      → keys_ascend (concat groups) ≡ true
      → CoversAll chunk_store blake honest sized serialize_leaf_chunk 1 s groups (concat groups)
  unfolding concat
  leaves-CoversAll s [] h = (refl, tt)
  leaves-CoversAll s (group ∷ groups) h =
      let (front, back) = keys_ascend-append group (concat groups) h in
      (
        group,
        concat groups,
        refl,
        leaf-Covers chunk_store s group front,
        leaves-CoversAll s groups back,
      )

  children-CoversAll :
      (n level : ℕ) (s : S) (groups : List (List Entry)) (es : List Entry)
      → ReadsAll chunk_store n s (concat groups) es
      → CoversAll chunk_store blake honest sized
          (serialize_internal_chunk level)
          (suc n)
          s
          groups
          es
  unfolding concat
  children-CoversAll n level s [] es h = h
  children-CoversAll n level s (group ∷ groups) es h =
      let (front, back, e, f, g) = ReadsAll-split chunk_store n s group (concat groups) es h in
      (
        front,
        back,
        e,
        internal-Covers chunk_store n level s group front f,
        children-CoversAll n level s groups back g,
      )

  -- A tree that is built is read as these entries.
  abbrev Built : ℕ → S → List Entry → S × Option (Result (FerraError X) Bytes) → Type (ℓ ⊔ κ)
  Built n s es (t, none) = Unit
  Built n s es (t, some (err x)) = Unit
  Built n s es (t, some (ok root)) = Grows chunk_store s t × Reads chunk_store n t root es

  Built-Grows :
      (n : ℕ) (s t : S) (es : List Entry) (x : S × Option (Result (FerraError X) Bytes))
      → Grows chunk_store s t
      → Built n t es x
      → Built n s es x
  Built-Grows n s t es (u, none) g h = tt
  Built-Grows n s t es (u, some (err x)) g h = tt
  Built-Grows n s t es (u, some (ok root)) g (grows, h) = ((λ a c e. grows a c (g a c e)), h)

  then_build-Built :
      (n k : ℕ) (s : S) (es : List Entry)
      (go_on : List Entry → S → S × Option (Result (FerraError X) Bytes))
      (x : S × Result (FerraError X) (List Entry))
      → Passed chunk_store blake honest sized n s es x
      → ((addrs : List Entry) (t : S)
          → ReadsAll chunk_store n t addrs es
          → Built k t es (go_on addrs t))
      → Built k s es (then_build chunk_store blake go_on x)
  then_build-Built n k s es go_on (t, err x) h rest = tt
  then_build-Built n k s es go_on (t, ok addrs) (grows, h) rest =
      Built-Grows k s t es (go_on addrs t) grows (rest addrs t h)

  -- The empty leaf of an empty tree
  put_leaf-Built :
      (k : ℕ) (s : S) (r : Result (FerraError X) Bytes)
      → 1 ≤ k
      → serialize_leaf_chunk [] ≡ r
      → Built k s [] ((put_group chunk_store blake s r).0, some (put_group chunk_store blake s r).1)
  unfolding keys_ascend
  put_leaf-Built k s (err x) le e = tt
  put_leaf-Built k s (ok content) le e =
      elim (step_cases (chunk_store.put_chunk s (blake content) content)) [
        | inl (t, x, h) ↦ rw h tt
        | inr (t, stored, h) ↦
            let grows : Grows chunk_store s t =
              λ addr other g. honest.put_keeps s t content stored addr other h g in
            rw h (
              grows,
              Reads-Grows chunk_store 1 k t t (blake content) [] (λ addr other g. g) le
                  (leaf-Covers chunk_store s [] refl t (blake content) content grows e
                    (honest.put_get s t content stored h)),
            )
      ]

  module _ (table : ℕ → ℕ) (pattern_width : ℕ) where
    only_child :
        (n k : ℕ) (s : S) (children es : List Entry)
        → length children ≡ 1
        → n ≤ k
        → ReadsAll chunk_store n s children es
        → Reads chunk_store k s (only_addr children) es
    unfolding only_addr
    only_child n k s [] es one le h = absurd (omega (arith, one))
    only_child n k s (c ∷ d ∷ children) es one le h = absurd (omega (arith, one))
    only_child n k s (c ∷ []) es one le (front, back, e, size, h, (none_left, u)) =
        let same : es ≡ front = e ∙ ap (λ l. front ++ l) none_left ∙ append-nil front in
        rw same (Reads-Grows chunk_store n k s s c.1 front (λ addr content x. x) le h)

    build_internal_nodes-Built :
        (fuel n k level : ℕ) (children es : List Entry) (s : S)
        → fuel + n ≤ k
        → ReadsAll chunk_store n s children es
        → Built k s es
            (build_internal_nodes chunk_store blake table pattern_width fuel level children s)
    unfolding build_internal_nodes
    build_internal_nodes-Built zero n k level children es s le h = tt
    build_internal_nodes-Built (suc fuel) n k level children es s le h =
        let groups : List (List Entry) =
          split_at_boundaries table pattern_width entry_key children in
        let all : concat groups ≡ children =
          (split_at_boundaries-IsSized table pattern_width entry_key children).0 in
        elim (Bool-cases (length children == 1)) [
          | inl single ↦ rw single (
            (λ addr content e. e),
            only_child n k s children es (ground arith) (omega (arith, le)) h,
          )
          | inr more ↦ rw more (
              then_build-Built (suc n) k s es
                (build_internal_nodes chunk_store blake table pattern_width fuel
                  (min 255 (level + 1)))
                (put_groups chunk_store blake (serialize_internal_chunk level) groups s)
                (put_groups-Passed chunk_store blake honest sized (suc n)
                  (serialize_internal_chunk level) groups s es
                  (children-CoversAll n level s groups es (rw all h)))
                (λ addrs t r.
                  build_internal_nodes-Built fuel (suc n) k (min 255 (level + 1)) addrs es t
                    (omega (arith, le)) r))
        ]

    build_prolly_tree-Built :
        (fuel : ℕ) (kvs : List Entry) (s : S)
        → keys_ascend kvs ≡ true
        → Built
            (suc fuel)
            s
            kvs
            (build_prolly_tree chunk_store blake table pattern_width fuel kvs s)
    unfolding build_prolly_tree is_empty concat keys_ascend
    build_prolly_tree-Built fuel [] s asc =
        put_leaf-Built (suc fuel) s (serialize_leaf_chunk []) (omega arith) refl
    build_prolly_tree-Built fuel (kv ∷ kvs) s asc =
        let groups : List (List Entry) =
          split_at_boundaries table pattern_width entry_key (kv ∷ kvs) in
        let all : concat groups ≡ kv ∷ kvs =
          (split_at_boundaries-IsSized table pattern_width entry_key (kv ∷ kvs)).0 in
        let covers = leaves-CoversAll s groups (rw all asc) in
        then_build-Built 1 (suc fuel) s (kv ∷ kvs)
          (build_internal_nodes chunk_store blake table pattern_width fuel 1)
          (put_groups chunk_store blake serialize_leaf_chunk groups s)
          (put_groups-Passed chunk_store blake honest sized 1 serialize_leaf_chunk groups s
            (kv ∷ kvs) (rw all at covers))
          (λ addrs t r.
            build_internal_nodes-Built fuel 1 (suc fuel) 1 addrs (kv ∷ kvs) t (omega arith) r)

    -- The tree is read back as the entries, or it is not built because of an error.
    abbrev pub Returns : List Entry → S × Option (Result (FerraError X) Bytes) → Type κ
    Returns kvs x =
        ((e : FerraError X) × (x.1 ≡ some (err e)))
        ⊎ ((root : Bytes) × (x.1 ≡ some (ok root))
            × (read_prolly_tree_vec chunk_store x.0 (suc (length kvs)) root ≡ some (ok kvs)))

    Built-Returns :
        (kvs : List Entry) (s : S) (x : S × Option (Result (FerraError X) Bytes))
        → (r : Result (FerraError X) Bytes) × (x.1 ≡ some r)
        → Built (suc (length kvs)) s kvs x
        → Returns kvs x
    unfolding read_prolly_tree_vec
    Built-Returns kvs s (t, none) (r, e) h = cc
    Built-Returns kvs s (t, some (err x)) (r, e) h = inl (x, refl)
    Built-Returns kvs s (t, some (ok root)) (r, e) h =
        inr (root, refl, h.1 t (suc (length kvs)) [] (λ addr content x. x) (omega arith))

    -- Building a tree from entries whose keys ascend ends, with an error or with a root from which
    -- they are read back, with a fuel of one unit for each entry and one more for reading. The
    -- store keeps what is put and gives it back, and addresses are 32 bytes long.
    pub read_prolly_tree_vec-build_prolly_tree :
        (kvs : List Entry) (s : S)
        → keys_ascend kvs ≡ true
        → Returns kvs (build_prolly_tree chunk_store blake table pattern_width (length kvs) kvs s)
    read_prolly_tree_vec-build_prolly_tree kvs s asc =
        Built-Returns kvs s
          (build_prolly_tree chunk_store blake table pattern_width (length kvs) kvs s)
          (build_prolly_tree-ends chunk_store blake table pattern_width kvs s)
          (build_prolly_tree-Built (length kvs) kvs s asc)
