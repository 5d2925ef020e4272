-- ===== src/Prolly/Stored.antt =====
-- What a store of chunks holds of a tree (ferratomic-core/src/prolly: chunk.rs, read.rs, INV-FERR-045).
use ferratomic.Prelude.{
  ℕ, ◌≤◌, ◌≡◌, refl, sym, ap, ◌∙◌, some, List, [], ◌∷◌, ◌++◌, map, append-nil, append_assoc, length,
  arith,
}
use ferratomic.Prelude.Bytes.{Bytes}
use ferratomic.Prelude.Results.{ok}
use ferratomic.Prolly.Build.{ChunkStore, Entry}
use ferratomic.Prolly.ReadTree.{read_each, read_subtree_vec}
use ferratomic.Prolly.ChildRead.{IsHashed}

-- What a content-addressed store promises: what was put is there, and stays.
pub record IsChunkStore {ℓ κ} {S : Type ℓ} {X : Type κ} (chunk_store : ChunkStore S X)
    (blake : Bytes → Bytes) : Type (ℓ ⊔ κ) where
  pub put_get :
      (s t : S) (content stored : Bytes)
      → chunk_store.put_chunk s (blake content) content ≡ (t, ok stored)
      → chunk_store.get_chunk t (blake content) ≡ ok (some content)
  pub put_keeps :
      (s t : S) (content stored addr other : Bytes)
      → chunk_store.put_chunk s (blake content) content ≡ (t, ok stored)
      → chunk_store.get_chunk s addr ≡ ok (some other)
      → chunk_store.get_chunk t addr ≡ ok (some other)

module _ {ℓ κ} {S : Type ℓ} {X : Type κ} (chunk_store : ChunkStore S X) where
  -- `t` has the chunks of `s`.
  abbrev pub Grows : S → S → Type κ
  Grows s t =
      (addr content : Bytes)
      → chunk_store.get_chunk s addr ≡ ok (some content)
      → chunk_store.get_chunk t addr ≡ ok (some content)

  -- With `n` units of fuel or more, the subtree gives these entries, also when chunks are added.
  abbrev pub Reads : ℕ → S → Bytes → List Entry → Type (ℓ ⊔ κ)
  Reads n s addr es =
      (t : S) (m : ℕ) (result : List Entry)
      → Grows s t
      → n ≤ m
      → read_subtree_vec chunk_store t m addr result ≡ some (ok (result ++ es))

  pub Reads-Grows :
      (n k : ℕ) (s t : S) (addr : Bytes) (es : List Entry)
      → Grows s t
      → n ≤ k
      → Reads n s addr es
      → Reads k t addr es
  Reads-Grows n k s t addr es g more h u m result grows le =
      h u m result (λ a content e. grows a content (g a content e)) (omega (arith, le, more))

  -- The subtrees of a level give these entries, one behind the other.
  abbrev pub ReadsAll : ℕ → S → List Entry → List Entry → Type (ℓ ⊔ κ)
  ReadsAll n s [] es = ◌≡◌ {A = List Entry} es [] × Unit {ℓ ⊔ κ}
  ReadsAll n s (c ∷ children) es =
      (front back : List Entry) × (es ≡ front ++ back)
      × (length c.1 ≡ 32)
      × Reads n s c.1 front
      × ReadsAll n s children back

  pub ReadsAll-Grows :
      (n : ℕ) (s t : S) (children es : List Entry)
      → Grows s t
      → ReadsAll n s children es
      → ReadsAll n t children es
  ReadsAll-Grows n s t [] es g h = h
  ReadsAll-Grows n s t (c ∷ children) es g (front, back, e, size, h, more) = (
    front,
    back,
    e,
    size,
    Reads-Grows n n s t c.1 front g (omega arith) h,
    ReadsAll-Grows n s t children back g more,
  )

  pub ReadsAll-split :
      (n : ℕ) (s : S) (xs ys es : List Entry)
      → ReadsAll n s (xs ++ ys) es
      → (front back : List Entry) × (es ≡ front ++ back)
        × ReadsAll n s xs front
        × ReadsAll n s ys back
  ReadsAll-split n s [] ys es h = ([], es, refl, (refl, tt), h)
  ReadsAll-split n s (c ∷ xs) ys es (a, b, e, size, h, more) =
      let (front, back, split, f, g) = ReadsAll-split n s xs ys b more in
      (
        a ++ front,
        back,
        e ∙ ap (λ l. a ++ l) split ∙ sym (append_assoc a front back),
        (a, front, refl, size, h, f),
        g,
      )

  pub ReadsAll-IsHashed :
      (n : ℕ) (s : S) (children es : List Entry) → ReadsAll n s children es → IsHashed children
  ReadsAll-IsHashed n s [] es h = tt
  ReadsAll-IsHashed n s (c ∷ children) es (front, back, e, size, h, more) =
      (size, ReadsAll-IsHashed n s children back more)

  pub read_each-ReadsAll :
      (n : ℕ) (s t : S) (m : ℕ) (children es result : List Entry)
      → Grows s t
      → n ≤ m
      → ReadsAll n s children es
      → read_each (read_subtree_vec chunk_store t m) (map (λ c. c.1) children) result
        ≡ some (ok (result ++ es))
  unfolding read_each
  read_each-ReadsAll n s t m [] es result g le h = rw (h.0, append-nil result) refl
  read_each-ReadsAll n s t m (c ∷ children) es result g le (front, back, e, size, h, more) =
      rw (h t m result g le, e, ← append_assoc result front back)
        (read_each-ReadsAll n s t m children back (result ++ front) g le more)
