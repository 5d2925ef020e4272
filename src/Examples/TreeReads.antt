-- ===== src/Examples/TreeReads.antt =====
-- A prolly tree that is built in a store of chunks, and read back.
use ferratomic.Prelude.{
  ℕ, zero, suc, ◌≡◌, refl, ap, inl, inr, Bool-cases, Option, none, some, true, List, [], ◌∷◌, ◌++◌,
  if◌then◌else◌, length, take, replicate, length-take, length-append, length-replicate, arith,
}
use ferratomic.Prelude.Bytes.{Bytes, bytes_eq, bytes_eq_refl, eq_of_bytes_eq, to_le_bytes}
use ferratomic.Prelude.Results.{Result, ok, err}
use ferratomic.Prolly.Boundary.{
  is_boundary, is_empty, split_from, split_at_boundaries, gear_from, bit_and, bit_xor,
}
use ferratomic.Prolly.Build.{
  ChunkStore, Entry, len_u32, leaf_entries, serialize_leaf_chunk, children_from,
  serialize_internal_chunk, put_groups, separator, build_internal_nodes, build_prolly_tree,
  only_addr,
}
use ferratomic.Prolly.Read.{keys_ascend, bytes_less}
use ferratomic.Prolly.Stored.{IsChunkStore}
use ferratomic.Prolly.RoundTrip.{Returns, read_prolly_tree_vec-build_prolly_tree}

-- A store that finds what it was given, and refuses other content under an address it has
unfoldable at : Bytes → List Entry → Option Bytes
at addr [] = none
at addr (e ∷ s) = let rest = at addr s in if bytes_eq e.0 addr then some e.1 else rest

abbrev put_at : List Entry → Bytes → Bytes → Option Bytes → List Entry × Result ℕ Bytes
put_at s addr content none = ((addr, content) ∷ s, ok addr)
put_at s addr content (some other) = if bytes_eq other content then (s, ok addr) else (s, err 0)

abbrev checked : ChunkStore (List Entry) ℕ
checked = record {
  put_chunk = λ s addr content. put_at s addr content (at addr s);
  get_chunk = λ s addr. ok (at addr s);
}

abbrev first_bytes : Bytes → Bytes
first_bytes content = take 32 (content ++ replicate 32 0)

first_bytes-32 : (content : Bytes) → length (first_bytes content) ≡ 32
first_bytes-32 content =
    let longer = length-append content (replicate 32 0) in
    let zeros = length-replicate {A = ℕ} 32 0 in
    omega (arith, longer, zeros, length-take 32 (content ++ replicate 32 0))

at_first : (addr content : Bytes) (s : List Entry) → at addr ((addr, content) ∷ s) ≡ some content
unfolding at
at_first addr content s = rw bytes_eq_refl refl

at_behind :
    (addr a content other : Bytes) (s : List Entry)
    → at addr s ≡ none
    → at a s ≡ some other
    → at a ((addr, content) ∷ s) ≡ some other
unfolding at
at_behind addr a content other s h k = elim (Bool-cases (bytes_eq addr a)) [
  | inl b ↦
      let same : addr ≡ a = eq_of_bytes_eq addr a b in
      let absent : at a s ≡ none = rw same at h in cc
  | inr b ↦ rw b k
]

checked-IsChunkStore : IsChunkStore checked first_bytes
checked-IsChunkStore = record {
  put_get = λ s t content stored e.
      put_get s t (first_bytes content) content stored (at (first_bytes content) s) refl e;
  put_keeps = λ s t content stored addr other e h.
      put_keeps s t (first_bytes content) content stored addr other (at (first_bytes content) s)
        refl e h;
}
  where
    put_get :
        (s t : List Entry) (addr content stored : Bytes) (x : Option Bytes)
        → at addr s ≡ x
        → put_at s addr content x ≡ (t, ok stored)
        → ◌≡◌ {A = Result ℕ (Option Bytes)} (ok (at addr t)) (ok (some content))
    put_get s t addr content stored none h e =
        let new : (addr, content) ∷ s ≡ t = ap (λ y. y.0) e in
        rw (← new) (ap ok (at_first addr content s))
    put_get s t addr content stored (some other) h e = elim (Bool-cases (bytes_eq other content)) [
      | inl b ↦
          let same : s ≡ t = ap (λ y. y.0) (rw b at e) in
          rw (← same, h, eq_of_bytes_eq other content b) refl
      | inr b ↦ let bad = ap (λ y. y.1) (rw b at e) in cc
    ]

    put_keeps :
        (s t : List Entry) (addr content stored a other : Bytes) (x : Option Bytes)
        → at addr s ≡ x
        → put_at s addr content x ≡ (t, ok stored)
        → ◌≡◌ {A = Result ℕ (Option Bytes)} (ok (at a s)) (ok (some other))
        → ◌≡◌ {A = Result ℕ (Option Bytes)} (ok (at a t)) (ok (some other))
    put_keeps s t addr content stored a other none h e k =
        let new : (addr, content) ∷ s ≡ t = ap (λ y. y.0) e in
        let there : at a s ≡ some other = cc in
        rw (← new) (ap ok (at_behind addr a content other s h there))
    put_keeps s t addr content stored a other (some found) h e k =
        elim (Bool-cases (bytes_eq found content)) [
          | inl b ↦ let same : s ≡ t = ap (λ y. y.0) (rw b at e) in rw (← same) k
          | inr b ↦ let bad = ap (λ y. y.1) (rw b at e) in cc
        ]

-- Entries with the keys from `first` on
unfoldable numbered : ℕ → ℕ → List Entry
numbered first zero = []
numbered first (suc n) = (first ∷ [], 10 ∷ []) ∷ numbered (suc first) n

abbrev entries : List Entry
entries = numbered 0 40

entries_ascend : keys_ascend entries ≡ true
unfolding keys_ascend bytes_less numbered
entries_ascend = refl

-- The root is an internal chunk over two leaves.
abbrev root : Bytes
root =
    0x02 ∷ 1 ∷ 2 ∷ 0 ∷ 0 ∷ 0 ∷ 1 ∷ 0 ∷ 0 ∷ 0 ∷ 0 ∷ 0x01 ∷ 32 ∷ 0 ∷ 0 ∷ 0 ∷ 1 ∷ 0 ∷ 0 ∷ 0 ∷ 0 ∷ 1 ∷ 0
    ∷ 0 ∷ 0 ∷ 10 ∷ 1 ∷ 0 ∷ 0 ∷ 0 ∷ 1 ∷ 1 ∷ []

tree_root :
    (build_prolly_tree checked first_bytes (λ byte. byte) 0 40 entries []).1 ≡ some (ok root)
unfolding build_prolly_tree build_internal_nodes put_groups serialize_leaf_chunk leaf_entries
    serialize_internal_chunk children_from separator len_u32 split_at_boundaries split_from is_empty
    is_boundary bit_and gear_from bit_xor only_addr to_le_bytes numbered at bytes_eq
tree_root = refl

read_prolly_tree_vec-build_prolly_tree_example :
    Returns checked first_bytes checked-IsChunkStore first_bytes-32
      (λ byte. byte)
      0
      entries
      (build_prolly_tree checked first_bytes (λ byte. byte) 0 (length entries) entries [])
read_prolly_tree_vec-build_prolly_tree_example =
    read_prolly_tree_vec-build_prolly_tree checked first_bytes checked-IsChunkStore first_bytes-32
      (λ byte. byte) 0 entries [] entries_ascend
