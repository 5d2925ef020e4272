-- ===== src/Prolly/ChildRead.antt =====
-- The addresses in an internal chunk that was written are read back (build.rs).
use ferratomic.Prelude.{
  ℕ, ◌+◌, ◌^◌, ◌<◌, ◌≡◌, refl, sym, ◌∙◌, inl, inr, List, [], ◌∷◌, ◌++◌, map, append_assoc,
  append-nil, ltb, length, length-append, All, arith, Bool-cases,
}
use ferratomic.Prelude.Bytes.{
  Bytes, to_le_bytes, from_le_bytes, from_le_bytes-to_le_bytes, length-to_le_bytes,
}
use ferratomic.Prelude.Results.{ok}
use ferratomic.Prolly.Build.{Entry, len_u32, children_from, serialize_internal_chunk}
use ferratomic.Prolly.LeafRead.{prefixed, differ, read_at}
use ferratomic.Prolly.ReadTree.{child_addrs, decode_child_addrs}

children_bytes : List Entry → Bytes
children_bytes [] = []
children_bytes (c ∷ children) = prefixed c.0 (c.1 ++ children_bytes children)

-- Separators that fit, and addresses of 32 bytes
abbrev Children : List Entry → Type 0
Children [] = Unit
Children (c ∷ children) = (length c.0 < 2 ^ 32) × Children children

abbrev pub IsHashed : List Entry → Type 0
IsHashed children = All (λ (c : Entry). length c.1 ≡ 32) children

module _ {κ} {X : Type κ} where
  written :
      (children : List Entry) (buf : Bytes) {out : Bytes}
      → children_from {X = X} buf children ≡ ok out
      → (out ≡ buf ++ children_bytes children) × Children children
  unfolding children_from len_u32 children_bytes prefixed
  written [] buf h = (cc (append-nil buf), tt)
  written ((k, v) ∷ children) buf {out = out} h =
      let lk : Bytes = to_le_bytes 4 (length k) in
      elim (Bool-cases (ltb (length k) (2 ^ 32))) [
        | inl a ↦
            let next : children_from {X = X} (buf ++ lk ++ k ++ v) children ≡ ok out = rw a at h in
            let (e, f) = written children (buf ++ lk ++ k ++ v) next in
            (e ∙ simp append_assoc refl, (ground arith, f))
        | inr a ↦ absurd (differ refl (rw a at h))
      ]

  child_addrs-children_bytes :
      (children : List Entry) (buf pre : Bytes) (pos : ℕ)
      → buf ≡ pre ++ children_bytes children
      → Children children
      → IsHashed children
      → pos ≡ length pre
      → child_addrs {X = X} buf (length children) pos ≡ ok (map (λ c. c.1) children)
  unfolding child_addrs children_bytes prefixed
  child_addrs-children_bytes [] buf pre pos e f h p = refl
  child_addrs-children_bytes ((k, v) ∷ children) buf pre pos e f h p =
      let lk : Bytes = to_le_bytes 4 (length k) in
      let rest : Bytes = children_bytes children in
      let nk : from_le_bytes lk ≡ length k = from_le_bytes-to_le_bytes 4 (length k) f.0 in
      let four : length lk ≡ 4 = length-to_le_bytes 4 (length k) in
      let e1 : buf ≡ (pre ++ lk) ++ (k ++ (v ++ rest)) =
        e ∙ sym (append_assoc pre lk (k ++ (v ++ rest))) in
      let front : Bytes = (pre ++ lk) ++ k in
      let e2 : buf ≡ front ++ (v ++ rest) = e1 ∙ sym (append_assoc (pre ++ lk) k (v ++ rest)) in
      let e3 : buf ≡ (front ++ v) ++ rest = e2 ∙ sym (append_assoc front v rest) in
      let p1 : pos + 4 + from_le_bytes lk ≡ length front =
        omega (arith, length-append (pre ++ lk) k, length-append pre lk) in
      let p2 : pos + 4 + from_le_bytes lk + 32 ≡ length (front ++ v) =
        omega (arith, length-append front v, h.0) in
      rw
        (
          read_at buf pre lk (k ++ (v ++ rest)) pos 4 e p (sym four),
          read_at buf front v rest (pos + 4 + from_le_bytes lk) 32 e2 p1 (sym h.0),
          child_addrs-children_bytes children buf (front ++ v) (pos + 4 + from_le_bytes lk + 32) e3
              f.1 h.1 p2,
        )
        refl

  -- An internal chunk starts with its tag, and its addresses are read back.
  pub decode_child_addrs-serialize_internal_chunk :
      (level : ℕ) (children : List Entry) {buf : Bytes}
      → IsHashed children
      → serialize_internal_chunk {X = X} level children ≡ ok buf
      → (content : Bytes) × (buf ≡ 0x02 ∷ content)
        × (decode_child_addrs {X = X} (0x02 ∷ content) ≡ ok (map (λ c. c.1) children))
  unfolding serialize_internal_chunk decode_child_addrs len_u32
  decode_child_addrs-serialize_internal_chunk level children {buf = buf} hashed h =
      let count : Bytes = to_le_bytes 4 (length children) in
      elim (Bool-cases (ltb (length children) (2 ^ 32))) [
        | inl a ↦
            let (e, f) = written children (0x02 ∷ level ∷ count) (rw a at h) in
            (level ∷ (count ++ children_bytes children), e, reads f (ground arith))
        | inr a ↦ absurd (differ refl (rw a at h))
      ]
    where
      count_bytes : Bytes
      count_bytes = to_le_bytes 4 (length children)

      reads :
          Children children
          → length children < 2 ^ 32
          → decode_child_addrs {X = X} (0x02 ∷ level ∷ (count_bytes ++ children_bytes children))
            ≡ ok (map (λ c. c.1) children)
      reads f b =
          let whole : Bytes = 0x02 ∷ level ∷ (count_bytes ++ children_bytes children) in
          let n : from_le_bytes count_bytes ≡ length children =
            from_le_bytes-to_le_bytes 4 (length children) b in
          rw
            (
              read_at whole (0x02 ∷ level ∷ []) count_bytes (children_bytes children) 2 4 refl refl
                  (sym (length-to_le_bytes 4 (length children))),
              n,
            )
            (child_addrs-children_bytes children whole (0x02 ∷ level ∷ count_bytes) 6 refl f hashed
              (omega (arith, length-to_le_bytes 4 (length children))))
