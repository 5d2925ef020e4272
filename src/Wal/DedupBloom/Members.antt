-- ===== src/Wal/DedupBloom/Members.antt =====
-- The filter has no false negatives, and an empty filter contains nothing (INV-FERR-084).
use ferratomic.Prelude.{
  ℕ, zero, suc, ◌/◌, ◌%◌, ◌^◌, ◌<◌, ◌≡◌, ◌≢◌, refl, ◌∙◌, true, false, List, [], ◌∷◌, ◌++◌, All,
  length, get_or, length-set, get_or-set_self, get_or-set_ne, arith,
}
use ferratomic.Prelude.Bits.{bit, bit-bit_or, bit_pow, bit-shift}
use ferratomic.Prelude.Bytes.{Bytes}
use ferratomic.Wal.DedupBloom.{
  bloom_words, hashes, WalDedupBloom, indices_from, hash_indices, get_bit, set_bit, all_set,
  set_all, probably_contains, insert, zeroed, clear,
}
use Prim.Native.Nat.{bit_or}
use native.Mathlib.Decide.{ℕ_discrete}

-- The words of a filter.
abbrev pub IsBloom : WalDedupBloom → Type 0
IsBloom b = length b.bits ≡ bloom_words

abbrev InBounds : List ℕ → ℕ → Type 0
InBounds bits idx = idx / 64 < length bits

get_bit_lem : (bits : List ℕ) (i : ℕ) → get_bit bits i ≡ bit (get_or bits (i / 64) 0) (i % 64)
unfolding get_bit
get_bit_lem bits i = bit-shift (get_or bits (i / 64) 0) (i % 64)

length-set_bit : (bits : List ℕ) (i : ℕ) → length (set_bit bits i) ≡ length bits
unfolding set_bit
length-set_bit bits i = length-set bits (i / 64) _

word_of_set :
    (bits : List ℕ) (i : ℕ)
    → InBounds bits i
    → get_or (set_bit bits i) (i / 64) 0 ≡ bit_or (get_or bits (i / 64) 0) (2 ^ (i % 64))
unfolding set_bit
word_of_set bits i h = get_or-set_self bits (i / 64) _ 0 h

get_bit-set_bit_self : (bits : List ℕ) (i : ℕ) → InBounds bits i → get_bit (set_bit bits i) i ≡ true
get_bit-set_bit_self bits i h =
    let word : ℕ = get_or bits (i / 64) 0 in
    rw
      (get_bit_lem, word_of_set bits i h, bit-bit_or word (2 ^ (i % 64)) (i % 64), bit_pow (i % 64))
      (ground arith)

same_word :
    (bits : List ℕ) (i j : ℕ)
    → InBounds bits i
    → i / 64 ≡ j / 64
    → get_bit bits j ≡ true
    → get_bit (set_bit bits i) j ≡ true
same_word bits i j h e set_before =
    let old : bit (get_or bits (i / 64) 0) (j % 64) ≡ true = rw (get_bit_lem, ← e) at set_before in
    rw (get_bit_lem, ← e, word_of_set bits i h, bit-bit_or) (ground (arith, old))

other_word :
    (bits : List ℕ) (i j : ℕ)
    → i / 64 ≢ j / 64
    → get_or (set_bit bits i) (j / 64) 0 ≡ get_or bits (j / 64) 0
unfolding set_bit
other_word bits i j ne = get_or-set_ne bits (i / 64) (j / 64) _ 0 ne

get_bit-set_bit_keeps :
    (bits : List ℕ) (i j : ℕ)
    → InBounds bits i
    → get_bit bits j ≡ true
    → get_bit (set_bit bits i) j ≡ true
get_bit-set_bit_keeps bits i j h set_before = elim (ℕ_discrete (i / 64) (j / 64)) [
  | yes e ↦ same_word bits i j h e set_before
  | no ne ↦ rw (get_bit_lem, other_word bits i j ne) (rw get_bit_lem at set_before)
]

abbrev AllInBounds : List ℕ → List ℕ → Type 0
AllInBounds bits idxs = All (InBounds bits) idxs

InBounds-set_bit :
    (bits idxs : List ℕ) (i : ℕ) → AllInBounds bits idxs → AllInBounds (set_bit bits i) idxs
InBounds-set_bit bits [] i h = tt
InBounds-set_bit bits (j ∷ idxs) i h =
    (rw (length-set_bit bits i) h.0, InBounds-set_bit bits idxs i h.1)

get_bit-set_all :
    (bits idxs : List ℕ) (j : ℕ)
    → AllInBounds bits idxs
    → get_bit bits j ≡ true
    → get_bit (set_all bits idxs) j ≡ true
unfolding set_all
get_bit-set_all bits [] j h b = b
get_bit-set_all bits (i ∷ idxs) j h b =
    get_bit-set_all (set_bit bits i) idxs j (InBounds-set_bit bits idxs i h.1)
      (get_bit-set_bit_keeps bits i j h.0 b)

all_set-set_all_self :
    (bits idxs : List ℕ) → AllInBounds bits idxs → all_set (set_all bits idxs) idxs ≡ true
unfolding set_all all_set
all_set-set_all_self bits [] h = refl
all_set-set_all_self bits (i ∷ idxs) h = ground (
  arith,
  get_bit-set_all (set_bit bits i) idxs i (InBounds-set_bit bits idxs i h.1)
      (get_bit-set_bit_self bits i h.0),
  all_set-set_all_self (set_bit bits i) idxs (InBounds-set_bit bits idxs i h.1),
)

all_set-set_all :
    (bits idxs others : List ℕ)
    → AllInBounds bits idxs
    → all_set bits others ≡ true
    → all_set (set_all bits idxs) others ≡ true
unfolding all_set
all_set-set_all bits idxs [] h b = refl
all_set-set_all bits idxs (j ∷ others) h b =
    ground (arith, get_bit-set_all bits idxs j h, all_set-set_all bits idxs others h)

length-set_all : (bits idxs : List ℕ) → length (set_all bits idxs) ≡ length bits
unfolding set_all
length-set_all bits [] = refl
length-set_all bits (i ∷ idxs) = length-set_all (set_bit bits i) idxs ∙ length-set_bit bits i

indices_in :
    (bits : List ℕ) (k i h1 h2 : ℕ)
    → length bits ≡ bloom_words
    → AllInBounds bits (indices_from k i h1 h2)
unfolding indices_from
indices_in bits zero i h1 h2 e = tt
indices_in bits (suc k) i h1 h2 e = (omega arith, indices_in bits k (suc i) h1 h2 e)

hash_indices_in : (b : WalDedupBloom) (h : Bytes) → IsBloom b → AllInBounds b.bits (hash_indices h)
unfolding hash_indices
hash_indices_in b h e = indices_in b.bits hashes 0 _ _ e

pub insert-IsBloom : (b : WalDedupBloom) (h : Bytes) → IsBloom b → IsBloom (insert b h)
unfolding insert
insert-IsBloom b h e = length-set_all b.bits (hash_indices h) ∙ e

insert_contains :
    (b : WalDedupBloom) (h : Bytes) → IsBloom b → probably_contains (insert b h) h ≡ true
unfolding insert probably_contains
insert_contains b h e = all_set-set_all_self b.bits (hash_indices h) (hash_indices_in b h e)

insert_keeps :
    (b : WalDedupBloom) (h g : Bytes)
    → IsBloom b
    → probably_contains b g ≡ true
    → probably_contains (insert b h) g ≡ true
unfolding insert probably_contains
insert_keeps b h g e =
    all_set-set_all b.bits (hash_indices h) (hash_indices g) (hash_indices_in b h e)

-- The filter after a sequence of inserts.
abbrev pub insert_each : WalDedupBloom → List Bytes → WalDedupBloom
insert_each b [] = b
insert_each b (h ∷ hs) = insert_each (insert b h) hs

each_keeps :
    (b : WalDedupBloom) (hs : List Bytes) (g : Bytes)
    → IsBloom b
    → probably_contains b g ≡ true
    → probably_contains (insert_each b hs) g ≡ true
each_keeps b [] g e c = c
each_keeps b (h ∷ hs) g e c =
    each_keeps (insert b h) hs g (insert-IsBloom b h e) (insert_keeps b h g e c)

-- A filter of the right size has no false negatives: after any inserts, every hash among them is
-- reported as contained.
pub no_false_negatives :
    (b : WalDedupBloom) (before : List Bytes) (h : Bytes) (after : List Bytes)
    → IsBloom b
    → probably_contains (insert_each b (before ++ h ∷ after)) h ≡ true
no_false_negatives b [] h after e =
    each_keeps (insert b h) after h (insert-IsBloom b h e) (insert_contains b h e)
no_false_negatives b (g ∷ before) h after e =
    no_false_negatives (insert b g) before h after (insert-IsBloom b g e)

get_or-zeroed : (words : List ℕ) (i : ℕ) → get_or (zeroed words) i 0 ≡ 0
unfolding zeroed
get_or-zeroed [] i = refl
get_or-zeroed (w ∷ words) zero = refl
get_or-zeroed (w ∷ words) (suc i) = get_or-zeroed words i

zero_bit : (i : ℕ) → bit 0 i ≡ false
unfolding bit
zero_bit zero = refl
zero_bit (suc i) = zero_bit i

-- A cleared filter reports no hash as contained, and counts from zero again.
clear_contains_nothing :
    (b : WalDedupBloom) (h : Bytes)
    → (probably_contains (clear b) h ≡ false) × ((clear b).count ≡ 0)
unfolding probably_contains clear all_set hash_indices indices_from
clear_contains_nothing b h = (rw (get_bit_lem, get_or-zeroed, zero_bit) refl, refl)
