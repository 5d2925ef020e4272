-- ===== src/Clock/Frontier.antt =====
-- The vector clock (ferratom-clock/src/frontier.rs).
use ferratomic.Prelude.{
  ℕ, ◌≡◌, refl, sym, ap, ◌∙◌, Option, none, some, [], ◌∷◌, length, Ordering, inl, inr,
}
use ferratomic.Prelude.Order.{eq_cases, greater, greater_comm, greater_assoc, greater_idem}
use ferratomic.Prelude.TreeMap
use ferratomic.Prelude.TreeMap.{TreeMap, lookup, insert}
use ferratomic.Clock.TxId.{NodeId, node_ord, TxId, tx_cmp, tx_ord}

abbrev pub Frontier : Type 0
Frontier = TreeMap NodeId TxId

abbrev pub empty : Frontier
empty = []

-- `entry(node).or_insert(tx_id)`, and the write if `tx_id` is greater.
abbrev newer : TxId → Option TxId → TxId
newer tx none = tx
newer tx (some entry) = elim (tx_cmp tx entry) [ Ordering.gt ↦ tx | _ ↦ entry ]

unfoldable pub advance : NodeId → TxId → Frontier → Frontier
advance node tx f = insert node_ord node (newer tx (lookup node_ord node f)) f

unfoldable pub get : NodeId → Frontier → Option TxId
get node f = lookup node_ord node f

unfoldable pub merge : Frontier → Frontier → Frontier
merge f [] = f
merge f ((node, tx) ∷ other) = merge (advance node tx f) other

abbrev pub len : Frontier → ℕ
len f = length f

-- The frontiers that the operations build.
abbrev pub IsFrontier : Frontier → Type 0
IsFrontier f = TreeMap.IsSorted node_ord f

-- The later of what two frontiers know of one node.
abbrev pub join : Option TxId → Option TxId → Option TxId
join a none = a
join none (some b) = some b
join (some a) (some b) = some (greater tx_ord a b)

pub advance-IsFrontier :
    (node : NodeId) (tx : TxId) (f : Frontier) → IsFrontier f → IsFrontier (advance node tx f)
unfolding advance
advance-IsFrontier node tx f s = TreeMap.insert-IsSorted node_ord node _ f s

pub merge-IsFrontier : (f g : Frontier) → IsFrontier f → IsFrontier (merge f g)
unfolding merge
merge-IsFrontier f [] s = s
merge-IsFrontier f ((node, tx) ∷ g) s =
    merge-IsFrontier (advance node tx f) g (advance-IsFrontier node tx f s)

get_nothing : (n : NodeId) → get n empty ≡ none
unfolding get lookup
get_nothing n = refl

newer-join : (tx : TxId) (old : Option TxId) → some (newer tx old) ≡ join old (some tx)
newer-join tx none = refl
newer-join tx (some entry) = unfold greater in refl

get-advance_self :
    (n : NodeId) (tx : TxId) (f : Frontier) → get n (advance n tx f) ≡ join (get n f) (some tx)
unfolding get advance
get-advance_self n tx f =
    TreeMap.lookup-insert_self node_ord n _ f ∙ newer-join tx (lookup node_ord n f)

get-advance_ne :
    (n m : NodeId) (tx : TxId) (f : Frontier)
    → ¬ (node_ord.cmp n m ≡ Ordering.eq)
    → get n (advance m tx f) ≡ get n f
unfolding get advance
get-advance_ne n m tx f h = TreeMap.lookup-insert_ne node_ord n m _ f h

get_head : (n : NodeId) (tx : TxId) (f : Frontier) → get n ((n, tx) ∷ f) ≡ some tx
unfolding get
get_head n tx f = TreeMap.lookup_head node_ord n tx f

get_ne :
    (n m : NodeId) (tx : TxId) (f : Frontier)
    → ¬ (node_ord.cmp n m ≡ Ordering.eq)
    → get n ((m, tx) ∷ f) ≡ get n f
unfolding get
get_ne n m tx f h = TreeMap.lookup_ne node_ord n m tx f h

get-Above : (n : NodeId) (f : Frontier) → TreeMap.Above node_ord n f → get n f ≡ none
unfolding get
get-Above n f h = TreeMap.lookup-Above node_ord n f h

-- After a merge a frontier knows, at each node, the later of the two entries.
pub get-merge :
    (n : NodeId) (f g : Frontier) → IsFrontier g → get n (merge f g) ≡ join (get n f) (get n g)
unfolding merge
get-merge n f [] s = rw get_nothing refl
get-merge n f ((m, tx) ∷ g) s = elim (eq_cases node_ord n m) [
  | inl e ↦ cc (
    e,
    get-merge n (advance m tx f) g s.1,
    get-advance_self m tx f,
    get_head m tx g,
    get-Above m g s.0,
  )
  | inr h ↦ cc (get-merge n (advance m tx f) g s.1, get-advance_ne n m tx f h, get_ne n m tx g h)
]

join_comm : (a b : Option TxId) → join a b ≡ join b a
join_comm none none = refl
join_comm none (some b) = refl
join_comm (some a) none = refl
join_comm (some a) (some b) = ap some (greater_comm tx_ord a b)

join_assoc : (a b c : Option TxId) → join (join a b) c ≡ join a (join b c)
join_assoc none none none = refl
join_assoc none none (some c) = refl
join_assoc none (some b) none = refl
join_assoc none (some b) (some c) = refl
join_assoc (some a) none none = refl
join_assoc (some a) none (some c) = refl
join_assoc (some a) (some b) none = refl
join_assoc (some a) (some b) (some c) = ap some (greater_assoc tx_ord a b c)

join_idem : (a : Option TxId) → join a a ≡ a
join_idem none = refl
join_idem (some a) = ap some (greater_idem tx_ord a)

module _ (f g : Frontier) (sf : IsFrontier f) (sg : IsFrontier g) where
  ext : ((n : NodeId) → get n f ≡ get n g) → f ≡ g
  unfolding get
  ext h = TreeMap.ext node_ord f g sf sg h

merge_comm : (f g : Frontier) → IsFrontier f → IsFrontier g → merge f g ≡ merge g f
merge_comm f g sf sg =
    ext (merge f g) (merge g f) (merge-IsFrontier f g sf) (merge-IsFrontier g f sg)
      λ n. get-merge n f g sg ∙ join_comm (get n f) (get n g) ∙ sym (get-merge n g f sf)

merge_assoc :
    (f g h : Frontier)
    → IsFrontier f
    → IsFrontier g
    → IsFrontier h
    → merge (merge f g) h ≡ merge f (merge g h)
merge_assoc f g h sf sg sh =
    ext (merge (merge f g) h) (merge f (merge g h))
      (merge-IsFrontier (merge f g) h (merge-IsFrontier f g sf)) (merge-IsFrontier f (merge g h) sf)
      λ n. cc (
        get-merge n (merge f g) h sh,
        get-merge n f g sg,
        get-merge n f (merge g h) (merge-IsFrontier g h sg),
        get-merge n g h sh,
        join_assoc (get n f) (get n g) (get n h),
      )

merge_idem : (f : Frontier) → IsFrontier f → merge f f ≡ f
merge_idem f s =
    ext (merge f f) f (merge-IsFrontier f f s) s λ n. get-merge n f f s ∙ join_idem (get n f)

-- On frontiers that the operations build, `merge` gives at each node the later of the two entries,
-- and is commutative, associative and idempotent.
pub merge_semilattice :
    (f g h : Frontier)
    → IsFrontier f
    → IsFrontier g
    → IsFrontier h
    → ((n : NodeId) → get n (merge f g) ≡ join (get n f) (get n g))
      × (merge f g ≡ merge g f)
      × (merge (merge f g) h ≡ merge f (merge g h))
      × (merge f f ≡ f)
merge_semilattice f g h sf sg sh =
    ((λ n. get-merge n f g sg), merge_comm f g sf sg, merge_assoc f g h sf sg sh, merge_idem f sf)
