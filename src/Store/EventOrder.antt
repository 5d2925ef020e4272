-- ===== src/Store/EventOrder.antt =====
-- The later of two events: commutative, associative and idempotent (merge.rs).
use ferratomic.Prelude.{◌≡◌, refl, ap, Option, none, some, arith}
use ferratomic.Clock.TxId.{tx_lt, tx_gt, tx_eq, tx_refl, tx_trans}
use ferratomic.Datom.Types.{Op, assert, retract}
use ferratomic.Store.OrdMap.{united}
use ferratomic.Store.Causal.{Event, max_op, max_event}

max_op_comm : (p q : Op) → max_op p q ≡ max_op q p
max_op_comm assert assert = refl
max_op_comm assert retract = refl
max_op_comm retract assert = refl
max_op_comm retract retract = refl

max_op_idem : (p : Op) → max_op p p ≡ p
max_op_idem assert = refl
max_op_idem retract = refl

max_op_assoc : (p q r : Op) → max_op (max_op p q) r ≡ max_op p (max_op q r)
max_op_assoc assert q r = refl
max_op_assoc retract q r = refl

max_event_comm : (e f : Event) → max_event e f ≡ max_event f e
unfolding max_event
max_event_comm (s, p) (t, q) =
    ground (arith, tx_lt s t, tx_gt s t, tx_eq s t, tx_refl s, max_op_comm p q)

max_event_idem : (e : Event) → max_event e e ≡ e
unfolding max_event
max_event_idem (s, p) = ground (arith, tx_refl s, max_op_idem p)

max_event_assoc : (e f g : Event) → max_event (max_event e f) g ≡ max_event e (max_event f g)
unfolding max_event
max_event_assoc (s, p) (t, q) (u, r) = ground (
  arith,
  tx_lt s t,
  tx_gt s t,
  tx_lt t u,
  tx_gt t u,
  tx_lt s u,
  tx_gt s u,
  tx_eq s t,
  tx_eq t u,
  tx_eq s u,
  tx_trans s t u,
  tx_trans u t s,
  max_op_assoc p q r,
)

pub events_comm : (x y : Option Event) → united max_event x y ≡ united max_event y x
events_comm none none = refl
events_comm none (some y) = refl
events_comm (some x) none = refl
events_comm (some x) (some y) = ap some (max_event_comm x y)

pub events_idem : (x : Option Event) → united max_event x x ≡ x
events_idem none = refl
events_idem (some x) = ap some (max_event_idem x)

pub events_assoc :
    (x y z : Option Event)
    → united max_event (united max_event x y) z ≡ united max_event x (united max_event y z)
events_assoc none y z = refl
events_assoc (some x) none z = refl
events_assoc (some x) (some y) none = refl
events_assoc (some x) (some y) (some z) = ap some (max_event_assoc x y z)
