-- ===== src/Examples/Observers.antt =====
-- Commits published to a filtered observer, and two published in the wrong order.
use ferratomic.Prelude.{◌≡◌, refl, inl, inr, some, List, [], ◌∷◌, get_elem?, arith}
use ferratomic.Observer.{
  RegisteredObserver, ObserverBroadcast, new, register_impl, Commit, publish_all,
}
use ferratomic.Observer.InOrder.{IsAscending, IsServed, publish_all-IsServed}
use ferratomic.Observer.Late.{behind, ahead, commit_of, late_commit_lost}
use ferratomic.Examples.Selections.{fact, ours, shared}

abbrev commits : List Commit
commits =
    commit_of 1 (fact (0x61 ∷ []) ∷ []) (fact (0x61 ∷ []) ∷ [])
    ∷ commit_of 3 (fact (0x62 ∷ []) ∷ []) ours
    ∷ []

abbrev observer : RegisteredObserver
observer = record { received = []; last_seen_epoch = 0; filter = some shared }

abbrev broadcast : ObserverBroadcast
broadcast = record { observers = observer ∷ []; recent = []; max_buffer = 1024 }

registered : register_impl (some shared) 0 [] (new 1024) ≡ broadcast
unfolding register_impl new
registered = refl

commits-IsAscending : IsAscending 0 commits
commits-IsAscending = (
  omega arith,
  (λ d h. h),
  (omega arith, (λ d h. elim h [ inl e ↦ inr (inl e) | inr n ↦ absurd n ]), tt),
)

publish_all-IsServed_example :
    (s : RegisteredObserver) × (get_elem? (publish_all commits broadcast).observers 0 ≡ some s)
    × IsServed commits observer s
publish_all-IsServed_example =
    publish_all-IsServed commits broadcast 0 observer (omega arith) refl commits-IsAscending

-- Two observers: one that has seen the fifth epoch, and a filtered one behind it
abbrev two_observers : ObserverBroadcast
two_observers = record {
  observers =
      record { received = []; last_seen_epoch = 4; filter = some shared } ∷ behind 5 [] ∷ [];
  recent = record { epoch = 4; datoms = [] } ∷ record { epoch = 5; datoms = [] } ∷ [];
  max_buffer = 1024;
}

late_commit_lost_example :
    get_elem?
      (publish_all
        (commit_of 7 (fact (0x62 ∷ []) ∷ []) ours ∷ commit_of 6 (fact (0x61 ∷ []) ∷ []) ours ∷ [])
        two_observers).observers
      1
    ≡ some (ahead 5 [] (fact (0x62 ∷ []) ∷ []))
late_commit_lost_example =
    late_commit_lost 5 [] two_observers (record { epoch = 4; datoms = [] })
      (record { epoch = 5; datoms = [] } ∷ []) refl (omega arith) (omega arith, (omega arith, tt))
      (omega arith) 1 (fact (0x61 ∷ []) ∷ []) (fact (0x62 ∷ []) ∷ []) ours ours refl
