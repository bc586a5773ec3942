-- ===== src/Task/Events.antt =====
-- The queues of child events of ape/state.rs: which event a wait takes, and what it leaves.
use ape.Base.{
  ℕ, ◌≡◌, refl, ap, ◌∙◌, inl, inr, true, false, ◌&&◌, ◌||◌, Option, none, some, List, [], ◌∷◌, ◌++◌,
  arith, All, is_empty, is_some, lookup, insert, remove, lookup-insert, lookup-remove, unwrap_or,
  ◌==◌, if◌then◌else◌, Option-cases, Bool-cases, ℤ,
}
use mathlib.Core.Path.{subst}
use ape.Task.State.{
  Queues, WaitQuery, ChildStateEvent, event_matches, push_event, any_event,
  has_child_event_matching, take_event, pop_child_event_matching,
}

-- No event before the one found matches, and the others keep their order.
abbrev pub Takes :
    WaitQuery → List ChildStateEvent → Option (ChildStateEvent × List ChildStateEvent) → Type 0
Takes q queue none = All (λ e. event_matches q e ≡ false) queue
Takes q queue (some (e, others)) =
    (before : List ChildStateEvent) × (after : List ChildStateEvent) × (queue ≡ before ++ e ∷ after)
    × (others ≡ before ++ after)
    × All (λ d. event_matches q d ≡ false) before
    × (event_matches q e ≡ true)

take_event-Takes :
    (q : WaitQuery) (queue : List ChildStateEvent) → Takes q queue (take_event q queue)
unfolding take_event
take_event-Takes q [] = tt
take_event-Takes q (e ∷ es) = elim (Bool-cases (event_matches q e)) [
  | inl hit ↦ rw hit ([], es, refl, refl, tt, hit)
  | inr miss ↦ rw miss (go miss (take_event q es) (take_event-Takes q es))
]
  where
    go :
        event_matches q e ≡ false
        → (r : Option (ChildStateEvent × List ChildStateEvent)) → Takes q es r
        → Takes q
            (e ∷ es)
            (elim r [ none ↦ none | some (found, others) ↦ some (found, e ∷ others) ])
    go miss none t = (miss, t)
    go miss (some (found, others)) (before, after, split, rest, early, found_hit) =
        (e ∷ before, after, ap (λ t. e ∷ t) split, ap (λ t. e ∷ t) rest, (miss, early), found_hit)

any-take_event :
    (q : WaitQuery) (queue : List ChildStateEvent)
    → any_event q queue ≡ is_some (take_event q queue)
unfolding any_event take_event
any-take_event q [] = refl
any-take_event q (e ∷ es) = ground (arith, any-take_event q es)

-- What is left to a parent of the events `others`.
abbrev pub stored : List ChildStateEvent → Option (List ChildStateEvent)
stored [] = none
stored (e ∷ es) = some (e ∷ es)

abbrev pub Pops : Queues → ℕ → WaitQuery → Option (ℕ × ℤ) × Queues → Type 0
Pops events parent q (none, events') =
    (events' ≡ events)
    × ((queue : List ChildStateEvent)
        → lookup parent events ≡ some queue
        → All (λ e. event_matches q e ≡ false) queue)
Pops events parent q (some (pid, status), events') =
    (before : List ChildStateEvent) × (e : ChildStateEvent) × (after : List ChildStateEvent)
    × (lookup parent events ≡ some (before ++ e ∷ after))
    × All (λ d. event_matches q d ≡ false) before
    × (event_matches q e ≡ true)
    × (pid ≡ e.child_pid)
    × (status ≡ e.wait_status)
    × ((k : ℕ)
        → lookup k events' ≡ (if parent == k then stored (before ++ after) else lookup k events))

store_others :
    (events : Queues) (parent k : ℕ) (others : List ChildStateEvent)
    → lookup k (
        if is_empty others
        then remove parent (insert parent others events)
        else insert parent others events)
      ≡ (if parent == k then stored others else lookup k events)
store_others events parent k [] =
    ground
      (arith, lookup-insert parent k [] events, lookup-remove parent k (insert parent [] events))
store_others events parent k (e ∷ es) = ground (arith, lookup-insert parent k (e ∷ es) events)

pop_found :
    (events : Queues) (parent : ℕ) (q : WaitQuery) (queue : List ChildStateEvent)
    → lookup parent events ≡ some queue
    → (r : Option (ChildStateEvent × List ChildStateEvent)) → Takes q queue r
    → Pops events parent q (elim r [
      | none ↦ (none, events)
      | some (e, others) ↦ (
        some (e.child_pid, e.wait_status),
        if is_empty others
            then remove parent (insert parent others events)
            else insert parent others events,
      )
    ])
pop_found events parent q queue found none t = (
  refl,
  λ queue' found'.
      subst (All λ e. event_matches q e ≡ false)
        (let same : queue ≡ queue' = cc (found, found') in same) t,
)
pop_found events parent q queue found (some (e, others)) (before, after, split, rest, early, hit) =
    (
      before,
      e,
      after,
      found ∙ ap some split,
      early,
      hit,
      refl,
      refl,
      λ k.
          store_others events parent k others
          ∙ ap (λ t. if parent == k then stored t else lookup k events) rest,
    )

-- A wait takes the first event of its parent that it asks for, returns the child and the status of
-- that event, and leaves the parent's other events in their order and every other parent's alone;
-- a parent whose last event was taken has no queue any more. It finds nothing only if no event of
-- the parent matches, and then changes nothing.
pub pop-Pops :
    (events : Queues) (parent : ℕ) (q : WaitQuery)
    → Pops events parent q (pop_child_event_matching events parent q)
unfolding pop_child_event_matching
pop-Pops events parent q = elim (Option-cases (lookup parent events)) [
  | inl e ↦ rw (e, pop_child_event_matching) (refl, λ queue found. cc)
  | inr (queue, e) ↦
      rw (e, pop_child_event_matching)
        (pop_found events parent q queue e (take_event q queue) (take_event-Takes q queue))
]

-- The test for an event and the removal of one agree.
pub has-pop :
    (events : Queues) (parent : ℕ) (q : WaitQuery)
    → has_child_event_matching events parent q
      ≡ is_some (pop_child_event_matching events parent q).0
unfolding has_child_event_matching pop_child_event_matching
has-pop events parent q = elim (Option-cases (lookup parent events)) [
  | inl e ↦ ground arith
  | inr (queue, e) ↦ ground (arith, any-take_event q queue)
]

any_event_none : (q : WaitQuery) → any_event q [] ≡ false
unfolding any_event
any_event_none q = refl

any_event-append :
    (q : WaitQuery) (xs : List ChildStateEvent) (e : ChildStateEvent)
    → any_event q (xs ++ e ∷ []) ≡ (any_event q xs || event_matches q e)
unfolding any_event
any_event-append q [] e = ground arith
any_event-append q (x ∷ xs) e = ground (arith, any_event-append q xs e)

-- An event that is recorded for a parent is seen by every wait of that parent that matches it,
-- events that were seen before are still seen, and other parents see what they saw.
pub has-push_event :
    (events : Queues) (parent k : ℕ) (e : ChildStateEvent) (q : WaitQuery)
    → has_child_event_matching (push_event events parent e) k q
      ≡ (has_child_event_matching events k q || (parent == k && event_matches q e))
unfolding has_child_event_matching push_event
has-push_event events parent k e q =
    let queue = unwrap_or (lookup parent events) [] in
    ground (
      arith,
      lookup-insert parent k (queue ++ e ∷ []) events,
      any_event-append q queue e,
      any_event_none q,
    )
