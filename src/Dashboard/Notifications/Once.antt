-- ===== src/Dashboard/Notifications/Once.antt =====
-- What any sequence of calls on the store of alerts keeps.
use surebet.Base.{
  ℕ, zero, suc, Bool-cases, inl, inr, String, Bool, true, false, not, ◌≤◌, ◌≡◌, refl, List, [], ◌∷◌,
  take, filter, any, length, length-take, length-filter-le, ◌==◌, eq_iff, arith,
}
use surebet.JsMap.{JsSet, has, set}
use surebet.JsMap.Laws.{has-set}
use surebet.Dashboard.Notifications.{
  NotificationDraft, OpportunityNotification, NotificationState, RealtimeStatus, notification_id,
  set_status, push_notification, dismiss_notification,
}

-- A call of the store
pub data Call : Type 0 where
  status : RealtimeStatus → Call
  push : NotificationDraft → Call
  dismiss : String → Call

unfoldable pub call : Call → NotificationState → NotificationState
unfolding set_status push_notification dismiss_notification
call (status s) state = set_status s state
call (push notification) state = push_notification notification state
call (dismiss id) state = dismiss_notification id state

unfoldable pub run : List Call → NotificationState → NotificationState
unfolding call
run [] state = state
run (c ∷ calls) state = run calls (call c state)

abbrev shown : String → List OpportunityNotification → Bool
shown id l = any (λ n. n.id == id) l

-- Every alert is listed once, and its id is remembered.
abbrev pub IsOnce : JsSet → List OpportunityNotification → Type 0
IsOnce seen [] = Unit
IsOnce seen (n ∷ l) = (has n.id seen ≡ true) × (shown n.id l ≡ false) × IsOnce seen l

pub record IsSound (state : NotificationState) : Type 0 where
  pub at_most_four : length state.notifications ≤ 4
  pub once : IsOnce state.seen_notification_ids state.notifications

shown-take :
    (id : String) (k : ℕ) (l : List OpportunityNotification)
    → shown id l ≡ false
    → shown id (take k l) ≡ false
shown-take id zero l h = refl
shown-take id (suc k) [] h = refl
shown-take id (suc k) (n ∷ l) h = ground (arith, shown-take id k l)

shown-filter :
    (id : String) (p : OpportunityNotification → Bool) (l : List OpportunityNotification)
    → shown id l ≡ false
    → shown id (filter p l) ≡ false
shown-filter id p [] h = refl
shown-filter id p (n ∷ l) h = ground (arith, shown-filter id p l)

module _ (seen : JsSet) where
  take-IsOnce : (k : ℕ) (l : List OpportunityNotification) → IsOnce seen l → IsOnce seen (take k l)
  take-IsOnce zero l h = tt
  take-IsOnce (suc k) [] h = tt
  take-IsOnce (suc k) (n ∷ l) (s, u, h) = (s, shown-take n.id k l u, take-IsOnce k l h)

  filter-IsOnce :
      (p : OpportunityNotification → Bool) (l : List OpportunityNotification)
      → IsOnce seen l
      → IsOnce seen (filter p l)
  filter-IsOnce p [] h = tt
  filter-IsOnce p (n ∷ l) (s, u, h) = ground (arith, shown-filter n.id p l, filter-IsOnce p l h)

  -- What is remembered stays remembered.
  IsOnce-set :
      (id : String) (l : List OpportunityNotification) → IsOnce seen l → IsOnce (set id tt seen) l
  IsOnce-set id [] h = tt
  IsOnce-set id (n ∷ l) (s, u, h) = (ground (arith, has-set id n.id tt seen), u, IsOnce-set id l h)

  -- An id that is not remembered is not listed.
  shown-unseen :
      (id : String) (l : List OpportunityNotification)
      → IsOnce seen l
      → has id seen ≡ false
      → shown id l ≡ false
  shown-unseen id [] h u = refl
  shown-unseen id (n ∷ l) (s, v, h) u = ground (arith, shown-unseen id l h u, eq_iff n.id id)

push-IsSound :
    (notification : NotificationDraft) (state : NotificationState)
    → IsSound state
    → IsSound (push_notification notification state)
unfolding push_notification
push-IsSound notification state v = elim (Bool-cases (has id seen)) [
  | inl e ↦ rw e v
  | inr e ↦ rw e (record {
    at_most_four = omega (arith, length-take {0} 4 (fresh ∷ state.notifications));
    once = take-IsOnce (set id tt seen) 4 (fresh ∷ state.notifications) (
      ground (arith, has-set id id tt seen, eq_iff id id),
      shown-unseen seen id state.notifications v.once e,
      IsOnce-set seen id state.notifications v.once,
    );
  })
]
  where
    id : String
    id = notification_id notification

    seen : JsSet
    seen = state.seen_notification_ids

    fresh : OpportunityNotification
    fresh = record { id = id; draft = notification }

call-IsSound : (c : Call) (state : NotificationState) → IsSound state → IsSound (call c state)
unfolding call set_status dismiss_notification
call-IsSound (status s) state v = record { at_most_four = v.at_most_four; once = v.once }
call-IsSound (push notification) state v = push-IsSound notification state v
call-IsSound (dismiss id) state v = record {
  at_most_four =
      omega
        (arith, length-filter-le {0} (λ n. not (n.id == id)) state.notifications, v.at_most_four);
  once = filter-IsOnce state.seen_notification_ids _ state.notifications v.once;
}

-- Whatever calls reach the store that starts empty, it lists at most four alerts, each id once, and
-- remembers the ids of all of them.
pub run-IsSound :
    (calls : List Call) (state : NotificationState) → IsSound state → IsSound (run calls state)
unfolding run
run-IsSound [] state v = v
run-IsSound (c ∷ calls) state v = run-IsSound calls (call c state) (call-IsSound c state v)

seen-call :
    (id : String) (c : Call) (state : NotificationState)
    → has id state.seen_notification_ids ≡ true
    → has id (call c state).seen_notification_ids ≡ true
unfolding call set_status push_notification dismiss_notification
seen-call id (status s) state h = h
seen-call id (push n) state h =
    ground (arith, has-set (notification_id n) id tt state.seen_notification_ids)
seen-call id (dismiss other) state h = h

seen-run :
    (id : String) (calls : List Call) (state : NotificationState)
    → has id state.seen_notification_ids ≡ true
    → has id (run calls state).seen_notification_ids ≡ true
unfolding run
seen-run id [] state h = h
seen-run id (c ∷ calls) state h = seen-run id calls (call c state) (seen-call id c state h)

push_seen :
    (notification : NotificationDraft) (state : NotificationState)
    → has
        (notification_id notification)
        (push_notification notification state).seen_notification_ids
      ≡ true
unfolding push_notification
push_seen n state = ground (
  arith,
  has-set (notification_id n) (notification_id n) tt state.seen_notification_ids,
  eq_iff (notification_id n) (notification_id n),
)

remembered :
    (notification : NotificationDraft) (state : NotificationState)
    → has (notification_id notification) state.seen_notification_ids ≡ true
    → push_notification notification state ≡ state
unfolding push_notification
remembered n state h = ground arith

-- An alert that was pushed is never raised again: after any further calls, a push with the same kind
-- and opportunity changes nothing.
pub push_once :
    (first again : NotificationDraft) (calls : List Call) (state : NotificationState)
    → notification_id again ≡ notification_id first
    → push_notification again (run calls (push_notification first state))
      ≡ run calls (push_notification first state)
push_once first again calls state same =
    remembered again (run calls (push_notification first state)) (
      ground (
        arith,
        same,
        seen-run (notification_id first) calls (push_notification first state)
            (push_seen first state),
      ))
