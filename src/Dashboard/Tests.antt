-- ===== src/Dashboard/Tests.antt =====
-- The dashboard's stores and lists at small inputs.
use surebet.Base.{
  String, ◌≡◌, refl, true, false, Option, none, some, List, [], ◌∷◌, any, arith, ◌&&◌, ◌||◌, length,
  ◌≤◌, ◌==◌, map,
}
use surebet.Base.Int.{ℤ, pos, ◌≤ℤ◌}
use surebet.Number.{whole}
use surebet.JsMap.SetOf.{elem}
use surebet.Dashboard.Visible.{
  MinimumVisibleEntry, entry_id, is_young, reconcile_minimum_visible_items,
  next_minimum_visible_expiry,
}
use surebet.Dashboard.Visible.Laws.{
  shows, goes, shows-reconcile, reconcile_before_expiry, next_expiry-goes,
}
use surebet.Dashboard.Notifications
use surebet.Dashboard.Notifications.{
  NotificationDraft, candidate, notification_id, push_notification, dismiss_notification,
}
use surebet.Dashboard.Notifications.Once.{Call, IsSound, run, run-IsSound, push_once}
use surebet.Dashboard.BrowserNotifications.{
  Browser, Page, granted, undecided, toggle, request_on_dashboard_entry, on_dashboard_entry,
  answered,
}
use surebet.Dashboard.BrowserNotifications.Allowed.{
  Step, Reachable, IsAllowed, opened, Reachable-IsAllowed, toggled_off_stays, asked_once,
}

abbrev name : String → String
name s = s

-- Two items: one visible since 5 seconds, one since 20.
abbrev entries : List (MinimumVisibleEntry String)
entries =
    record { item = "young"; first_visible_at = pos 20_000 }
    ∷ record { item = "old"; first_visible_at = pos 5_000 }
    ∷ []

shows-reconcile_example :
    shows name "young"
      (reconcile_minimum_visible_items name entries ("new" ∷ []) (pos 25_000) (pos 20_000))
    ≡ (elem "young" (map name ("new" ∷ []))
        || any
            (λ e. (entry_id name e == "young") && is_young name (pos 25_000) (pos 20_000) e)
            entries)
shows-reconcile_example =
    shows-reconcile name "young" entries ("new" ∷ []) (pos 25_000) (pos 20_000)

reconcile_before_expiry_example :
    shows name "old"
      (reconcile_minimum_visible_items name entries ("new" ∷ []) (pos 24_000) (pos 20_000))
    ≡ (elem "old" (map name ("new" ∷ [])) || shows name "old" entries)
unfolding next_minimum_visible_expiry surebet.JsMap.has surebet.JsMap.SetOf.set_of surebet.JsMap.set
    surebet.Base.Int.◌+ℤ◌
reconcile_before_expiry_example =
    reconcile_before_expiry name ("new" ∷ []) (pos 20_000) entries (pos 21_000) (pos 24_000) "old"
      refl (omega arith)

next_expiry-goes_example :
    (pos 21_000 ≤ℤ pos 25_000)
    × (any (goes name ("new" ∷ []) (pos 20_000) (pos 25_000)) entries ≡ true)
unfolding next_minimum_visible_expiry surebet.JsMap.has surebet.JsMap.SetOf.set_of surebet.JsMap.set
    surebet.Base.Int.◌+ℤ◌
next_expiry-goes_example =
    next_expiry-goes name ("new" ∷ []) (pos 20_000) entries (pos 21_000) (pos 25_000) refl

abbrev draft : NotificationDraft
draft = record {
  kind = candidate;
  opportunity_id = "1";
  fixture_id = "fixture";
  market_name = "hdp";
  match_name = "Home vs Away";
  market_label = "HDP";
  profit_percentage = whole 2;
  legs = [];
}

run-IsSound_example :
    IsSound (run (Call.push draft ∷ Call.dismiss "candidate:1" ∷ []) Notifications.initial_state)
unfolding Notifications.initial_state
run-IsSound_example =
    run-IsSound (Call.push draft ∷ Call.dismiss "candidate:1" ∷ []) Notifications.initial_state
      (record { at_most_four = omega arith; once = tt })

push_once_example :
    push_notification draft
      (run (Call.dismiss "candidate:1" ∷ []) (push_notification draft Notifications.initial_state))
    ≡ run (Call.dismiss "candidate:1" ∷ []) (push_notification draft Notifications.initial_state)
push_once_example =
    push_once draft draft (Call.dismiss "candidate:1" ∷ []) Notifications.initial_state refl

abbrev browser : Browser
browser = record {
  supported = true;
  notification_permission = undecided;
  preference = record { readable = true; writable = true; value = none };
  attempted = record { readable = true; writable = true; value = none };
}

-- The page has entered the dashboard and was allowed to show alerts.
Reachable-IsAllowed_example :
    IsAllowed
      (answered on_dashboard_entry (some granted) (request_on_dashboard_entry (opened browser)))
unfolding request_on_dashboard_entry opened
Reachable-IsAllowed_example = Reachable-IsAllowed (
    Reachable.next (Reachable.next Reachable.start (Step.entered (opened browser))) (
      Step.answer (request_on_dashboard_entry (opened browser)) on_dashboard_entry (some granted)
        refl))

abbrev enabled_page : Page
enabled_page = record {
  browser = record browser { notification_permission = granted };
  state = record {
    enabled = true;
    initialized = true;
    permission = some granted;
    requesting = false;
  };
  waiting = none;
}

toggled_off_stays_example :
    let later = request_on_dashboard_entry (opened (toggle enabled_page).browser) in
    (later.state.enabled ≡ false) × (later.waiting ≡ none)
toggled_off_stays_example = toggled_off_stays enabled_page refl refl refl refl refl

asked_once_example :
    (request_on_dashboard_entry
      (opened (request_on_dashboard_entry (opened browser)).browser)).waiting
    ≡ none
unfolding opened request_on_dashboard_entry
asked_once_example =
    asked_once (opened browser) (request_on_dashboard_entry (opened browser)).browser
      (opened browser).state refl refl refl refl refl
