-- ===== src/Dashboard/Notifications.antt =====
-- The alerts of the dashboard: frontend/store/realtime-notification-store.ts.
pub mod Once
use surebet.Base.{String, not, List, [], ◌∷◌, take, filter, ◌==◌, if◌then◌else◌}
use surebet.Base.Text.{◌^^◌}
use surebet.Number.{Number}
use surebet.JsMap.{JsSet, empty, has, set}

pub data RealtimeStatus : Type 0 where
  connecting live reconnecting : RealtimeStatus

pub data OpportunityNotificationKind : Type 0 where
  candidate confirmed : OpportunityNotificationKind

unfoldable pub kind_text : OpportunityNotificationKind → String
kind_text candidate = "candidate"
kind_text confirmed = "confirmed"

pub record NotificationLeg : Type 0 where
  pub selection_label : String
  pub source_label : String
  pub odds : Number

-- OpportunityNotification without its id
pub record NotificationDraft : Type 0 where
  pub kind : OpportunityNotificationKind
  pub opportunity_id : String
  pub fixture_id : String
  pub market_name : String
  pub match_name : String
  pub market_label : String
  pub profit_percentage : Number
  pub legs : List NotificationLeg

pub record OpportunityNotification : Type 0 where
  pub id : String
  pub draft : NotificationDraft

pub record NotificationState : Type 0 where
  pub status : RealtimeStatus
  pub notifications : List OpportunityNotification
  pub seen_notification_ids : JsSet

unfoldable pub initial_state : NotificationState
initial_state = record { status = connecting; notifications = []; seen_notification_ids = empty }

unfoldable pub notification_id : NotificationDraft → String
unfolding kind_text
notification_id notification = kind_text notification.kind ^^ ":" ^^ notification.opportunity_id

unfoldable pub set_status : RealtimeStatus → NotificationState → NotificationState
set_status status state = record state { status = status }

unfoldable pub push_notification : NotificationDraft → NotificationState → NotificationState
push_notification notification state =
    let id = notification_id notification in
    if has id state.seen_notification_ids then state else record state {
      notifications = take 4 (record { id = id; draft = notification } ∷ state.notifications);
      seen_notification_ids = set id tt state.seen_notification_ids;
    }

unfoldable pub dismiss_notification : String → NotificationState → NotificationState
dismiss_notification id state = record state {
  notifications = filter (λ notification. not (notification.id == id)) state.notifications;
}
