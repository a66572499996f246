-- ===== src/Dashboard/BrowserNotifications.antt =====
-- The choice whether the browser shows alerts: frontend/store/browser-notification-store.ts. A page
-- is the store with the browser around it; the two methods that wait for the user's answer are a part
-- up to the wait and the answer's part.
pub mod Allowed
use surebet.Base.{
  String, Bool, true, false, not, ◌&&◌, ◌||◌, Option, none, some, ◌==◌, if◌then◌else◌,
}

-- NotificationPermission: "granted", "denied", "default"
pub data Permission : Type 0 where
  granted denied undecided : Permission

abbrev pub is_granted : Permission → Bool
is_granted granted = true
is_granted _ = false

abbrev pub is_undecided : Permission → Bool
is_undecided undecided = true
is_undecided _ = false

abbrev pub is_denied : Permission → Bool
is_denied denied = true
is_denied _ = false

-- An item of localStorage or sessionStorage: reading and writing may throw.
pub record StoredItem : Type 0 where
  pub readable : Bool
  pub writable : Bool
  pub value : Option String

unfoldable pub get_item : StoredItem → Option String
get_item item = if item.readable then item.value else none

unfoldable pub set_item : String → StoredItem → StoredItem
set_item value item = if item.writable then record item { value = some value } else item

unfoldable pub item_is : String → Option String → Bool
item_is text none = false
item_is text (some value) = value == text

-- `Notification in window`, its permission, and the items of the two storages
pub record Browser : Type 0 where
  pub supported : Bool
  pub notification_permission : Permission
  pub preference : StoredItem
  pub attempted : StoredItem

pub record BrowserNotificationState : Type 0 where
  pub enabled : Bool
  pub initialized : Bool
  -- none is "unsupported"
  pub permission : Option Permission
  pub requesting : Bool

unfoldable pub initial_state : BrowserNotificationState
initial_state = record {
  enabled = false;
  initialized = false;
  permission = none;
  requesting = false;
}

-- Which method waits for an answer of `requestPermission`
pub data Waiting : Type 0 where
  on_dashboard_entry on_toggle : Waiting

pub record Page : Type 0 where
  pub browser : Browser
  pub state : BrowserNotificationState
  pub waiting : Option Waiting

unfoldable pub stored_enabled : Browser → Bool
unfolding get_item item_is
stored_enabled browser = item_is "enabled" (get_item browser.preference)

unfoldable pub stored_disabled : Browser → Bool
unfolding get_item item_is
stored_disabled browser = item_is "disabled" (get_item browser.preference)

unfoldable pub dashboard_permission_request_attempted : Browser → Bool
unfolding get_item item_is
dashboard_permission_request_attempted browser = item_is "yes" (get_item browser.attempted)

unfoldable pub mark_dashboard_permission_request_attempted : Browser → Browser
unfolding set_item
mark_dashboard_permission_request_attempted browser = record browser {
  attempted = set_item "yes" browser.attempted;
}

unfoldable pub write_stored_preference : Bool → Browser → Browser
unfolding set_item
write_stored_preference enabled browser = record browser {
  preference = set_item (if enabled then "enabled" else "disabled") browser.preference;
}

-- `set({ enabled, initialized: true, permission })`
unfoldable pub known :
    Bool → Option Permission → BrowserNotificationState → BrowserNotificationState
known enabled permission state = record state {
  enabled = enabled;
  initialized = true;
  permission = permission;
}

unfoldable pub refresh_permission : Page → Page
unfolding known stored_enabled
refresh_permission page =
    if not page.browser.supported
    then record page { state = known false none page.state }
    else let permission = page.browser.notification_permission in
      record page {
        state =
            known (stored_enabled page.browser && is_granted permission) (some permission)
              page.state;
      }

-- Without support `initialize` leaves `enabled` as it is.
unfoldable pub initialize : Page → Page
unfolding known stored_enabled
initialize page =
    if page.state.initialized
    then page
    else if not page.browser.supported
    then record page { state = known page.state.enabled none page.state }
    else let permission = page.browser.notification_permission in
      record page {
        state =
            known (stored_enabled page.browser && is_granted permission) (some permission)
              page.state;
      }

-- The end of `requestOnDashboardEntry` up to its wait, where nothing was refused
unfoldable pub enter : Page → Page
unfolding known write_stored_preference dashboard_permission_request_attempted
    mark_dashboard_permission_request_attempted
enter page =
    let permission = page.browser.notification_permission in
    if is_granted permission
    then record page {
      browser = write_stored_preference true page.browser;
      state = known true (some permission) page.state;
    }
    else if dashboard_permission_request_attempted page.browser
    then record page { state = known false (some permission) page.state }
    else record page {
      browser = mark_dashboard_permission_request_attempted page.browser;
      state = record page.state {
        requesting = true;
        initialized = true;
        permission = some permission;
      };
      waiting = some on_dashboard_entry;
    }

unfoldable pub request_on_dashboard_entry : Page → Page
unfolding known stored_disabled enter
request_on_dashboard_entry page =
    let permission = page.browser.notification_permission in
    if not page.browser.supported || page.state.requesting
    then page
    else if stored_disabled page.browser || is_denied permission
    then record page { state = known false (some permission) page.state }
    else enter page

-- The end of `toggle` with the permission
unfoldable pub finish_toggle : Permission → Page → Page
unfolding known write_stored_preference
finish_toggle permission page = record page {
  browser = write_stored_preference (is_granted permission) page.browser;
  state = record (known (is_granted permission) (some permission) page.state) {
    requesting = false;
  };
  waiting = none;
}

unfoldable pub toggle : Page → Page
unfolding write_stored_preference finish_toggle
toggle page =
    let permission = page.browser.notification_permission in
    if not page.browser.supported || page.state.requesting
    then page
    else if page.state.enabled
    then record page {
      browser = write_stored_preference false page.browser;
      state = record page.state { enabled = false; permission = some permission };
    }
    else if is_undecided permission
    then record page { state = record page.state { requesting = true }; waiting = some on_toggle }
    else finish_toggle permission page

-- The end of `requestOnDashboardEntry` with the user's answer
unfoldable pub finish_entry : Permission → Page → Page
unfolding known write_stored_preference
finish_entry permission page = record page {
  browser =
      if is_undecided permission
      then page.browser
      else write_stored_preference (is_granted permission) page.browser;
  state = record (known (is_granted permission) (some permission) page.state) {
    requesting = false;
  };
  waiting = none;
}

-- What follows the wait: the answer, or none where the request was refused with an error.
unfoldable pub answered : Waiting → Option Permission → Page → Page
unfolding finish_entry finish_toggle
answered waiting none page = record page {
  state = record page.state { requesting = false };
  waiting = none;
}
answered on_dashboard_entry (some permission) page = finish_entry permission page
answered on_toggle (some permission) page = finish_toggle permission page
