-- ===== src/Dashboard/BrowserNotifications/Allowed.antt =====
-- What holds of a page whatever happens on it.
use surebet.Base.{ap, ◌∙◌, Bool, not, false, true, false, ◌≡◌, Option, none, some, is_some, arith}
use surebet.Dashboard.BrowserNotifications.{
  Permission, dashboard_permission_request_attempted, item_is, get_item, is_denied, Browser, enter,
  BrowserNotificationState, initial_state, Waiting, Page, initialize, refresh_permission,
  request_on_dashboard_entry, toggle, finish_toggle, answered, on_dashboard_entry, on_toggle,
}

-- One thing that happens on a page: a call of the store, the answer that a waiting method gets, or
-- a change of the browser, which the user or another page makes.
pub data Step : Page → Page → Type 0 where
  initialized : (page : Page) → Step page (initialize page)
  refreshed : (page : Page) → Step page (refresh_permission page)
  entered : (page : Page) → Step page (request_on_dashboard_entry page)
  toggled : (page : Page) → Step page (toggle page)
  answer :
      (page : Page) (w : Waiting) (a : Option Permission)
      → page.waiting ≡ some w
      → Step page (answered w a page)
  changed : (page : Page) (browser : Browser) → Step page (record page { browser = browser })

-- A permission that is granted or not decided
abbrev may_ask : Option Permission → Bool
may_ask none = false
may_ask (some permission) = not (is_denied permission)

-- An enabled store knows of no refusal, and a method waits exactly while the store says that it asks.
pub record IsAllowed (page : Page) : Type 0 where
  pub allowed_if_enabled : page.state.enabled ≡ true → may_ask page.state.permission ≡ true
  pub initialized_if_enabled : page.state.enabled ≡ true → page.state.initialized ≡ true
  pub waits : is_some page.waiting ≡ page.state.requesting

initialize-IsAllowed : (page : Page) → IsAllowed page → IsAllowed (initialize page)
unfolding initialize
initialize-IsAllowed page v = ground arith

refresh-IsAllowed : (page : Page) → IsAllowed page → IsAllowed (refresh_permission page)
unfolding refresh_permission
refresh-IsAllowed page v = ground arith

enter-IsAllowed :
    (page : Page)
    → IsAllowed page
    → page.state.requesting ≡ false
    → is_denied page.browser.notification_permission ≡ false
    → IsAllowed (enter page)
unfolding enter
enter-IsAllowed page v r d = ground arith

entry-IsAllowed : (page : Page) → IsAllowed page → IsAllowed (request_on_dashboard_entry page)
unfolding request_on_dashboard_entry
entry-IsAllowed page v = ground (arith, enter-IsAllowed page v)

finish-IsAllowed :
    (permission : Permission) (page : Page) → IsAllowed (finish_toggle permission page)
unfolding finish_toggle
finish-IsAllowed permission page = ground arith

toggle-IsAllowed : (page : Page) → IsAllowed page → IsAllowed (toggle page)
unfolding toggle
toggle-IsAllowed page v = ground arith

answered-IsAllowed :
    (w : Waiting) (a : Option Permission) (page : Page)
    → IsAllowed page
    → IsAllowed (answered w a page)
unfolding answered
answered-IsAllowed w none page v = ground arith
answered-IsAllowed on_dashboard_entry (some a) page v = ground arith
answered-IsAllowed on_toggle (some a) page v = ground arith

-- Each thing that happens keeps these.
Step-IsAllowed : {p q : Page} → Step p q → IsAllowed p → IsAllowed q
Step-IsAllowed (Step.initialized page) v = initialize-IsAllowed page v
Step-IsAllowed (Step.refreshed page) v = refresh-IsAllowed page v
Step-IsAllowed (Step.entered page) v = entry-IsAllowed page v
Step-IsAllowed (Step.toggled page) v = toggle-IsAllowed page v
Step-IsAllowed (Step.answer page w a e) v = answered-IsAllowed w a page v
Step-IsAllowed (Step.changed page browser) v = record {
  allowed_if_enabled = v.allowed_if_enabled;
  initialized_if_enabled = v.initialized_if_enabled;
  waits = v.waits;
}

-- A page opened in a browser
unfoldable pub opened : Browser → Page
unfolding initial_state
opened browser = record { browser = browser; state = initial_state; waiting = none }

-- The pages that a page opened in the browser can become
pub data Reachable (browser : Browser) : Page → Type 0 where
  start : Reachable browser (opened browser)
  next : {p q : Page} → Reachable browser p → Step p q → Reachable browser q

-- Whatever happens on a page, an enabled store is initialized and knows of a permission that is
-- granted or not decided, never of a refusal or of a browser without support; and a method waits for
-- the user exactly while the store says that it asks.
pub Reachable-IsAllowed :
    {browser : Browser} {page : Page} → Reachable browser page → IsAllowed page
unfolding opened
Reachable-IsAllowed Reachable.start = ground arith
Reachable-IsAllowed (Reachable.next r s) = Step-IsAllowed s (Reachable-IsAllowed r)

-- Alerts that the user turned off stay off in a new page that enters the dashboard, and it does not
-- ask, while the storage can be read and written.
pub toggled_off_stays :
    (page : Page)
    → page.state.enabled ≡ true
    → page.state.requesting ≡ false
    → page.browser.supported ≡ true
    → page.browser.preference.readable ≡ true
    → page.browser.preference.writable ≡ true
    → let later = request_on_dashboard_entry (opened (toggle page).browser) in
      (later.state.enabled ≡ false) × (later.waiting ≡ none)
unfolding toggle request_on_dashboard_entry opened
toggled_off_stays page e r s a b = ground arith

enter_asks :
    (page : Page)
    → page.waiting ≡ none
    → page.browser.attempted.readable ≡ true
    → page.browser.attempted.writable ≡ true
    → (enter page).waiting ≡ some on_dashboard_entry
    → dashboard_permission_request_attempted (enter page).browser ≡ true
unfolding enter
enter_asks page w r a asked = ground arith

entry_asks :
    (page : Page)
    → page.waiting ≡ none
    → page.browser.attempted.readable ≡ true
    → page.browser.attempted.writable ≡ true
    → (request_on_dashboard_entry page).waiting ≡ some on_dashboard_entry
    → dashboard_permission_request_attempted (request_on_dashboard_entry page).browser ≡ true
unfolding request_on_dashboard_entry
entry_asks page w r a asked = ground (arith, enter_asks page w r a)

waiting-enter :
    (page : Page)
    → dashboard_permission_request_attempted page.browser ≡ true
    → (enter page).waiting ≡ page.waiting
unfolding enter
waiting-enter page h = ground arith

waiting-entry :
    (page : Page)
    → dashboard_permission_request_attempted page.browser ≡ true
    → (request_on_dashboard_entry page).waiting ≡ page.waiting
unfolding request_on_dashboard_entry
waiting-entry page h = ground (arith, waiting-enter page h)

attempted-ap :
    (b c : Browser)
    → b.attempted ≡ c.attempted
    → dashboard_permission_request_attempted b ≡ dashboard_permission_request_attempted c
unfolding dashboard_permission_request_attempted
attempted-ap b c h = ap (λ item. item_is "yes" (get_item item)) h

-- Entering the dashboard asks the user once in a session, while the session's storage can be read
-- and written: a later page with the mark that the first left does not ask, whatever its permission
-- and its store.
pub asked_once :
    (page : Page) (later : Browser) (state : BrowserNotificationState)
    → page.waiting ≡ none
    → page.browser.attempted.readable ≡ true
    → page.browser.attempted.writable ≡ true
    → (request_on_dashboard_entry page).waiting ≡ some on_dashboard_entry
    → later.attempted ≡ (request_on_dashboard_entry page).browser.attempted
    → (request_on_dashboard_entry
        (record { browser = later; state = state; waiting = none })).waiting
      ≡ none
asked_once page later state w r a asked same =
    waiting-entry (record { browser = later; state = state; waiting = none })
      (attempted-ap later (request_on_dashboard_entry page).browser same
        ∙ entry_asks page w r a asked)
