-- ===== src/Clock.antt =====
-- The clock and the reading of times that the collector and the dashboard take from JavaScript.
use surebet.Base.{String}
use surebet.Number.{Number}

-- The clock of one operation: `Date.parse` in milliseconds or NaN, `Date.now()`, and the text of
-- `new Date().toISOString()`.
pub record Clock : Type 0 where
  pub date_parse : String → Number
  pub now : Number
  pub now_iso : String
