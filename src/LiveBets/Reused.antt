-- ===== src/LiveBets/Reused.antt =====
-- An idempotency key that is used again with another payload
-- (`commit` of the two bookmakers' live actions).
use surebet.Base.{◌≡◌, String, none}
use surebet.Base.Outcome.{returned, threw}
use surebet.JsMap.{get}
use surebet.Contracts.Bets.{LiveCommitBetRequest, LiveBetResult}
use surebet.Clock.{Clock}
use surebet.LiveBets.{assert_unexpired}
use surebet.LiveBets.Actions.{Actions}
use surebet.LiveBets.Actions.Reconcile.{SamePayload}
use surebet.LiveBets.Jun88
use surebet.LiveBets.Jun88.Once.{commit_differs}
use surebet.LiveBets.EightXBet
use surebet.LiveBets.EightXBet.Once

-- On either bookmaker, after a commit under a new key, an unexpired commit under the same key whose
-- action, attempt, opportunity, leg, prepare id, stake or odds are others throws, at any later clock
-- and whatever the page does, and changes nothing.
pub commit_reused :
    (jun88_platform : Jun88.Platform) (eightxbet_platform : EightXBet.Platform)
    (generation : String) (clock later : Clock) (jun88_page jun88_other : Jun88.CommitPage)
    (eightxbet_page eightxbet_other : EightXBet.CommitPage) (request again : LiveCommitBetRequest)
    (s : Actions Jun88.Jun88Prepared) (t : Actions EightXBet.EightXBetPrepared)
    → assert_unexpired clock request.expires_at ≡ returned tt
    → assert_unexpired later again.expires_at ≡ returned tt
    → again.idempotency_key ≡ request.idempotency_key
    → ¬ SamePayload request again
    → get request.idempotency_key s.journal ≡ none
    → get request.idempotency_key t.journal ≡ none
    → ((r : LiveBetResult) × (u : Actions Jun88.Jun88Prepared) × (Jun88.commit jun88_platform
            generation clock jun88_page request s
          ≡ (returned r, u))
        × (Jun88.commit jun88_platform generation later jun88_other again u
            ≡ (threw "idempotency key was reused with a different live bet payload", u)))
      × ((r : LiveBetResult) × (u : Actions EightXBet.EightXBetPrepared) × (EightXBet.commit
              eightxbet_platform generation clock eightxbet_page request t
            ≡ (returned r, u))
          × (EightXBet.commit eightxbet_platform generation later eightxbet_other again u
              ≡ (threw "idempotency key was reused with a different live bet payload", u)))
commit_reused jun88_platform eightxbet_platform generation clock later jun88_page jun88_other
      eightxbet_page eightxbet_other request again s t live still same differs in_s in_t =
    (
      commit_differs jun88_platform generation clock later jun88_page jun88_other request again s
          live still same differs in_s,
      EightXBet.Once.commit_differs eightxbet_platform generation clock later eightxbet_page
          eightxbet_other request again t live still same differs in_t,
    )
