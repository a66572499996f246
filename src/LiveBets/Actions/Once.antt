-- ===== src/LiveBets/Actions/Once.antt =====
-- A commit and its repetition, for what the two classes write alike
-- (`commit` of the two bookmakers' live actions).
use surebet.Base.{◌≡◌, refl, String, none, arith}
use surebet.Base.Outcome.{Outcome, returned, threw, Method}
use surebet.JsMap.{get}
use surebet.Contracts.Bets.{LiveCommitBetRequest, LiveBetResult}
use surebet.Clock.{Clock}
use surebet.JsMap.Bounded.{set_bounded}
use surebet.LiveBets.{assert_unexpired, fresh_entry}
use surebet.LiveBets.Journal.{begin-fresh, begin-cached}
use surebet.JsMap.Bounded.{get-set_bounded_self}
use surebet.LiveBets.Actions.{Actions, open_commit}
use surebet.LiveBets.Actions.Settles.{Settled, Settles, Returns}

module _ {P : Type 0} (request : LiveCommitBetRequest) where
  open_commit-fresh :
      (clock : Clock) (unresolved : String) (attempt : Method (Actions P) LiveBetResult)
      (s : Actions P)
      → assert_unexpired clock request.expires_at ≡ returned tt
      → get request.idempotency_key s.journal ≡ none
      → open_commit clock unresolved request attempt s
        ≡ attempt (record s {
          journal = set_bounded request.idempotency_key (fresh_entry request) s.journal;
        })
  unfolding open_commit
  open_commit-fresh clock unresolved attempt s live new =
      ground (arith, begin-fresh request s.journal new)

  -- A request whose result the journal holds gets that result, whatever the rest of the method, and
  -- changes nothing.
  pub open_commit-Settled :
      (clock : Clock) (unresolved : String) (attempt : Method (Actions P) LiveBetResult)
      (s : Actions P) (r : LiveBetResult)
      → assert_unexpired clock request.expires_at ≡ returned tt
      → Settled request r s.journal
      → open_commit clock unresolved request attempt s ≡ (returned r, s)
  unfolding open_commit
  open_commit-Settled clock unresolved attempt s r live h =
      ground (arith, begin-cached request s.journal h.entry h.found h.fingerprint, h.result_kept)

  module _ (Q : LiveBetResult → Type 0) where
    Ended : Outcome LiveBetResult × Actions P → Type 0
    Ended out =
        (r : LiveBetResult) × (s : Actions P) × (out ≡ (returned r, s))
        × Settled request r s.journal
        × Q r

    Returns-Ended : (out : Outcome LiveBetResult × Actions P) → Returns request Q out → Ended out
    unfolding Ended
    Returns-Ended (returned r, s) (h, q) = (r, s, refl, h, q)
    Returns-Ended (threw e, s) h = absurd h

    -- The first commit under a key returns, and the journal holds its result.
    pub open_commit-Ended :
        (clock : Clock) (unresolved : String) (attempt : Method (Actions P) LiveBetResult)
        (s : Actions P)
        → Settles request Q attempt
        → assert_unexpired clock request.expires_at ≡ returned tt
        → get request.idempotency_key s.journal ≡ none
        → (r : LiveBetResult) × (t : Actions P) × (open_commit clock unresolved request attempt s
            ≡ (returned r, t))
          × Settled request r t.journal
          × Q r
    unfolding Ended
    open_commit-Ended clock unresolved attempt s settles live new =
        rw (open_commit-fresh clock unresolved attempt s live new) (
          Returns-Ended _ (
            settles.at _ (record {
              entry = fresh_entry request;
              found = get-set_bounded_self request.idempotency_key (fresh_entry request) s.journal;
              fingerprint = refl;
              same_action = refl;
              same_opportunity = refl;
              same_leg = refl;
            })))
