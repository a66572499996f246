-- ===== src/LiveBets/Actions/Settles.antt =====
-- Rules for how a commit ends
-- (`finish` of the two bookmakers' live actions).
use surebet.Base.{String, ◌≡◌, refl, Bool, true, false, some, arith, eq_refl, if◌then◌else◌}
use surebet.Base.Outcome.{Outcome, returned, threw, Method, ◌>>=◌, lift, catching, handle}
use surebet.JsMap.{get}
use surebet.JsMap.Laws.{get-set}
use surebet.Contracts.Bets.{LiveCommitBetRequest, LiveBetResult}
use surebet.LiveBets
use surebet.LiveBets.{
  Commits, CachedLiveCommit, response_received, finished, live_commit_fingerprint,
}
use surebet.LiveBets.Actions.{Actions, finish_with}

module _ (request : LiveCommitBetRequest) where
  -- The journal has an entry for the request, with its fingerprint and ids.
  pub record Open (commits : Commits) : Type 0 where
    pub entry : CachedLiveCommit
    pub found : get request.idempotency_key commits ≡ some entry
    pub fingerprint : entry.fingerprint ≡ live_commit_fingerprint request
    pub same_action : entry.action_id ≡ request.action_id
    pub same_opportunity : entry.opportunity_id ≡ request.opportunity_id
    pub same_leg : entry.leg_id ≡ request.leg_id

  -- Its entry holds the result.
  pub record Settled (result : LiveBetResult) (commits : Commits) : Type 0 where
    pub entry : CachedLiveCommit
    pub found : get request.idempotency_key commits ≡ some entry
    pub fingerprint : entry.fingerprint ≡ live_commit_fingerprint request
    pub same_action : entry.action_id ≡ request.action_id
    pub same_opportunity : entry.opportunity_id ≡ request.opportunity_id
    pub same_leg : entry.leg_id ≡ request.leg_id
    pub result_kept : entry.result ≡ some result

module _ {P : Type 0} (request : LiveCommitBetRequest) (Q : LiveBetResult → Type 0) where
  -- A call that settles what it returns, and that leaves the entry in place if it throws.
  abbrev pub EndsSettled : Outcome LiveBetResult × Actions P → Type 0
  EndsSettled (returned r, s) = Settled request r s.journal × Q r
  EndsSettled (threw e, s) = Open request s.journal

  pub record Tries (m : Method (Actions P) LiveBetResult) : Type 0 where
    pub at : (s : Actions P) → Open request s.journal → EndsSettled (m s)

  -- It never throws.
  abbrev pub Returns : Outcome LiveBetResult × Actions P → Type 0
  Returns (returned r, s) = Settled request r s.journal × Q r
  Returns (threw e, s) = ⊥

  pub record Settles (m : Method (Actions P) LiveBetResult) : Type 0 where
    pub at : (s : Actions P) → Open request s.journal → Returns (m s)

  finish_with-found :
      (result : LiveBetResult) (s : Actions P) (e : CachedLiveCommit)
      → get request.idempotency_key s.journal ≡ some e
      → finish_with request result s ≡ (
        returned result,
        record s { journal = finished request.idempotency_key result e s.journal },
      )
  unfolding finish_with LiveBets.finish
  finish_with-found result s e h = ground arith

  pub finish_with-Settled :
      (result : LiveBetResult) (s : Actions P)
      → Q result
      → Open request s.journal
      → Returns (finish_with request result s)
  finish_with-Settled result s q o = rw (finish_with-found result s o.entry o.found) (
    record {
      entry = record o.entry { state = response_received; result = some result };
      found = simp (get-set, eq_refl);
      fingerprint = o.fingerprint;
      same_action = o.same_action;
      same_opportunity = o.same_opportunity;
      same_leg = o.same_leg;
      result_kept = refl;
    },
    q,
  )

  pub Settles-finish : (result : LiveBetResult) → Q result → Settles (finish_with request result)
  Settles-finish result q = record { at = λ s o. finish_with-Settled result s q o }

  Settles-Tries : (m : Method (Actions P) LiveBetResult) → Settles m → Tries m
  Settles-Tries m h = record { at = λ s o. weaken (m s) (h.at s o) }
    where
      weaken : (r : Outcome LiveBetResult × Actions P) → Returns r → EndsSettled r
      weaken (returned a, t) k = k
      weaken (threw e, t) k = absurd k

  pub Tries-finish : (result : LiveBetResult) → Q result → Tries (finish_with request result)
  Tries-finish result q = Settles-Tries _ (Settles-finish result q)

  pub Tries-lift :
      {A : Type 0} (o : Outcome A) (f : A → Method (Actions P) LiveBetResult)
      → ((a : A) → Tries (f a))
      → Tries (lift o >>= f)
  Tries-lift (returned a) f h = h a
  Tries-lift (threw e) f h = record { at = λ s o. o }

  pub Tries-if :
      (b : Bool) (m n : Method (Actions P) LiveBetResult)
      → Tries m
      → Tries n
      → Tries (if b then m else n)
  Tries-if true m n h k = h
  Tries-if false m n h k = k

  pub Settles-if :
      (b : Bool) (m n : Method (Actions P) LiveBetResult)
      → Settles m
      → Settles n
      → Settles (if b then m else n)
  Settles-if true m n h k = h
  Settles-if false m n h k = k

  pub Settles-catching :
      (m : Method (Actions P) LiveBetResult) (k : String → Method (Actions P) LiveBetResult)
      → Tries m
      → ((e : String) → Settles (k e))
      → Settles (catching m k)
  Settles-catching m k h g = record { at = λ s o. caught (m s) (h.at s o) }
    where
      caught : (r : Outcome LiveBetResult × Actions P) → EndsSettled r → Returns (handle k r.0 r.1)
      caught (returned a, t) e = e
      caught (threw e, t) o = (g e).at t o

pub ruleset settle_rules =
    (Settles-finish, Tries-finish, Tries-lift, Tries-if, Settles-if, Settles-catching)
