-- ===== src/Contracts/Bets.antt =====
-- Requests and results of simulated and live bets (collector/shared/src/contracts.ts).
use surebet.Base.{String, Option}
use surebet.Number.{Number}
use surebet.Contracts.Odds.{OddsFormat, OddsSelection}

pub record QuoteConfirmationRequest : Type 0 where
  pub request_id : String
  pub fixture_id : String
  pub market_id : String
  pub outcome_id : String
  pub timeout_ms : Number

pub record QuoteConfirmationResult : Type 0 where
  pub observed_at : String
  pub selection : Option OddsSelection

-- `sequence: 1 | 2`
pub data Sequence : Type 0 where
  first_leg second_leg : Sequence

pub record SimulatedBetCommand : Type 0 where
  pub request_id : String
  pub action_id : String
  pub opportunity_id : String
  pub leg_id : String
  pub sequence : Sequence
  pub fixture_id : String
  pub market_id : String
  pub outcome_id : String
  pub expected_odds : Number
  pub stake_vnd : Number
  pub expires_at : String
  pub timeout_ms : Number

pub record SimulatedPlaceBetRequest : Type 0 where
  pub command : SimulatedBetCommand
  pub open command use *
  pub idempotency_key : String

-- The results carry `observedAt` first.
pub data SimulatedPlaceBetResult : Type 0 where
  -- ticketId, acceptedOdds, stakeVnd
  ticket_accepted : String → String → Number → Number → SimulatedPlaceBetResult
  -- submittedOdds, offeredOdds
  odds_changed : String → Number → Number → SimulatedPlaceBetResult

pub record LiveBetCorrelation : Type 0 where
  pub request_id : String
  pub action_id : String
  pub attempt_id : String
  pub opportunity_id : String
  pub leg_id : String

pub record LivePrepareBetRequest : Type 0 where
  pub correlation : LiveBetCorrelation
  pub open correlation use *
  pub fixture_id : String
  pub market_id : String
  pub outcome_id : String
  pub provider_ref : String
  pub expected_odds : Number
  pub expected_raw_odds : Option Number
  pub odds_format : OddsFormat
  pub quote_revision : Option String
  pub expires_at : String

pub record LiveBetPrepared : Type 0 where
  pub prepare_id : String
  pub slip_fingerprint : String
  pub displayed_odds : Number
  pub raw_odds : Number
  pub odds_format : OddsFormat
  pub minimum_stake_vnd : Number
  pub maximum_stake_vnd : Number
  pub stake_increment_vnd : Number
  pub balance_vnd : Number
  pub session_generation : String
  pub observed_at : String

pub data LivePrepareBetResult : Type 0 where
  prepared : LiveBetPrepared → LivePrepareBetResult
  -- observedAt, error
  prepare_rejected : String → String → LivePrepareBetResult

pub record LiveCommitBetRequest : Type 0 where
  pub correlation : LiveBetCorrelation
  pub open correlation use *
  pub prepare_id : String
  pub idempotency_key : String
  pub stake_vnd : Number
  pub expected_odds : Number
  pub expires_at : String

-- The results carry `observedAt` first.
pub data LiveBetResult : Type 0 where
  -- ticketId, acceptedOdds, stakeVnd
  ticket_accepted : String → String → Number → Number → LiveBetResult
  -- submittedOdds, offeredOdds
  odds_changed : String → Number → Number → LiveBetResult
  rejected submission_unknown : String → String → LiveBetResult

pub record LiveCancelPreparedBetRequest : Type 0 where
  pub correlation : LiveBetCorrelation
  pub open correlation use *
  pub prepare_id : String
  pub expires_at : String

pub data CancelOutcome : Type 0 where
  cancelled cancel_rejected : CancelOutcome

pub record LiveCancelPreparedBetResult : Type 0 where
  pub result : CancelOutcome
  pub observed_at : String
  pub error : Option String

pub record LiveReconcileBetRequest : Type 0 where
  pub correlation : LiveBetCorrelation
  pub open correlation use *
  pub idempotency_key : String
  pub expires_at : String
