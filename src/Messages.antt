-- ===== src/Messages.antt =====
-- src/stratum_client/messages.hpp: the messages of the stratum protocol, over the type of `double`.
pub mod Parse
pub mod Wire
pub mod Summary
pub mod Answers
pub mod Notify
use btccpu.Prelude.{ℕ, ℤ, Bool, List}

pub record SetDifficultyMessage (Double : Type 0) : Type 0 where
  pub difficulty : Double

pub record NotifyMessage : Type 0 where
  pub job_id : List ℕ
  pub prevhash : List ℕ
  pub coinb1 : List ℕ
  pub coinb2 : List ℕ
  pub merkle_branch : List (List ℕ)
  pub version : List ℕ
  pub nbits : List ℕ
  pub ntime : List ℕ
  pub clean_jobs : Bool

pub record SubscribeResponse : Type 0 where
  pub id : ℤ
  pub extranonce1 : List ℕ
  pub extranonce2_size : ℕ

pub record AuthorizeResponse : Type 0 where
  pub id : ℤ
  pub accepted : Bool

pub record SubmitResponse : Type 0 where
  pub id : ℤ
  pub accepted : Bool
  pub has_error : Bool
  pub error_text : List ℕ

pub record UnknownMessage : Type 0 where
  pub raw : List ℕ

pub data IncomingMessage (Double : Type 0) : Type 0 where
  unknown : UnknownMessage → IncomingMessage Double
  set_difficulty : SetDifficultyMessage Double → IncomingMessage Double
  notify : NotifyMessage → IncomingMessage Double
  subscribe_response : SubscribeResponse → IncomingMessage Double
  authorize_response : AuthorizeResponse → IncomingMessage Double
  submit_response : SubmitResponse → IncomingMessage Double

pub record SuggestDifficultyRequest (Double : Type 0) : Type 0 where
  pub difficulty : Double

pub record AuthorizeRequest : Type 0 where
  pub user : List ℕ
  pub password : List ℕ

pub record SubmitShareRequest : Type 0 where
  pub worker_name : List ℕ
  pub job_id : List ℕ
  pub extranonce2_hex : List ℕ
  pub ntime_hex : List ℕ
  pub nonce_hex : List ℕ
