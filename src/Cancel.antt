-- ===== src/Cancel.antt =====
-- The cancellation of sessions by either side, in ltp/library/libltpP.c: Cancel/Sender is the engine
-- that exports blocks, Cancel/Receiver the one that imports them. Here are the lists of sessions and
-- the notices to clients that both have.
-- An SDR list of session objects, with the hash table that finds them, is the list of the sessions.
pub mod Lists
pub mod Sender
pub mod Receiver
use mini_ltp.Prelude.{ℕ, List, [], ◌∷◌, ◌==◌, if◌then◌else◌, Option, none, some}

-- The parts of an LtpNotice that say what has happened to a session; `sdu` is the service data unit
-- that goes back to the client, or 0.
pub data NoticeType : Type 0 where
  export_session_complete : NoticeType
  export_session_canceled : NoticeType
  import_session_canceled : NoticeType

pub record Notice : Type 0 where
  pub session_nbr : ℕ
  pub type : NoticeType
  pub reason_code : ℕ
  pub sdu : ℕ

-- The reason codes of the cancellations that the engine makes here.
abbrev pub ltp_retransmit_limit_exceeded : ℕ
ltp_retransmit_limit_exceeded = 2
