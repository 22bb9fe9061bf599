-- ===== src/Lib.antt =====
-- mini_ltp: the Licklider Transmission Protocol (RFC 5326) in C. A block of client data goes from a
-- sender to a receiver as data segments. The red part of a block is sent reliably: the receiver
-- reports what has arrived as reception claims, and the sender retransmits the rest.
--
-- The files and the code they model:
--   Sdnv           encodeSdnv and decodeSdnv of ltp/ici/library/platform.c, _extractSdnv and
--                  _extractSmallSdnv of ltp/ici/library/ion.c.
--   Segment        the segment types of ltp/library/ltpP.h; Segment/Outbound is the serialize
--                  functions of ltp/library/libltpP.c; Segment/Inbound is ltpHandleInboundSegment,
--                  loadClaimsArray and the beginnings of handleDataSegment and handleRS, with
--                  ltpei_parse_extension of ltp/library/ltpei.c; Segment/Message puts them together.
--   Claims         the merge of reception claims, the test for completion and the search for gaps
--                  in handleRS, with addTransmissionExtent (ltp/library/libltpP.c).
--   Issue          constructDataSegment and issueSegments (ltp/library/libltpP.c).
--   Reception      insertDataSegment (ltp/library/libltpP.c) on the import session's red segments.
--   Report         initializeRs, constructReceptionClaim, constructRs, sendLastReport, findReport
--                  and sendReport (ltp/library/libltpP.c).
--   Export         handleRS, constructReportAckSegment and findCheckpoint (ltp/library/libltpP.c),
--                  on top of Claims and Issue.
--   Import         handleDataSegment from the call of acceptRedContent on (ltp/library/libltpP.c), on
--                  top of Reception and Report.
--   Closing        handleRA, sessionIsClosed and noteClosedImport (ltp/library/libltpP.c).
--   Buffers        startImportSession, acceptRedContent and the extents of deliverSvcData
--                  (ltp/library/libltpP.c), on top of Reception and Import.
--   Segment/Trailer is serializeLtpExtensionField, serializeTrailer and parseTrailerExtensions
--                  (ltp/library/libltpP.c).
--   Block          sduCanBeAppendedToBlock and ltp_send (ltp/library/libltp.c) and
--                  readFromExportBlock (ltp/library/libltpP.c).
--   Queue          enqueueAckSegment, enqueueCancelReqSegment and the functions that construct cancel
--                  segments and acknowledgments (ltp/library/libltpP.c).
--   Cancel         the start, cancellation and end of sessions: handleCS, handleCAS, handleCR,
--                  handleCAR, cancelSessionBySender, cancelSessionByReceiver, the timeouts that send
--                  again, and all that they call (ltp/library/libltpP.c), with the event of
--                  ltp/daemon/ltpclock.c that forgets a closed session.
--   Late           noteClosedExport, acknowledgeLateReport and ltpForgetClosedExport
--                  (ltp/library/libltpP.c).
--   Timer          suspendTimer and resumeTimer (ltp/library/libltpP.c).
--   Timeline       insertLtpTimelineEvent, cancelEvent and setTimer (ltp/library/libltpP.c).
-- They meet as in the code: the receiver of a block takes in its red segments (Import), keeps them in
-- order (Reception) and in its buffers (Buffers) and answers a checkpoint with the claims for them
-- (Report), until the last report is acknowledged (Closing). At the sender the client's data is
-- gathered in a block (Block); a report is parsed (Segment), its claims are merged
-- (Claims), the gaps become the extents that Issue cuts into segments (Export), and those are
-- serialized (Segment). Either side may cancel a session (Cancel) by segments in its queue (Queue),
-- and timeouts, which stand in the timeline (Timeline), send again what is not acknowledged. A report
-- for a session that the sender has closed is still acknowledged (Late).
--
-- Integers are native numbers; unsigned ints wrap at 2 ^ 32 and a uvast at 2 ^ 64, written out. An
-- int that may be negative is its bit pattern. Memory behind the received datagram is not modelled:
-- a read there is the outcome `over_read`.
--
-- The tree of segment references that speeds up the receiver's search is modelled by the list of red
-- segments, which it holds in the same order. The number that the loop around `rand` in sendReport
-- ends with is an argument.
--
-- Bounds and fuel: the encoder's length loop has 10 rounds, which 64 bits never exceed; the
-- decoder's limit of 10 bytes is the code's own; the loop over an extent takes fuel, and as many
-- rounds as the extent has bytes are enough where a segment has room for the longest header and
-- one byte.
--
-- Not modelled: memory that runs out, the database's transactions, extension callbacks and the
-- serialization of header extensions, the cancellation of the session that is being aggregated,
-- bursts, tracing, sockets, processes and the clock.
pub mod Prelude
pub mod Sdnv
pub mod Segment
pub mod Claims
pub mod Issue
pub mod Reception
pub mod Report
pub mod Export
pub mod Import
pub mod Closing
pub mod Timer
pub mod Timeline
pub mod Buffers
pub mod Queue
pub mod Cancel
pub mod Late
pub mod Block
