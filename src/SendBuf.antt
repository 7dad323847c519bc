-- ===== src/SendBuf.antt =====
-- qrecovery/src/send/sndbuf.rs: the send buffer of a stream, and the colors of its bytes.
pub mod Map
pub mod Pack
pub mod Marks
pub mod Pick
pub mod Colors
pub mod Splice
pub mod Cuts
pub mod Assemble
pub mod Starts
pub mod Ends
pub mod AckStart
pub mod AckRcvd
pub mod Losses
pub mod LostFrom
pub mod LossLoop
pub mod MayLoss
pub mod Found
pub mod Picks
pub mod Buffer
pub mod Slices
pub mod PickFirst
pub mod Shifts
pub mod Holding
pub mod Acked
pub mod Sending
pub mod Tests
