-- ===== src/Sender.antt =====
-- `SendEngine` (courier/send_engine.py): the sliding window, the acknowledgements, the timers and the
-- retransmissions. The definitions are in State, Estimates, Sending, Acks, Timeouts and Files, one
-- function for each method, the calls of the methods as a step relation in Calls; the other
-- modules prove what they are named for.
pub mod State
pub mod Estimates
pub mod Sending
pub mod Acks
pub mod Timeouts
pub mod Files
pub mod Calls
pub mod Window
pub mod KeptWindows
pub mod Invariant
pub mod Acknowledged
pub mod Completion
pub mod Safety
pub mod Queue
pub mod Retransmission
pub mod Resending
pub mod FreshSending
pub mod FirstWindow
pub mod Intervals
pub mod OverWire
