-- ===== src/Node.antt =====
-- `Node` (courier/node.py): the engines over one storage and one network, the dispatch of the
-- messages, the event loop, and what the command line asks of it. State, Dispatch, Loop, Status and
-- Waiting are the definitions; the other modules prove what they are named for.
pub mod State
pub mod Dispatch
pub mod Loop
pub mod Status
pub mod Waiting
pub mod Windows
pub mod Completion
pub mod Answers
pub mod Delivery
pub mod Confirmation
pub mod Resending
