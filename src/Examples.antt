-- ===== src/Examples.antt =====
-- Runs of the model at concrete inputs: a file of three bytes in chunks of two with one parity chunk,
-- of which the last data chunk is lost, and a storage with a few rows.
mod Transfers
mod Rows
mod Datagrams
mod Custodies
mod SenderWorld
mod Senders
mod Nodes
