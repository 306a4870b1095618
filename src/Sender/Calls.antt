-- ===== src/Sender/Calls.antt =====
-- The calls of the methods of `SendEngine` (courier/send_engine.py), in any order. The storage is
-- shared: between two calls the other engines may have changed it.
use cs60_final_project.Common.{Bool, ◌≡◌, inr, Option, Text}
use cs60_final_project.Protocol.{SackMsg, Address}
use cs60_final_project.Storage.{Storage}
use cs60_final_project.Sender.State.{Floats, SendEngine, SendEnv}
use cs60_final_project.Sender.Sending.{retransmit_chunks}
use cs60_final_project.Sender.Acks.{handle_sack, handle_delivered}
use cs60_final_project.Sender.Timeouts.{check_timeouts}
use cs60_final_project.Sender.Files.{
  FileEnv, send_file, cleanup_completed_transfers, resume_transfers,
}

module _ {F : Type 0} where
  -- One call, or a change of the storage by others.
  pub data Call (fl : Floats F) : SendEngine F → SendEngine F → Type 0 where
    file_sent :
        {e : SendEngine F} (env : SendEnv F) (files : FileEnv) (path destination : Text)
        (addr : Address) (fec : Option Bool) (b : Text) (e' : SendEngine F)
        → send_file fl env files path destination addr fec e ≡ inr (b, e')
        → Call fl e e'
    sacked :
        {e : SendEngine F} (env : SendEnv F) (msg : SackMsg) (addr : Address)
        → Call fl e (handle_sack fl env msg addr e)
    delivered : {e : SendEngine F} (b : Text) → Call fl e (handle_delivered b e)
    timed : {e : SendEngine F} (now : F) → Call fl e (check_timeouts fl now e)
    retransmitted :
        {e : SendEngine F} (env : SendEnv F) (b : Text) (addr : Address)
        → Call fl e (retransmit_chunks fl env b addr e)
    cleaned : {e : SendEngine F} → Call fl e (cleanup_completed_transfers e)
    resumed : {e : SendEngine F} → Call fl e (resume_transfers fl e)
    stored_elsewhere : {e : SendEngine F} (s : Storage F) → Call fl e (record e { storage = s })

  -- Any number of them.
  pub data Calls (fl : Floats F) : SendEngine F → SendEngine F → Type 0 where
    none_yet : {e : SendEngine F} → Calls fl e e
    then_call : {e e' e'' : SendEngine F} → Calls fl e e' → Call fl e' e'' → Calls fl e e''
