-- ===== src/Sender/Invariant.antt =====
-- Whatever methods of `SendEngine` are called (courier/send_engine.py), the window of every transfer
-- is in order.
use cs60_final_project.Common.{
  subst, Bool, false, Option, inl, inr, ◌⊎◌, List, Text, Bytes, length, text_eq, Option-elim,
}
use cs60_final_project.Chunk.{Chunk}
use cs60_final_project.Chunking.{create_chunks}
use cs60_final_project.Protocol.{Address}
use cs60_final_project.Storage.{BundleState, list_bundles_by_state, or_default}
use cs60_final_project.Transfer.{use_fec}
use cs60_final_project.Sender.State.{Floats, SendEngine, SendEnv}
use cs60_final_project.Sender.Sending.{send_window}
use cs60_final_project.Sender.Files.{
  FileEnv, SendError, SourceFile, read_source, register_transfer, send_data, send_file,
  completed_ids, cleanup_completed_transfers, resume_transfers,
}
use cs60_final_project.Sender.Calls.{Call, Calls}
use cs60_final_project.Sender.KeptWindows.{
  HasWindows, insert-AreWindows, remove_sends-AreWindows, check_timeouts-HasWindows,
  send_window-HasWindows, retransmit_chunks-HasWindows, handle_sack-HasWindows,
  handle_delivered-HasWindows, new_send_state-IsWindow, resume_each-HasWindows,
}

module _ {F : Type 0} where
  register_transfer-HasWindows :
      (fl : Floats F) (files : FileEnv) (path destination : Text) (fec : Bool) (f : Bytes)
      (chunks : List Chunk) (e : SendEngine F)
      → HasWindows e
      → HasWindows (register_transfer fl files path destination fec f chunks e)
  unfolding register_transfer
  register_transfer-HasWindows fl files path destination fec f chunks e ok =
      insert-AreWindows files.fresh_id _ e.active_sends
        (new_send_state-IsWindow fl files.fresh_id e.config.window_size e.config.base_rto_ms
          (length chunks) 0 0)
        ok

  -- The engine of a result.
  abbrev pub Leaves : (SendEngine F → Type 0) → SendError ⊎ (Text × SendEngine F) → Type 0
  Leaves P (inl error) = Unit
  Leaves P (inr (b, e)) = P e

  read_source-Leaves :
      (P : SendEngine F → Type 0) (source : SourceFile)
      (send : Bytes → SendError ⊎ (Text × SendEngine F))
      → ((f : Bytes) → Leaves P (send f))
      → Leaves P (read_source source send)
  read_source-Leaves P SourceFile.absent send h = tt
  read_source-Leaves P SourceFile.unreadable send h = tt
  read_source-Leaves P (SourceFile.readable f) send h = h f

  pub send_file-HasWindows :
      (fl : Floats F) (env : SendEnv F) (files : FileEnv) (path destination : Text) (addr : Address)
      (fec : Option Bool) (e : SendEngine F)
      → HasWindows e
      → Leaves HasWindows (send_file fl env files path destination addr fec e)
  unfolding send_file send_data
  send_file-HasWindows fl env files path destination addr fec e ok =
      let with_fec = use_fec (or_default fec false) e.fec_config in
      let registered : Bytes → List Chunk → SendEngine F =
        λ f chunks. register_transfer fl files path destination with_fec f chunks e in
      read_source-Leaves HasWindows files.file
        (λ (f : Bytes). send_data fl env files path destination addr with_fec f e)
        (λ f.
          Option-elim (Leaves HasWindows)
            (create_chunks e.config e.fec_config f files.fresh_id with_fec)
            (inl SendError.division_by_zero)
            (λ (chunks : List Chunk).
              inr (files.fresh_id, send_window fl env files.fresh_id addr (registered f chunks)))
            (λ _. tt)
            (λ chunks _.
              send_window-HasWindows fl env files.fresh_id addr (registered f chunks)
                (register_transfer-HasWindows fl files path destination with_fec f chunks e ok)))

  cleanup_completed_transfers-HasWindows :
      (e : SendEngine F) → HasWindows e → HasWindows (cleanup_completed_transfers e)
  unfolding cleanup_completed_transfers
  cleanup_completed_transfers-HasWindows e ok =
      remove_sends-AreWindows (completed_ids e.active_sends) e.active_sends ok

  resume_transfers-HasWindows :
      (fl : Floats F) (e : SendEngine F) → HasWindows e → HasWindows (resume_transfers fl e)
  unfolding resume_transfers
  resume_transfers-HasWindows fl e ok =
      resume_each-HasWindows fl (list_bundles_by_state BundleState.sending e.storage) e ok

  pub Call-HasWindows :
      {fl : Floats F} {e e' : SendEngine F} → Call fl e e' → HasWindows e → HasWindows e'
  Call-HasWindows (Call.file_sent env files path destination addr fec b e' done) ok =
      subst (Leaves HasWindows) done
        (send_file-HasWindows _ env files path destination addr fec _ ok)
  Call-HasWindows (Call.sacked env msg addr) ok = handle_sack-HasWindows _ env msg addr _ ok
  Call-HasWindows (Call.delivered b) ok = handle_delivered-HasWindows b _ ok
  Call-HasWindows (Call.timed now) ok = check_timeouts-HasWindows _ now _ ok
  Call-HasWindows (Call.retransmitted env b addr) ok =
      retransmit_chunks-HasWindows _ env b addr _ ok
  Call-HasWindows Call.cleaned ok = cleanup_completed_transfers-HasWindows _ ok
  Call-HasWindows Call.resumed ok = resume_transfers-HasWindows _ _ ok
  Call-HasWindows (Call.stored_elsewhere s) ok = ok

  -- Whatever methods are called, in any order, on any messages and files and at any times, the window
  -- of every transfer stays in order: it starts at the first chunk that is not acknowledged, it ends
  -- where its size or the bundle ends, and no chunk behind its end has a timer or waits to be sent
  -- again.
  pub Calls-HasWindows :
      (fl : Floats F) (e e' : SendEngine F) → Calls fl e e' → HasWindows e → HasWindows e'
  Calls-HasWindows fl e e' Calls.none_yet ok = ok
  Calls-HasWindows fl e e' (Calls.then_call {e' = between} before last) ok =
      Call-HasWindows last (Calls-HasWindows fl e between before ok)
