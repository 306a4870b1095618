-- ===== src/Sender/Completion.antt =====
-- When a transfer is complete (courier/send_engine.py, `handle_sack` and `_complete_transfer`).
use cs60_final_project.Common.{
  ℕ, ◌≤◌, ◌<◌, ◌≡◌, refl, sym, ap, subst, ◌∙◌, Bool, true, false, ◌||◌, Option, none, some, [],
  Text, length, leb, ltb, text_eq, nat_eq, arith, if◌then◌else◌, if-elim, inl, inr, Bool-cases, All,
  elim-some, is_some,
}
use cs60_final_project.Common.Dict.{lookup, lookup-insert_self, beq_refl}
use cs60_final_project.Common.NatSet.{
  mem, add_all, IsSorted, mem-add_all, mem-All, All-mem, add_all-IsSorted,
}
use cs60_final_project.Common.Counting.{length-of_full, full-of_length}
use cs60_final_project.Protocol.{Address, SackMsg}
use cs60_final_project.Storage.{Bundle, BundleState, load_bundle, update_bundle_state, or_default}
use cs60_final_project.Storage.Bundles.{
  load_bundle-update_bundle_state, load_bundle-update_bundle_stats,
}
use cs60_final_project.Sender.State.{Floats, SendState, SendEngine, SendEnv, put_send}
use cs60_final_project.Sender.Sending.{send_window}
use cs60_final_project.Sender.Safety.{send_window-completed}
use cs60_final_project.Sender.Acks.{
  take_acks, complete_of, complete_transfer, after_acks, handle_sack, handle_delivered,
}
use cs60_final_project.Sender.Acknowledged.{take_acks_lem}

module _ {F : Type 0} where
  -- get_send_status(bundle_id)["completed"], false where there is no status
  abbrev pub is_completed : Option (SendState F) → Bool
  is_completed none = false
  is_completed (some st) = st.completed

  -- The row of a bundle that the sender has completed.
  abbrev pub delivered_row : SendState F → Option Bundle → Option Bundle
  delivered_row st none = none
  delivered_row st (some x) = some (record x {
    state = BundleState.delivered;
    bytes_sent = st.bytes_sent;
    chunks_retransmitted = st.chunks_retransmitted;
  })

  -- What completes a transfer.
  abbrev IsDone : Text → SendState F → SendEngine F → SendEngine F → Type 0
  IsDone b st e e' =
      (is_completed (lookup b e'.active_sends) ≡ true)
      × (e'.sent ≡ e.sent)
      × (load_bundle b e'.storage ≡ (
          if st.completed
          then load_bundle b e.storage
          else delivered_row st (load_bundle b e.storage)))

  complete_of_lem :
      (b : Text) (st : SendState F) (e : SendEngine F)
      → lookup b e.active_sends ≡ some st
      → IsDone b st e (complete_of b st e)
  unfolding complete_of
  complete_of_lem b st e found = elim (Bool-cases st.completed) [
    | inl done ↦ rw done (ap is_completed found ∙ done, refl, refl)
    | inr more ↦ rw more (
      ap is_completed (lookup-insert_self b (record st { completed = true }) e.active_sends),
      refl,
      ground (
        arith,
        load_bundle-update_bundle_state b b BundleState.delivered e.storage,
        load_bundle-update_bundle_stats b b (some st.bytes_sent) (some st.chunks_retransmitted)
            (update_bundle_state b BundleState.delivered e.storage),
        beq_refl b,
      ),
    )
  ]

  complete_transfer_lem :
      (b : Text) (st : SendState F) (e : SendEngine F)
      → lookup b e.active_sends ≡ some st
      → IsDone b st e (complete_transfer b e)
  unfolding complete_transfer
  complete_transfer_lem b st e found =
      subst (IsDone b st e)
        (sym (elim-some (lookup b e.active_sends) e (λ (x : SendState F). complete_of b x e) found))
        (complete_of_lem b st e found)

  -- A DELIVERED message completes a transfer that there is, in memory and in its row.
  pub handle_delivered-completes :
      (b : Text) (st : SendState F) (e : SendEngine F)
      → lookup b e.active_sends ≡ some st
      → IsDone b st e (handle_delivered b e)
  unfolding handle_delivered
  handle_delivered-completes b st e found =
      let known : is_some (lookup b e.active_sends) ≡ true = ap is_some found in
      rw known (complete_transfer_lem b st e found)

  pub handle_sack-found :
      (fl : Floats F) (env : SendEnv F) (msg : SackMsg) (addr : Address) (e : SendEngine F)
      (st : SendState F)
      → lookup msg.bundle_id e.active_sends ≡ some st
      → let b = msg.bundle_id in
        let st' = take_acks fl env e (or_default msg.acked_chunks []) st in
        handle_sack fl env msg addr e
        ≡ after_acks fl env b addr st.window_end st' (put_send b st' e)
  unfolding handle_sack
  handle_sack-found fl env msg addr e st found =
      let b = msg.bundle_id in
      let acks = take_acks fl env e (or_default msg.acked_chunks []) in
      elim-some (lookup b e.active_sends) e
        (λ (x : SendState F).
          after_acks fl env b addr x.window_end (acks x) (put_send b (acks x) e))
        found

  delivered_row_ext :
      (st x : SendState F) (row : Option Bundle)
      → x.bytes_sent ≡ st.bytes_sent
      → x.chunks_retransmitted ≡ st.chunks_retransmitted
      → delivered_row x row ≡ delivered_row st row
  delivered_row_ext st x none h k = refl
  delivered_row_ext st x (some y) h k = rw (h, k) refl

  -- A SACK after which every chunk of the bundle is acknowledged, by it or before, completes the
  -- transfer. Nothing is sent, and the row of the bundle becomes "delivered", with the counters of
  -- the transfer, unless the transfer was complete already.
  pub handle_sack-completes :
      (fl : Floats F) (env : SendEnv F) (msg : SackMsg) (addr : Address) (e : SendEngine F)
      (st : SendState F)
      → lookup msg.bundle_id e.active_sends ≡ some st
      → IsSorted st.acked_chunks
      → ((i : ℕ)
          → i < st.total_chunks
          → (mem i (or_default msg.acked_chunks []) || mem i st.acked_chunks) ≡ true)
      → let e' = handle_sack fl env msg addr e in
        (is_completed (lookup msg.bundle_id e'.active_sends) ≡ true)
        × (e'.sent ≡ e.sent)
        × (load_bundle msg.bundle_id e'.storage ≡ (
            if st.completed
            then load_bundle msg.bundle_id e.storage
            else delivered_row st (load_bundle msg.bundle_id e.storage)))
  unfolding after_acks
  handle_sack-completes fl env msg addr e st found sorted all =
      let b = msg.bundle_id in
      let acked = or_default msg.acked_chunks [] in
      let st' = take_acks fl env e acked st in
      let (same_acked, same_total, same_completed, same_bytes, same_count) =
        take_acks_lem fl env e acked st in
      let enough =
        length-of_full 0 st.total_chunks (add_all acked st.acked_chunks)
          (add_all-IsSorted acked st.acked_chunks sorted)
          (λ i _ h. mem-add_all acked i st.acked_chunks ∙ all i h) in
      let full : leb st'.total_chunks (length st'.acked_chunks) ≡ true =
        ground (arith, same_acked, same_total, enough) in
      let (done, quiet, row) =
        complete_transfer_lem b st' (put_send b st' e) (lookup-insert_self b st' e.active_sends) in
      let alike = delivered_row_ext st st' (load_bundle b e.storage) same_bytes same_count in
      rw (handle_sack-found fl env msg addr e st found, full)
        (done, quiet, row ∙ rw (same_completed, alike) refl)

  -- The converse, for a transfer that is not complete, and acknowledgements of chunks of the bundle
  -- only: if a SACK completes the transfer, then every chunk of the bundle is acknowledged, by it or
  -- before.
  pub handle_sack-completes_only :
      (fl : Floats F) (env : SendEnv F) (msg : SackMsg) (addr : Address) (e : SendEngine F)
      (st : SendState F)
      → lookup msg.bundle_id e.active_sends ≡ some st
      → st.completed ≡ false
      → IsSorted st.acked_chunks
      → All (λ (i : ℕ). i < st.total_chunks) st.acked_chunks
      → All (λ (i : ℕ). i < st.total_chunks) (or_default msg.acked_chunks [])
      → is_completed (lookup msg.bundle_id (handle_sack fl env msg addr e).active_sends) ≡ true
      → (i : ℕ) → i < st.total_chunks
      → (mem i (or_default msg.acked_chunks []) || mem i st.acked_chunks) ≡ true
  unfolding after_acks
  handle_sack-completes_only fl env msg addr e st found unfinished sorted low low' done i h =
      let b = msg.bundle_id in
      let acked = or_default msg.acked_chunks [] in
      let total = st.total_chunks in
      let both = add_all acked st.acked_chunks in
      let st' = take_acks fl env e acked st in
      let e' = put_send b st' e in
      let (same_acked, same_total, same_completed, same_bytes, same_count) =
        take_acks_lem fl env e acked st in
      let here = lookup-insert_self b st' e.active_sends in
      let run = handle_sack-found fl env msg addr e st found in
      let is_below : All (λ (j : ℕ). j < total) both =
        All-mem (λ (j : ℕ). j < total) both
          (λ j k. elim (Bool-cases (mem j acked)) [
            | inl hit ↦ mem-All (λ (x : ℕ). x < total) j acked low' hit
            | inr miss ↦
                mem-All (λ (x : ℕ). x < total) j st.acked_chunks low
                  (ground (arith, mem-add_all acked j st.acked_chunks, k, miss))
          ]) in
      elim (Bool-cases (leb st'.total_chunks (length st'.acked_chunks))) [
        | inl full ↦
            let enough : total ≤ length both = ground (arith, full, same_acked, same_total) in
            sym (mem-add_all acked i st.acked_chunks)
            ∙ full-of_length 0 total both (add_all-IsSorted acked st.acked_chunks sorted) is_below
                (omega (arith, enough)) i (omega arith) h
        | inr short ↦
            let P : SendEngine F → Type 0 = λ x. is_completed (lookup b x.active_sends) ≡ false in
            let still : st'.completed ≡ false = same_completed ∙ unfinished in
            let kept = send_window-completed fl env b addr e' st' here in
            let rest =
              if ltb st.window_end st'.window_end then send_window fl env b addr e' else e' in
            let step : after_acks fl env b addr st.window_end st' e' ≡ rest = rw short refl in
            let left : P rest =
              if-elim P (ltb st.window_end st'.window_end) (send_window fl env b addr e') e'
                (λ _. ap is_completed kept.1 ∙ kept.2.2 ∙ still)
                (λ _. ap is_completed here ∙ still) in
            let no : true ≡ false =
              sym done
              ∙ ap (λ (x : SendEngine F). is_completed (lookup b x.active_sends)) (run ∙ step)
              ∙ left in
            absurd (cc)
      ]
