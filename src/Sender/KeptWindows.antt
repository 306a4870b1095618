-- ===== src/Sender/KeptWindows.antt =====
-- Each method of `SendEngine` but `send_file` keeps the windows of its transfers in order
-- (courier/send_engine.py).
use cs60_final_project.Common.{
  ℕ, ◌<◌, ◌≤◌, ◌∙◌, sym, ◌≡◌, refl, subst, true, Option, none, some, inl, inr, List, [], ◌∷◌, Text,
  length, range, range_from, All, text_beq, text_eq, arith, leb, ltb, is_some, if-elim, Option-elim,
  Bool-cases, ◌-◌, ◌+◌, zero, suc,
}
use cs60_final_project.Common.Dict.{Dict, lookup, insert, remove, lookup-insert, lookup-remove}
use cs60_final_project.Common.NatSet.{All-mem}
use cs60_final_project.Protocol.{Address, SackMsg}
use cs60_final_project.Storage.{Bundle, load_chunks_for_bundle, or_default}
use cs60_final_project.Sender.State.{Floats, SendState, SendEngine, SendEnv, put_send}
use cs60_final_project.Sender.Sending.{
  cached_or_stored, chunk_dict, send_window_of, send_window, retransmit_of, retransmit_chunks,
}
use cs60_final_project.Sender.Acks.{
  take_acks, complete_of, complete_transfer, after_acks, handle_sack, handle_delivered,
}
use cs60_final_project.Sender.Timeouts.{check_transfer, check_transfers, check_timeouts}
use cs60_final_project.Sender.Files.{new_send_state, remove_sends, resume_each}
use cs60_final_project.Sender.Window.{IsWindow}
use cs60_final_project.Sender.Window.Sent.{send_each-IsWindow, drain_queue-IsWindow}
use cs60_final_project.Sender.Window.Acked.{take_acks-IsWindow}
use cs60_final_project.Sender.Window.Timed.{check_transfer-IsWindow}

range_from-below : (i n e : ℕ) → (0 < n → i + n ≤ e) → All (λ (j : ℕ). j < e) (range_from i n)
range_from-below i zero e h = tt
range_from-below i (suc n) e h = (
  omega (arith, h (omega arith)),
  range_from-below (suc i) n e (λ k. omega (arith, h (omega arith))),
)

range-below : (a b : ℕ) → All (λ (j : ℕ). j < b) (range a b)
range-below a b = range_from-below a (b - a) b (λ h. omega arith)

module _ {F : Type 0} where
  abbrev pub AreWindows : Dict Text (SendState F) → Type 0
  AreWindows sends = (b : Text) (st : SendState F) → lookup b sends ≡ some st → IsWindow st

  abbrev pub HasWindows : SendEngine F → Type 0
  HasWindows e = AreWindows e.active_sends

  pub insert-AreWindows :
      (b : Text) (st : SendState F) (sends : Dict Text (SendState F))
      → IsWindow st
      → AreWindows sends
      → AreWindows (insert b st sends)
  insert-AreWindows b st sends new ok d x h = elim (Bool-cases (text_beq b d)) [
    | inl hit ↦
        let same : st ≡ x = ground (arith, lookup-insert b d st sends, h, hit) in
        subst IsWindow same new
    | inr miss ↦ ok d x (ground (arith, lookup-insert b d st sends, h, miss))
  ]

  remove-AreWindows :
      (b : Text) (sends : Dict Text (SendState F)) → AreWindows sends → AreWindows (remove b sends)
  remove-AreWindows b sends ok d x h = ok d x (ground (arith, lookup-remove b d sends, h))

  pub remove_sends-AreWindows :
      (bs : List Text) (sends : Dict Text (SendState F))
      → AreWindows sends
      → AreWindows (remove_sends bs sends)
  remove_sends-AreWindows [] sends ok = ok
  remove_sends-AreWindows (b ∷ bs) sends ok =
      remove_sends-AreWindows bs (remove b sends) (remove-AreWindows b sends ok)

  pub lookup-check_transfers :
      (fl : Floats F) (now : F) (max_rto_ms : ℕ) (d : Text) (sends : Dict Text (SendState F))
      → lookup d (check_transfers fl now max_rto_ms sends) ≡ elim (lookup d sends) [
        | none ↦ none
        | some st ↦ some (check_transfer fl now max_rto_ms st)
      ]
  unfolding check_transfers
  lookup-check_transfers fl now max_rto_ms d [] = refl
  lookup-check_transfers fl now max_rto_ms d ((b, st) ∷ sends) = elim (Bool-cases (text_beq b d)) [
    | inl hit ↦ rw hit refl
    | inr miss ↦ rw miss (lookup-check_transfers fl now max_rto_ms d sends)
  ]

  checked-IsWindow :
      (fl : Floats F) (now : F) (max_rto_ms : ℕ) (found : Option (SendState F)) (x : SendState F)
      → ((st : SendState F) → found ≡ some st → IsWindow st)
      → elim found [ none ↦ none | some st ↦ some (check_transfer fl now max_rto_ms st) ] ≡ some x
      → IsWindow x
  checked-IsWindow fl now max_rto_ms none x ok h = absurd (cc)
  checked-IsWindow fl now max_rto_ms (some st) x ok h =
      let same : check_transfer fl now max_rto_ms st ≡ x = ground (arith, h) in
      subst IsWindow same (check_transfer-IsWindow fl now max_rto_ms st (ok st refl))

  pub check_timeouts-HasWindows :
      (fl : Floats F) (now : F) (e : SendEngine F)
      → HasWindows e
      → HasWindows (check_timeouts fl now e)
  unfolding check_timeouts
  check_timeouts-HasWindows fl now e ok b x h =
      checked-IsWindow fl now e.config.max_rto_ms (lookup b e.active_sends) x (ok b)
        (sym (lookup-check_transfers fl now e.config.max_rto_ms b e.active_sends) ∙ h)

  pub send_window-HasWindows :
      (fl : Floats F) (env : SendEnv F) (b : Text) (addr : Address) (e : SendEngine F)
      → HasWindows e
      → HasWindows (send_window fl env b addr e)
  unfolding send_window send_window_of
  send_window-HasWindows fl env b addr e ok =
      Option-elim HasWindows (lookup b e.active_sends) e
        (λ (st : SendState F). send_window_of fl env b addr st e) (λ _. ok)
        (λ st found.
          let chunks =
            cached_or_stored (lookup b e.chunk_cache)
              (chunk_dict (load_chunks_for_bundle b e.storage)) in
          let kept =
            send_each-IsWindow fl env addr chunks st.window_end
              (range st.window_start st.window_end) (st, e.sent)
              (range-below st.window_start st.window_end) (ok b st found, refl) in
          insert-AreWindows b _ e.active_sends kept.0 ok)

  pub retransmit_chunks-HasWindows :
      (fl : Floats F) (env : SendEnv F) (b : Text) (addr : Address) (e : SendEngine F)
      → HasWindows e
      → HasWindows (retransmit_chunks fl env b addr e)
  unfolding retransmit_chunks retransmit_of
  retransmit_chunks-HasWindows fl env b addr e ok =
      Option-elim HasWindows (lookup b e.active_sends) e
        (λ (st : SendState F). retransmit_of fl env b addr st e) (λ _. ok)
        (λ st found.
          let chunks = chunk_dict (load_chunks_for_bundle b e.storage) in
          let w = ok b st found in
          let below = All-mem (λ (i : ℕ). i < st.window_end) st.retransmit_queue w.queued in
          let kept =
            drain_queue-IsWindow fl env addr chunks st.window_end st.retransmit_queue (st, e.sent)
              below (w, refl) in
          if-elim HasWindows st.completed e _ (λ _. ok)
            (λ _. insert-AreWindows b _ e.active_sends kept.0 ok))

  complete_transfer-HasWindows :
      (b : Text) (e : SendEngine F) → HasWindows e → HasWindows (complete_transfer b e)
  unfolding complete_transfer complete_of
  complete_transfer-HasWindows b e ok =
      Option-elim HasWindows (lookup b e.active_sends) e (λ (st : SendState F). complete_of b st e)
        (λ _. ok)
        (λ st found.
          if-elim HasWindows st.completed e _ (λ _. ok)
            (λ _.
              insert-AreWindows b (record st { completed = true }) e.active_sends (ok b st found)
                ok))

  pub handle_sack-HasWindows :
      (fl : Floats F) (env : SendEnv F) (msg : SackMsg) (addr : Address) (e : SendEngine F)
      → HasWindows e
      → HasWindows (handle_sack fl env msg addr e)
  unfolding handle_sack after_acks
  handle_sack-HasWindows fl env msg addr e ok =
      let b = msg.bundle_id in
      let acks = take_acks fl env e (or_default msg.acked_chunks []) in
      Option-elim HasWindows (lookup b e.active_sends) e
        (λ (st : SendState F).
          after_acks fl env b addr st.window_end (acks st) (put_send b (acks st) e))
        (λ _. ok)
        (λ st found.
          let st' = acks st in
          let e' = put_send b st' e in
          let ok' : HasWindows e' =
            insert-AreWindows b st' e.active_sends
              (take_acks-IsWindow fl env e (or_default msg.acked_chunks []) st (ok b st found))
              ok in
          if-elim HasWindows (leb st'.total_chunks (length st'.acked_chunks))
            (complete_transfer b e') _ (λ _. complete_transfer-HasWindows b e' ok')
            (λ _.
              if-elim HasWindows (ltb st.window_end st'.window_end) (send_window fl env b addr e')
                e' (λ _. send_window-HasWindows fl env b addr e' ok') (λ _. ok')))

  pub handle_delivered-HasWindows :
      (b : Text) (e : SendEngine F) → HasWindows e → HasWindows (handle_delivered b e)
  unfolding handle_delivered
  handle_delivered-HasWindows b e ok =
      if-elim HasWindows (is_some (lookup b e.active_sends)) (complete_transfer b e) e
        (λ _. complete_transfer-HasWindows b e ok) (λ _. ok)

  pub new_send_state-IsWindow :
      (fl : Floats F) (b : Text) (size rto total bytes retx : ℕ)
      → IsWindow (new_send_state fl b size rto total bytes retx)
  unfolding new_send_state
  new_send_state-IsWindow fl b size rto total bytes retx = record {
    inside = omega arith;
    end_at = omega arith;
    acked_below = λ i h. absurd (omega arith);
    open_at = λ _. refl;
    sorted = tt;
    timed = λ i h. absurd (cc);
    queued = λ i h. absurd (cc);
  }

  pub resume_each-HasWindows :
      (fl : Floats F) (rows : List Bundle) (e : SendEngine F)
      → HasWindows e
      → HasWindows (resume_each fl rows e)
  unfolding resume_each
  resume_each-HasWindows fl [] e ok = ok
  resume_each-HasWindows fl (row ∷ rows) e ok = resume_each-HasWindows fl rows _ (
      insert-AreWindows row.bundle_id _ e.active_sends
        (new_send_state-IsWindow fl row.bundle_id e.config.window_size e.config.base_rto_ms
          row.total_chunks row.bytes_sent row.chunks_retransmitted)
        ok)
