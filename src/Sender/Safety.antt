-- ===== src/Sender/Safety.antt =====
-- What the sender hands to the network (courier/send_engine.py, `_send_window` and
-- `retransmit_chunks`), and what the sending leaves alone.
use cs60_final_project.Common.{
  ℕ, ◌-◌, ◌≤◌, ◌≡◌, refl, sym, ap, ◌∙◌, true, false, Option, none, some, List, [], ◌∷◌, ◌++◌,
  append-nil, append_assoc, length-range_from, length-append, All-append, Text, length, range,
  ==_iff, text_eq, nat_eq, arith, if◌then◌else◌, if-elim, All, elim-some,
}
use cs60_final_project.Common.Dict.{Dict, lookup, lookup-insert_self}
use cs60_final_project.Common.NatSet.{mem}
use cs60_final_project.Chunk.{Chunk}
use cs60_final_project.Protocol.{Address, Message, data_msg}
use cs60_final_project.Storage.{load_chunks_for_bundle}
use cs60_final_project.Transfer.{chunk_msg}
use cs60_final_project.Sender.State.{Floats, SendState, SendEngine, SendEnv, Outbox}
use cs60_final_project.Sender.Sending.{
  chunk_dict, cached_or_stored, offer, is_waiting, note_sent, send_one, send_each, send_window_of,
  send_window, note_resent, resend_one,
}
use cs60_final_project.Sender.Window.{IsWindow}

module _ {F : Type 0} where
  -- What sending does not change.
  abbrev pub IsSameTransfer : SendState F → SendState F → Type 0
  IsSameTransfer st x =
      (x.acked_chunks ≡ st.acked_chunks)
      × (x.total_chunks ≡ st.total_chunks)
      × (x.completed ≡ st.completed)

  module _ (fl : Floats F) (env : SendEnv F) (addr : Address) (chunks : Dict ℕ Chunk)
      (st : SendState F) where
    offer-IsSameTransfer :
        (note : Chunk → SendState F → SendState F) (found : Option Chunk)
        (now : SendState F × Outbox)
        → ((c : Chunk) → IsSameTransfer st now.0 → IsSameTransfer st (note c now.0))
        → IsSameTransfer st now.0
        → IsSameTransfer st (offer env addr note found now).0
    offer-IsSameTransfer note none now h ok = ok
    offer-IsSameTransfer note (some c) (x, sent) h ok =
        if-elim (IsSameTransfer st) (env.accepts (length sent)) (note c x) x (λ _. h c ok) (λ _. ok)

    send_one-IsSameTransfer :
        (i : ℕ) (now : SendState F × Outbox)
        → IsSameTransfer st now.0
        → IsSameTransfer st (send_one fl env addr chunks i now).0
    unfolding send_one
    send_one-IsSameTransfer i (x, sent) ok =
        let P : SendState F × Outbox → Type 0 = λ n. IsSameTransfer st n.0 in
        let note = note_sent fl env.send_now i in
        let offered = offer env addr note (lookup i chunks) (x, sent) in
        let is_early = is_waiting fl env.send_now (lookup i x.chunk_timers) in
        if-elim P (mem i x.acked_chunks) (x, sent) (if is_early then (x, sent) else offered)
          (λ _. ok)
          (λ _.
            if-elim P is_early (x, sent) offered (λ _. ok)
              (λ _. offer-IsSameTransfer note (lookup i chunks) (x, sent) (λ c h. h) ok))

    pub send_each-IsSameTransfer :
        (is : List ℕ) (now : SendState F × Outbox)
        → IsSameTransfer st now.0
        → IsSameTransfer st (send_each fl env addr chunks is now).0
    unfolding send_each
    send_each-IsSameTransfer [] now ok = ok
    send_each-IsSameTransfer (i ∷ is) now ok =
        send_each-IsSameTransfer is (send_one fl env addr chunks i now)
          (send_one-IsSameTransfer i now ok)

    pub resend_one-IsSameTransfer :
        (i : ℕ) (now : SendState F × Outbox)
        → IsSameTransfer st now.0
        → IsSameTransfer st (resend_one fl env addr chunks i now).0
    unfolding resend_one
    resend_one-IsSameTransfer i (x, sent) ok =
        let P : SendState F × Outbox → Type 0 = λ n. IsSameTransfer st n.0 in
        let note : Chunk → SendState F → SendState F = λ _. note_resent fl env.now i in
        if-elim P (mem i x.acked_chunks) (x, sent) (offer env addr note (lookup i chunks) (x, sent))
          (λ _. ok) (λ _. offer-IsSameTransfer note (lookup i chunks) (x, sent) (λ c h. h) ok)

    -- A message of a chunk that is one of the given ids and not acknowledged.
    abbrev pub IsOpenChunk : List ℕ → Message × Address → Type 0
    IsOpenChunk is m =
        (i : ℕ) × (c : Chunk) × (mem i is ≡ true)
        × (mem i st.acked_chunks ≡ false)
        × (lookup i chunks ≡ some c)
        × (m ≡ (data_msg (chunk_msg st.total_chunks c), addr))

    -- The outbox has grown by such messages, at most one for each id.
    abbrev pub IsGrown : List ℕ → Outbox → Outbox → Type 0
    IsGrown is before after =
        (news : Outbox) × (after ≡ before ++ news)
        × (length news ≤ length is)
        × All (IsOpenChunk is) news

    All-IsOpenChunk :
        (is js : List ℕ) (ms : Outbox)
        → ((i : ℕ) → mem i is ≡ true → mem i js ≡ true)
        → All (IsOpenChunk is) ms
        → All (IsOpenChunk js) ms
    All-IsOpenChunk is js [] h all = tt
    All-IsOpenChunk is js (m ∷ ms) h ((i, c, here, fresh, found, e), rest) =
        ((i, c, h i here, fresh, found, e), All-IsOpenChunk is js ms h rest)

    pub stays-IsGrown : (is : List ℕ) (sent : Outbox) → IsGrown is sent sent
    stays-IsGrown is sent = ([], sym (append-nil sent), omega arith, tt)

    pub offer-IsGrown :
        (i : ℕ) (note : Chunk → SendState F → SendState F) (found : Option Chunk) (x : SendState F)
        (sent : Outbox)
        → lookup i chunks ≡ found
        → mem i st.acked_chunks ≡ false
        → IsSameTransfer st x
        → IsGrown (i ∷ []) sent (offer env addr note found (x, sent)).1
    offer-IsGrown i note none x sent e fresh ok = stays-IsGrown (i ∷ []) sent
    offer-IsGrown i note (some c) x sent e fresh ok = (
      (data_msg (chunk_msg x.total_chunks c), addr) ∷ [],
      refl,
      omega arith,
      (
        (
          i,
          c,
          ground (arith, ==_iff i i),
          fresh,
          e,
          ap (λ (n : ℕ). (data_msg (chunk_msg n c), addr)) ok.1,
        ),
        tt,
      ),
    )

    send_one-IsGrown :
        (i : ℕ) (now : SendState F × Outbox)
        → IsSameTransfer st now.0
        → IsGrown (i ∷ []) now.1 (send_one fl env addr chunks i now).1
    unfolding send_one
    send_one-IsGrown i (x, sent) ok =
        let P : SendState F × Outbox → Type 0 = λ n. IsGrown (i ∷ []) sent n.1 in
        let note = note_sent fl env.send_now i in
        let offered = offer env addr note (lookup i chunks) (x, sent) in
        let is_early = is_waiting fl env.send_now (lookup i x.chunk_timers) in
        if-elim P (mem i x.acked_chunks) (x, sent) (if is_early then (x, sent) else offered)
          (λ _. stays-IsGrown (i ∷ []) sent)
          (λ fresh.
            if-elim P is_early (x, sent) offered (λ _. stays-IsGrown (i ∷ []) sent)
              (λ _. offer-IsGrown i note (lookup i chunks) x sent refl (rw (← ok.0) fresh) ok))

    pub resend_one-IsGrown :
        (i : ℕ) (now : SendState F × Outbox)
        → IsSameTransfer st now.0
        → IsGrown (i ∷ []) now.1 (resend_one fl env addr chunks i now).1
    unfolding resend_one
    resend_one-IsGrown i (x, sent) ok =
        let P : SendState F × Outbox → Type 0 = λ n. IsGrown (i ∷ []) sent n.1 in
        let note : Chunk → SendState F → SendState F = λ _. note_resent fl env.now i in
        if-elim P (mem i x.acked_chunks) (x, sent) (offer env addr note (lookup i chunks) (x, sent))
          (λ _. stays-IsGrown (i ∷ []) sent)
          (λ fresh. offer-IsGrown i note (lookup i chunks) x sent refl (rw (← ok.0) fresh) ok)

    pub send_each-IsGrown :
        (is : List ℕ) (now : SendState F × Outbox)
        → IsSameTransfer st now.0
        → IsGrown is now.1 (send_each fl env addr chunks is now).1
    unfolding send_each
    send_each-IsGrown [] now ok = ([], sym (append-nil now.1), omega arith, tt)
    send_each-IsGrown (i ∷ is) now ok =
        let (first, e, few, good) = send_one-IsGrown i now ok in
        let (more, e', few', good') =
          send_each-IsGrown is (send_one fl env addr chunks i now)
            (send_one-IsSameTransfer i now ok) in
        (
          first ++ more,
          e' ∙ ap (λ (t : Outbox). t ++ more) e ∙ append_assoc now.1 first more,
          omega (arith, length-append first more, few, few'),
          All-append (IsOpenChunk (i ∷ is)) first more
              (All-IsOpenChunk (i ∷ []) (i ∷ is) first (λ j h. ground (arith, h)) good)
              (All-IsOpenChunk is (i ∷ is) more (λ j h. ground (arith, h)) good'),
        )

  -- Sending changes nothing of what is acknowledged and does not complete a transfer.
  pub send_window-completed :
      (fl : Floats F) (env : SendEnv F) (b : Text) (addr : Address) (e : SendEngine F)
      (st : SendState F)
      → lookup b e.active_sends ≡ some st
      → (x : SendState F) × (lookup b (send_window fl env b addr e).active_sends ≡ some x)
        × IsSameTransfer st x
  unfolding send_window send_window_of
  send_window-completed fl env b addr e st found =
      let chunks =
        cached_or_stored (lookup b e.chunk_cache)
          (chunk_dict (load_chunks_for_bundle b e.storage)) in
      let ids = range st.window_start st.window_end in
      let after = send_each fl env addr chunks ids (st, e.sent) in
      let run =
        elim-some (lookup b e.active_sends) e
          (λ (x : SendState F). send_window_of fl env b addr x e) found in
      (
        after.0,
        ap (λ (x : SendEngine F). lookup b x.active_sends) run
            ∙ lookup-insert_self b after.0 e.active_sends,
        send_each-IsSameTransfer fl env addr chunks st ids (st, e.sent) (refl, refl, refl),
      )

  -- `_send_window` hands to the network only DATA messages of chunks that stand in the window and are
  -- not acknowledged, at most as many as the window is large. Afterwards the transfer has the same
  -- acknowledged chunks, the same number of chunks, and is complete or not as before. This holds of a
  -- transfer whose window is in order.
  pub send_window-IsGrown :
      (fl : Floats F) (env : SendEnv F) (b : Text) (addr : Address) (e : SendEngine F)
      (st : SendState F)
      → lookup b e.active_sends ≡ some st
      → IsWindow st
      → let chunks =
          cached_or_stored
            (lookup b e.chunk_cache)
            (chunk_dict (load_chunks_for_bundle b e.storage)) in
        (news : Outbox) × ((send_window fl env b addr e).sent ≡ e.sent ++ news)
        × (length news ≤ st.window_size)
        × All (IsOpenChunk fl env addr chunks st (range st.window_start st.window_end)) news
        × ((x : SendState F) × (lookup b (send_window fl env b addr e).active_sends ≡ some x)
            × IsSameTransfer st x)
  unfolding send_window send_window_of
  send_window-IsGrown fl env b addr e st found ok =
      let chunks =
        cached_or_stored (lookup b e.chunk_cache)
          (chunk_dict (load_chunks_for_bundle b e.storage)) in
      let ids = range st.window_start st.window_end in
      let (news, grown, few, good) =
        send_each-IsGrown fl env addr chunks st ids (st, e.sent) (refl, refl, refl) in
      let run =
        elim-some (lookup b e.active_sends) e
          (λ (x : SendState F). send_window_of fl env b addr x e) found in
      (
        news,
        ap (λ (x : SendEngine F). x.sent) run ∙ grown,
        omega (
          arith,
          few,
          length-range_from st.window_start (st.window_end - st.window_start),
          ok.end_at,
        ),
        good,
        send_window-completed fl env b addr e st found,
      )
