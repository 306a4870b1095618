-- ===== src/Receiver/Announced.antt =====
-- What a DELIVERED message of the receive engine stands for: `handle_data` marks a bundle as delivered
-- only when it sends one (courier/receive_engine.py).
use cs60_final_project.Common.{
  ℕ, zero, suc, ◌≡◌, refl, sym, ◌∙◌, subst, true, Option, none, some, List, [], ◌∷◌, ◌++◌, Text,
  length, range, if-elim, get_elem?, ◌&&◌, ◌||◌, ltb, leb, if◌then◌else◌, Option-cases, inl, inr,
  text_eq,
}
use cs60_final_project.Common.Dict.{lookup, insert, lookup-insert_self}
use cs60_final_project.Common.NatSet.{mem, add}
use cs60_final_project.Chunk.{Chunk}
use cs60_final_project.Protocol.{Message, DataMsg, Address, make_delivered_msg}
use cs60_final_project.Receiver.{
  ReceiveEngine, ReceiveState, Env, Disk, writable, unopened, breaks_after, absent_ids, num_data_of,
  put_state, is_empty, is_full, is_sack_due, store_payload, reconstruct_one, try_fec_reconstruct,
  reconstruct_if_fec, record_chunk, send_sack, create_receive_state, after_write, maybe_deliver,
  save_recovered, flush_buffer, finish_data, new_chunk, with_state, known_or_new, handle_data,
}

-- A DELIVERED message of the bundle stands among the messages.
abbrev pub Told : Text → List (Message × Address) → Type 0
Told b sent = (i : ℕ) × (addr : Address) × (get_elem? sent i ≡ some (make_delivered_msg b, addr))

-- The state is that of the bundle, and if it is delivered, a DELIVERED message was sent.
abbrev pub IsTold : Text → List (Message × Address) → ReceiveState → Type 0
IsTold b sent st = (st.bundle_id ≡ b) × (st.delivered ≡ true → Told b sent)

get_elem?-before :
    {A : Type 0} (xs ys : List A) (i : ℕ) (x : A)
    → get_elem? xs i ≡ some x
    → get_elem? (xs ++ ys) i ≡ some x
get_elem?-before [] ys i x h = absurd (cc)
get_elem?-before (y ∷ xs) ys zero x h = h
get_elem?-before (y ∷ xs) ys (suc i) x h = get_elem?-before xs ys i x h

get_elem?-behind :
    {A : Type 0} (xs ys : List A) (x : A) → get_elem? (xs ++ x ∷ ys) (length xs) ≡ some x
get_elem?-behind [] ys x = refl
get_elem?-behind (y ∷ xs) ys x = get_elem?-behind xs ys x

Told-before : (b : Text) (xs ys : List (Message × Address)) → Told b xs → Told b (xs ++ ys)
Told-before b xs ys (i, addr, h) = (i, addr, get_elem?-before xs ys i _ h)

-- Two states of the same bundle, both delivered or both not.
abbrev IsAlike : ReceiveState → ReceiveState → Type 0
IsAlike st st' = (st'.bundle_id ≡ st.bundle_id) × (st'.delivered ≡ st.delivered)

IsAlike-IsTold :
    (b : Text) (sent : List (Message × Address)) (st st' : ReceiveState)
    → IsAlike st st'
    → IsTold b sent st
    → IsTold b sent st'
IsAlike-IsTold b sent st st' (named, done) told = (named ∙ told.0, λ d. told.1 (sym done ∙ d))

store_payload-IsAlike :
    (i block_id : ℕ) (p : List ℕ) (st : ReceiveState) → IsAlike st (store_payload i block_id p st)
unfolding store_payload
store_payload-IsAlike i block_id p st =
    let P : ReceiveState → Type 0 = IsAlike st in
    if-elim P (st.fec_enabled && (ltb 0 st.k && ltb 0 st.num_data_chunks)) _ _
      (λ _. if-elim P (ltb i st.num_data_chunks) _ _ (λ _. (refl, refl)) (λ _. (refl, refl)))
      (λ _. (refl, refl))

reconstruct_one-IsAlike :
    (block_id : ℕ) (missing : List ℕ) (parities : List (List ℕ)) (st : ReceiveState)
    → IsAlike st (reconstruct_one st block_id missing parities).0
reconstruct_one-IsAlike a [] ps st = (refl, refl)
reconstruct_one-IsAlike a (x ∷ []) [] st = (refl, refl)
reconstruct_one-IsAlike a (x ∷ y ∷ xs) ps st = (refl, refl)
reconstruct_one-IsAlike a (x ∷ []) (q ∷ qs) st = (refl, refl)

reconstruct_if_fec-IsAlike :
    (block_id : ℕ) (st : ReceiveState) → IsAlike st (reconstruct_if_fec st block_id).0
unfolding try_fec_reconstruct
reconstruct_if_fec-IsAlike a st =
    let P : ReceiveState × Option Chunk → Type 0 = λ p. IsAlike st p.0 in
    if-elim P st.fec_enabled _ _
      (λ _.
        if-elim P (st.fec_enabled && (ltb 0 st.k && ltb 0 st.r)) _ _
          (λ _. reconstruct_one-IsAlike a _ _ st) (λ _. (refl, refl)))
      (λ _. (refl, refl))

record_chunk-IsAlike : (msg : DataMsg) (st : ReceiveState) → IsAlike st (record_chunk msg st)
unfolding record_chunk
record_chunk-IsAlike msg st =
    store_payload-IsAlike msg.chunk_id msg.block_id msg.payload
      (record st { received_chunks = add msg.chunk_id st.received_chunks })

module _ {T : Type 0} where
  -- A bundle is marked as delivered only if a DELIVERED message of it was sent.
  abbrev pub Announces : Text → ReceiveEngine T → Type 0
  Announces b e = (st : ReceiveState) → lookup b e.active_receives ≡ some st → IsTold b e.sent st

  put_state-Announces :
      (b : Text) (st : ReceiveState) (e : ReceiveEngine T)
      → IsTold b e.sent st
      → Announces b (put_state b st e)
  put_state-Announces b st e told s found =
      let here = lookup-insert_self b st e.active_receives in
      subst (IsTold b e.sent) {x = st} {y = s} (cc) told

  send_sack-Announces :
      (b a : Text) (addr : Address) (e : ReceiveEngine T)
      → Announces b e
      → Announces b (send_sack a addr e)
  unfolding send_sack
  send_sack-Announces b a addr e ok = elim (Option-cases (lookup a e.active_receives)) [
    | inl unknown ↦ rw (unknown, send_sack) ok
    | inr (st, known) ↦
        rw (known, send_sack)
          λ s found. let told = ok s found in (told.0, λ d. Told-before b e.sent _ (told.1 d))
  ]

  after_write-Announces :
      (b : Text) (disk : Disk) (env : Env) (st : ReceiveState) (addr : Address)
      (e : ReceiveEngine T)
      → st.bundle_id ≡ b
      → Announces b e
      → Announces b (after_write disk env st addr e)
  after_write-Announces b unopened env st addr e named ok = ok
  after_write-Announces b (breaks_after n) env st addr e named ok = ok
  after_write-Announces b writable env st addr e named ok =
      subst
        (λ t.
          (s : ReceiveState)
          → lookup t (insert st.bundle_id (record st { delivered = true }) e.active_receives)
            ≡ some s
          → IsTold t (after_write writable env st addr e).sent s)
        named
        λ s found.
          let put = record st { delivered = true } in
          let here = lookup-insert_self st.bundle_id put e.active_receives in
          let sent = get_elem?-behind e.sent [] (make_delivered_msg st.bundle_id, addr) in
          subst (IsTold st.bundle_id (after_write writable env st addr e).sent) {x = put} {y = s}
            (cc) (refl, λ _. Told-before st.bundle_id _ _ (length e.sent, addr, sent))

  maybe_deliver-Announces :
      (b : Text) (env : Env) (st : ReceiveState) (addr : Address) (e : ReceiveEngine T)
      → st.bundle_id ≡ b
      → Announces b e
      → Announces b (maybe_deliver env st addr e)
  unfolding maybe_deliver
  maybe_deliver-Announces b env st addr e named ok =
      if-elim (Announces b) st.delivered _ _ (λ _. ok)
        (λ _.
          if-elim (Announces b) (is_empty (absent_ids st.data_chunks (range 0 (num_data_of st)))) _
            _ (λ _. after_write-Announces b env.disk env st addr e named ok) (λ _. ok))

  flush_buffer-sent :
      (st : ReceiveState) (e : ReceiveEngine T)
      → let (st', e') = flush_buffer st e in IsAlike st st' × (e'.sent ≡ e.sent)
  unfolding flush_buffer
  flush_buffer-sent st e =
      if-elim (λ (p : ReceiveState × ReceiveEngine T). IsAlike st p.0 × (p.1.sent ≡ e.sent))
        (leb 500 (length st.write_buffer) || is_full st) _ _ (λ _. ((refl, refl), refl))
        (λ _. ((refl, refl), refl))

  finish_data-Announces :
      (env : Env) (b : Text) (addr : Address) (st : ReceiveState) (e : ReceiveEngine T)
      → IsTold b e.sent st
      → Announces b (finish_data env b addr st e)
  unfolding finish_data
  finish_data-Announces env b addr st e told =
      let flushed = flush_buffer st e in
      let (alike, same) = flush_buffer-sent st e in
      let now = IsAlike-IsTold b e.sent st flushed.0 alike told in
      let placed = put_state b flushed.0 flushed.1 in
      let ok =
        put_state-Announces b flushed.0 flushed.1
          (subst (λ xs. IsTold b xs flushed.0) (sym same) now) in
      maybe_deliver-Announces b env flushed.0 addr
        (if is_sack_due flushed.0 then send_sack b addr placed else placed) now.0
        (if-elim (Announces b) (is_sack_due flushed.0) _ _
          (λ _. send_sack-Announces b b addr placed ok) (λ _. ok))

  save_recovered-sent :
      (saved : Option Chunk) (e : ReceiveEngine T) → (save_recovered saved e).sent ≡ e.sent
  save_recovered-sent none e = refl
  save_recovered-sent (some c) e = refl

  new_chunk-Announces :
      (env : Env) (msg : DataMsg) (addr : Address) (st : ReceiveState) (e : ReceiveEngine T)
      → IsTold msg.bundle_id e.sent st
      → Announces msg.bundle_id (new_chunk env msg addr st e)
  unfolding new_chunk
  new_chunk-Announces env msg addr st e told =
      let b = msg.bundle_id in
      let buffered = record_chunk msg st in
      let tried = reconstruct_if_fec buffered msg.block_id in
      let first = IsAlike-IsTold b e.sent st buffered (record_chunk-IsAlike msg st) told in
      let second =
        IsAlike-IsTold b e.sent buffered tried.0 (reconstruct_if_fec-IsAlike msg.block_id buffered)
          first in
      finish_data-Announces env b addr tried.0 (save_recovered tried.1 e)
        (subst (λ xs. IsTold b xs tried.0) (sym (save_recovered-sent tried.1 e)) second)

  with_state-Announces :
      (env : Env) (msg : DataMsg) (addr : Address) (st : ReceiveState) (e : ReceiveEngine T)
      → IsTold msg.bundle_id e.sent st
      → Announces msg.bundle_id e
      → Announces msg.bundle_id (with_state env msg addr st e)
  with_state-Announces env msg addr st e told ok =
      if-elim (Announces msg.bundle_id) (mem msg.chunk_id st.received_chunks) _ _
        (λ _. send_sack-Announces msg.bundle_id msg.bundle_id addr e ok)
        (λ _. new_chunk-Announces env msg addr st e told)

  known_or_new-Announces :
      (found : Option ReceiveState) (env : Env) (msg : DataMsg) (addr : Address)
      (e : ReceiveEngine T)
      → lookup msg.bundle_id e.active_receives ≡ found
      → Announces msg.bundle_id e
      → Announces msg.bundle_id (known_or_new found env msg addr e)
  unfolding create_receive_state
  known_or_new-Announces none env msg addr e q ok =
      let b = msg.bundle_id in
      let (st, e') = create_receive_state env b msg.total_chunks msg.k msg.r addr e in
      let told : IsTold b e.sent st = (refl, λ d. absurd (cc)) in
      with_state-Announces env msg addr st (put_state b st e') told
        (put_state-Announces b st e' told)
  known_or_new-Announces (some st) env msg addr e q ok =
      with_state-Announces env msg addr st e (ok st q) ok

  -- A bundle stands as delivered in memory only if a DELIVERED message of it is among what was handed
  -- to the network: `handle_data` keeps this for the bundle of its message, whatever was received
  -- before and whatever becomes of the disk.
  pub handle_data-Announces :
      (b : Text) (env : Env) (msg : DataMsg) (addr : Address) (e : ReceiveEngine T)
      → msg.bundle_id ≡ b
      → Announces b e
      → Announces b (handle_data env msg addr e)
  unfolding handle_data
  handle_data-Announces b env msg addr e named =
      subst (λ t. Announces t e → Announces t (handle_data env msg addr e)) named
        (known_or_new-Announces (lookup msg.bundle_id e.active_receives) env msg addr e refl)
