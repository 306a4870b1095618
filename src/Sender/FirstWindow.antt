-- ===== src/Sender/FirstWindow.antt =====
-- What `send_file` sends at once (courier/send_engine.py), and the transfer that it begins.
use cs60_final_project.Common.{
  ℕ, zero, suc, ◌+◌, ◌-◌, ◌<◌, min, ◌≡◌, refl, ap, ◌∙◌, Bool, false, Option, some, List, [], ◌∷◌,
  ◌++◌, Text, Bytes, length, take, text_eq, nat_eq, arith, inl, inr, elim-some,
}
use cs60_final_project.Common.Dict.{Dict, lookup, lookup-insert_self}
use cs60_final_project.Chunk.{Chunk}
use cs60_final_project.Chunking.{create_chunks}
use cs60_final_project.Protocol.{Address}
use cs60_final_project.Storage.{load_chunks_for_bundle, or_default}
use cs60_final_project.Transfer.{use_fec}
use cs60_final_project.Transfer.Numbering.{create_chunks-IsNumbered}
use cs60_final_project.Sender.State.{Floats, SendState, SendEngine, SendEnv}
use cs60_final_project.Sender.Sending.{chunk_dict, cached_or_stored, send_window_of, send_window}
use cs60_final_project.Sender.Files.{
  FileEnv, SendError, SourceFile, read_source, new_send_state, register_transfer, send_data,
  send_file,
}
use cs60_final_project.Sender.FreshSending.{lookup-chunk_dict, messages_of, send_each-fresh}

cached-known :
    (j : ℕ) (d stored : Dict ℕ Chunk) {c : Chunk}
    → lookup j d ≡ some c
    → lookup j (cached_or_stored (some d) stored) ≡ some c
cached-known j [] stored h = absurd (cc)
cached-known j (entry ∷ d) stored h = h

take-min : {A : Type 0} (n : ℕ) (xs : List A) → take (min n (length xs) - 0) xs ≡ take n xs
take-min zero xs = let e : min 0 (length xs) - 0 ≡ 0 = omega arith in ap (λ (n : ℕ). take n xs) e
take-min {A = A} (suc n) [] =
    let e : min (suc n) 0 - 0 ≡ 0 = omega arith in ap (λ (m : ℕ). take {A = A} m []) e
take-min {A = A} (suc n) (x ∷ xs) =
    let e : min (suc n) (suc (length xs)) - 0 ≡ suc (min n (length xs) - 0) = omega arith in
    ap (λ (m : ℕ). take m (x ∷ xs)) e ∙ ap (λ (ys : List A). x ∷ ys) (take-min n xs)

module _ {F : Type 0} (fl : Floats F) (env : SendEnv F) (files : FileEnv) (path destination : Text)
    (addr : Address) (fec : Option Bool) (e : SendEngine F) where
  abbrev with_fec : Bool
  with_fec = use_fec (or_default fec false) e.fec_config

  module _ (f : Bytes) (chunks : List Chunk) (there : files.file ≡ SourceFile.readable f)
      (made : create_chunks e.config e.fec_config f files.fresh_id with_fec ≡ some chunks) where
    abbrev registered : SendEngine F
    registered = register_transfer fl files path destination with_fec f chunks e

    send_file-found :
        send_file fl env files path destination addr fec e
        ≡ inr (files.fresh_id, send_window fl env files.fresh_id addr registered)
    unfolding send_file send_data
    send_file-found =
        ap
          (λ (source : SourceFile).
            read_source source
              (λ (g : Bytes). send_data fl env files path destination addr with_fec g e))
          there
        ∙ elim-some (create_chunks e.config e.fec_config f files.fresh_id with_fec)
            (inl SendError.division_by_zero)
            (λ (cs : List Chunk). inr (
              files.fresh_id,
              send_window fl env files.fresh_id addr
                  (register_transfer fl files path destination with_fec f cs e),
            ))
            made

    -- A file that is there and not empty, and that is cut into chunks, is sent as a new bundle: the
    -- first chunks, as many as the window is large, go to the network at once, each as its DATA
    -- message, in the order of their numbers, whether the network takes them or not.
    pub send_file-first_window :
        0 < length f
        → (e' : SendEngine F) × (send_file fl env files path destination addr fec e
            ≡ inr (files.fresh_id, e'))
          × (e'.sent
              ≡ e.sent ++ messages_of (length chunks) addr (take e.config.window_size chunks))
    unfolding send_window send_window_of register_transfer new_send_state
    send_file-first_window some_data =
        let b = files.fresh_id in
        let st =
          new_send_state fl b e.config.window_size e.config.base_rto_ms (length chunks) 0 0 in
        let stored = chunk_dict (load_chunks_for_bundle b registered.storage) in
        let cached =
          ap (λ (d : Option (Dict ℕ Chunk)). cached_or_stored d stored)
            (lookup-insert_self b (chunk_dict chunks) e.chunk_cache) in
        let numbered =
          create_chunks-IsNumbered e.config e.fec_config f b with_fec chunks made some_data in
        let run =
          elim-some (lookup b registered.active_sends) registered
            (λ (x : SendState F). send_window_of fl env b addr x registered)
            (lookup-insert_self b st e.active_sends) in
        let size = min e.config.window_size (length chunks) - 0 in
        (
          send_window fl env b addr registered,
          send_file-found,
          ap (λ (x : SendEngine F). x.sent) run
              ∙ send_each-fresh fl env addr
                  (cached_or_stored (lookup b registered.chunk_cache) stored) (length chunks) size 0
                  chunks st e.sent (refl, refl, λ i h. refl) (omega arith)
                  (λ j c h.
                    ap (λ (d : Dict ℕ Chunk). lookup (0 + j) d) cached
                    ∙ cached-known (0 + j) (chunk_dict chunks) stored
                        (lookup-chunk_dict chunks 0 j [] numbered h))
              ∙ ap (λ (cs : List Chunk). e.sent ++ messages_of (length chunks) addr cs)
                  (take-min e.config.window_size chunks),
        )

    -- The transfer that `send_file` begins is among the active ones.
    pub send_file-active :
        (e' : SendEngine F)
        → send_file fl env files path destination addr fec e ≡ inr (files.fresh_id, e')
        → (st : SendState F) × (lookup files.fresh_id e'.active_sends ≡ some st)
    unfolding send_window send_window_of register_transfer
    send_file-active e' made_it =
        let b = files.fresh_id in
        let x = new_send_state fl b e.config.window_size e.config.base_rto_ms (length chunks) 0 0 in
        let there_now = lookup-insert_self b x e.active_sends in
        let run =
          elim-some (lookup b registered.active_sends) registered
            (λ (y : SendState F). send_window_of fl env b addr y registered) there_now in
        let same : e' ≡ send_window fl env b addr registered = cc (made_it, send_file-found) in
        (
          _,
          ap (λ (y : SendEngine F). lookup b y.active_sends) (same ∙ run)
              ∙ lookup-insert_self b _ registered.active_sends,
        )
