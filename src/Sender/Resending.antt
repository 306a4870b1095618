-- ===== src/Sender/Resending.antt =====
-- The retransmission of the chunks of one bundle among those of others (courier/send_engine.py,
-- `retransmit_chunks`).
use cs60_final_project.Common.{
  ℕ, ◌≡◌, refl, sym, ap, subst, ◌∙◌, Bool, true, false, ◌⊎◌, some, [], ◌∷◌, ◌++◌, append_assoc,
  append-nil, Text, text_beq, text_eq, nat_eq, arith, if◌then◌else◌, inl, inr, Bool-cases,
  Option-cases, elim-some, elim-none,
}
use cs60_final_project.Common.Dict.{lookup, lookup-insert}
use cs60_final_project.Common.NatSet.{mem}
use cs60_final_project.Chunk.{Chunk}
use cs60_final_project.Protocol.{Message, Address, data_msg}
use cs60_final_project.Storage.{load_chunks_for_bundle}
use cs60_final_project.Transfer.{chunk_msg}
use cs60_final_project.Sender.State.{Floats, SendState, SendEngine, SendEnv, Outbox, put_send}
use cs60_final_project.Sender.Sending.{chunk_dict, drain_queue, retransmit_of, retransmit_chunks}
use cs60_final_project.Sender.Queue.{HasNew, drain_queue-grows, drain_queue-HasNew}
use cs60_final_project.Sender.Retransmission.{retransmit_chunks-found}

abbrev pub Grows : Outbox → Outbox → Type 0
Grows before after = (news : Outbox) × (after ≡ before ++ news)

pub Grows-trans : (xs ys zs : Outbox) → Grows xs ys → Grows ys zs → Grows xs zs
Grows-trans xs ys zs (a, p) (b, q) =
    (a ++ b, q ∙ ap (λ (t : Outbox). t ++ b) p ∙ append_assoc xs a b)

pub HasNew-Grows :
    (m : Message × Address) (xs ys zs : Outbox) → HasNew m xs ys → Grows ys zs → HasNew m xs zs
HasNew-Grows m xs ys zs (a, b, p) (news, q) = (
  a,
  b ++ news,
  q
      ∙ ap (λ (t : Outbox). t ++ news) p
      ∙ append_assoc xs (a ++ m ∷ b) news
      ∙ ap (λ (t : Outbox). xs ++ t) (append_assoc a (m ∷ b) news),
)

pub Grows-HasNew :
    (m : Message × Address) (xs ys zs : Outbox) → Grows xs ys → HasNew m ys zs → HasNew m xs zs
Grows-HasNew m xs ys zs (news, p) (a, b, q) = (
  news ++ a,
  b,
  q
      ∙ ap (λ (t : Outbox). t ++ (a ++ m ∷ b)) p
      ∙ append_assoc xs news (a ++ m ∷ b)
      ∙ ap (λ (t : Outbox). xs ++ t) (sym (append_assoc news a (m ∷ b))),
)

module _ {F : Type 0} (fl : Floats F) where
  -- What `retransmit_chunks` does: nothing, or it changes one transfer and sends something.
  retransmit_chunks_cases :
      (env : SendEnv F) (d : Text) (addr : Address) (e : SendEngine F)
      → (retransmit_chunks fl env d addr e ≡ e)
        ⊎ ((x : SendState F) × (news : Outbox) × (retransmit_chunks fl env d addr e
              ≡ put_send d x (record e { sent = e.sent ++ news })))
  unfolding retransmit_chunks retransmit_of
  retransmit_chunks_cases env d addr e =
      let run = λ (x : SendState F). retransmit_of fl env d addr x e in
      elim (Option-cases (lookup d e.active_sends)) [
        | inl unknown ↦ inl (elim-none (lookup d e.active_sends) e run unknown)
        | inr (st, found) ↦
            let chunks = chunk_dict (load_chunks_for_bundle d e.storage) in
            let after = drain_queue fl env addr chunks st.retransmit_queue (st, e.sent) in
            elim (Bool-cases st.completed) [
              | inl done ↦ inl (
                  elim-some (lookup d e.active_sends) e run found
                  ∙ ap
                      (λ (a : Bool).
                        if a then e else put_send d after.0 (record e { sent = after.1 }))
                      done)
              | inr unfinished ↦
                  let (news, grown) =
                    drain_queue-grows fl env addr chunks st st.retransmit_queue (st, e.sent)
                      (refl, refl, refl) in
                  inr (
                    after.0,
                    news,
                    retransmit_chunks-found fl env d addr e st found unfinished
                        ∙ ap (λ (sent : Outbox). put_send d after.0 (record e { sent = sent }))
                            grown,
                  )
            ]
      ]

  pub retransmit_chunks-Grows :
      (env : SendEnv F) (d : Text) (addr : Address) (e : SendEngine F)
      → Grows e.sent (retransmit_chunks fl env d addr e).sent
  retransmit_chunks-Grows env d addr e = elim (retransmit_chunks_cases env d addr e) [
    | inl same ↦ ([], ap (λ (x : SendEngine F). x.sent) same ∙ sym (append-nil e.sent))
    | inr (x, news, made) ↦ (news, ap (λ (y : SendEngine F). y.sent) made)
  ]

  module _ (b : Text) (i total : ℕ) (c : Chunk) where
    -- The chunk waits in the queue of its transfer, which is not complete, and is in storage.
    abbrev pub Waits : SendEngine F → Type 0
    Waits e =
        (x : SendState F) × (lookup b e.active_sends ≡ some x)
        × (x.completed ≡ false)
        × (x.total_chunks ≡ total)
        × (mem i x.acked_chunks ≡ false)
        × (mem i x.retransmit_queue ≡ true)
        × (lookup i (chunk_dict (load_chunks_for_bundle b e.storage)) ≡ some c)

    pub retransmit_chunks-HasNew :
        (env : SendEnv F) (addr : Address) (e : SendEngine F)
        → Waits e
        → HasNew
            (data_msg (chunk_msg total c), addr)
            e.sent
            (retransmit_chunks fl env b addr e).sent
    retransmit_chunks-HasNew env addr e (x, found, unfinished, size, fresh, queued, stored) =
        let chunks = chunk_dict (load_chunks_for_bundle b e.storage) in
        let (xs, ys, grown) =
          drain_queue-HasNew fl env addr chunks x i c fresh stored x.retransmit_queue (x, e.sent)
            (refl, refl, refl) queued in
        subst
          (λ (n : ℕ).
            HasNew (data_msg (chunk_msg n c), addr) e.sent (retransmit_chunks fl env b addr e).sent)
          size
          (
            xs,
            ys,
            ap (λ (y : SendEngine F). y.sent)
                  (retransmit_chunks-found fl env b addr e x found unfinished)
                ∙ grown,
          )

    pub retransmit_chunks-Waits :
        (env : SendEnv F) (d : Text) (addr : Address) (e : SendEngine F)
        → text_beq d b ≡ false
        → Waits e
        → Waits (retransmit_chunks fl env d addr e)
    retransmit_chunks-Waits env d addr e other (x, found, p, q, r, t, u) =
        elim (retransmit_chunks_cases env d addr e) [
          | inl same ↦ subst Waits (sym same) (x, found, p, q, r, t, u)
          | inr (y, news, made) ↦
              subst Waits (sym made)
                (x, ground (arith, lookup-insert d b y e.active_sends, other, found), p, q, r, t, u)
        ]
