-- ===== src/Sender/FreshSending.antt =====
-- Sending the chunks of a transfer of which nothing was sent yet (courier/send_engine.py,
-- `_send_window`).
use cs60_final_project.Common.{
  ℕ, zero, suc, ◌+◌, ◌≤◌, ◌<◌, ◌≡◌, refl, sym, ap, ◌∙◌, none, some, List, [], ◌∷◌, ◌++◌, append-nil,
  append_assoc, length, take, get_elem?, range_from, text_eq, nat_eq, arith, if◌then◌else◌, if-elim,
}
use cs60_final_project.Common.Dict.{Dict, lookup, insert, lookup-insert, lookup-insert_self}
use cs60_final_project.Chunk.{Chunk}
use cs60_final_project.Protocol.{Address, data_msg}
use cs60_final_project.Transfer.{chunk_msg}
use cs60_final_project.Transfer.Numbering.{IsNumbered}
use cs60_final_project.Sender.State.{Floats, SendState, SendEnv, Outbox}
use cs60_final_project.Sender.Sending.{chunk_dict_from, hand_over, note_sent, send_one, send_each}

lookup-chunk_dict_below :
    (cs : List Chunk) (i x : ℕ) (d : Dict ℕ Chunk)
    → IsNumbered i cs
    → x < i
    → lookup x (chunk_dict_from cs d) ≡ lookup x d
lookup-chunk_dict_below [] i x d h less = refl
lookup-chunk_dict_below (c ∷ cs) i x d h less =
    lookup-chunk_dict_below cs (suc i) x (insert c.chunk_id c d) h.1 (omega arith)
    ∙ ground (arith, lookup-insert c.chunk_id x c d, h.0)

-- The dictionary of numbered chunks holds each under its place.
pub lookup-chunk_dict :
    (cs : List Chunk) (i j : ℕ) (d : Dict ℕ Chunk) {c : Chunk}
    → IsNumbered i cs
    → get_elem? cs j ≡ some c
    → lookup (i + j) (chunk_dict_from cs d) ≡ some c
lookup-chunk_dict [] i j d h e = absurd (cc)
lookup-chunk_dict (c ∷ cs) i zero d h e =
    let same : i + 0 ≡ c.chunk_id = omega (arith, h.0) in
    ap (λ (n : ℕ). lookup n (chunk_dict_from cs (insert c.chunk_id c d))) same
    ∙ lookup-chunk_dict_below cs (suc i) c.chunk_id (insert c.chunk_id c d) h.1 (omega (arith, h.0))
    ∙ lookup-insert_self c.chunk_id c d
    ∙ e
lookup-chunk_dict (c ∷ cs) i (suc j) d h e =
    ap (λ (n : ℕ). lookup n (chunk_dict_from cs (insert c.chunk_id c d))) (omega arith)
    ∙ lookup-chunk_dict cs (suc i) j (insert c.chunk_id c d) h.1 e

-- The messages of chunks, as `network_send` gets them.
abbrev pub messages_of : ℕ → Address → List Chunk → Outbox
messages_of total addr [] = []
messages_of total addr (c ∷ cs) = (data_msg (chunk_msg total c), addr) ∷ messages_of total addr cs

module _ {F : Type 0} where
  -- Nothing is acknowledged, and no chunk from `a` on has a timer.
  abbrev IsFreshFrom : ℕ → ℕ → SendState F → Type 0
  IsFreshFrom total a x =
      (x.acked_chunks ≡ [])
      × (x.total_chunks ≡ total)
      × ((i : ℕ) → a ≤ i → lookup i x.chunk_timers ≡ none)

  module _ (fl : Floats F) (env : SendEnv F) (addr : Address) (chunks : Dict ℕ Chunk)
      (total : ℕ) where
    send_one-fresh :
        (a : ℕ) (c : Chunk) (x : SendState F) (sent : Outbox)
        → IsFreshFrom total a x
        → lookup a chunks ≡ some c
        → send_one fl env addr chunks a (x, sent) ≡ (
          if env.accepts (length sent) then note_sent fl env.send_now a c x else x,
          hand_over total c addr sent,
        )
    unfolding send_one
    send_one-fresh a c x sent fresh found =
        let idle = fresh.2 a (omega arith) in rw (fresh.0, idle, found, fresh.1) refl

    note_sent-IsFreshFrom :
        (a : ℕ) (c : Chunk) (x : SendState F)
        → IsFreshFrom total a x
        → IsFreshFrom total (suc a) (note_sent fl env.send_now a c x)
    note_sent-IsFreshFrom a c x fresh = (
      fresh.0,
      fresh.1,
      λ i h. ground (
        arith,
        lookup-insert a i (fl.add env.send_now x.timeout_interval) x.chunk_timers,
        fresh.2 i,
      ),
    )

    pub send_each-fresh :
        (n a : ℕ) (cs : List Chunk) (x : SendState F) (sent : Outbox)
        → IsFreshFrom total a x
        → n ≤ length cs
        → ((j : ℕ) (c : Chunk) → get_elem? cs j ≡ some c → lookup (a + j) chunks ≡ some c)
        → (send_each fl env addr chunks (range_from a n) (x, sent)).1
          ≡ sent ++ messages_of total addr (take n cs)
    unfolding send_each
    send_each-fresh zero a cs x sent fresh h known = sym (append-nil sent)
    send_each-fresh (suc n) a [] x sent fresh h known = absurd (omega arith)
    send_each-fresh (suc n) a (c ∷ cs) x sent fresh h known =
        let here : lookup a chunks ≡ some c =
          ap (λ (i : ℕ). lookup i chunks) (omega arith) ∙ known 0 c refl in
        let noted = if env.accepts (length sent) then note_sent fl env.send_now a c x else x in
        let noted-fresh : IsFreshFrom total (suc a) noted =
          if-elim (IsFreshFrom total (suc a)) (env.accepts (length sent))
            (note_sent fl env.send_now a c x) x (λ _. note_sent-IsFreshFrom a c x fresh)
            (λ _. (fresh.0, fresh.1, λ i k. fresh.2 i (omega arith))) in
        ap
          (λ (now : SendState F × Outbox).
            (send_each fl env addr chunks (range_from (suc a) n) now).1)
          (send_one-fresh a c x sent fresh here)
        ∙ send_each-fresh n (suc a) cs noted (hand_over total c addr sent) noted-fresh (omega arith)
            (λ j d e. ap (λ (i : ℕ). lookup i chunks) (omega arith) ∙ known (suc j) d e)
        ∙ append_assoc sent ((data_msg (chunk_msg total c), addr) ∷ [])
            (messages_of total addr (take n cs))
