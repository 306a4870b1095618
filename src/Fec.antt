-- ===== src/Fec.antt =====
-- XOR forward error correction: `SendEngine._xor_chunks` (courier/send_engine.py) and
-- `ReceiveEngine._xor_bytes` (courier/receive_engine.py).
pub mod Padding
pub mod Recovery
use Prim.Native.Nat.{bit_xor}
use cs60_final_project.Common.{
  ℕ, zero, suc, List, [], ◌∷◌, ◌++◌, map, min, Bytes, length, get_or, set, drop, ltb, if◌then◌else◌,
}
use cs60_final_project.Chunk.{Chunk}

-- for i in range(limit): result[i] ^= payload[i], with the rounds left and the index.
unfoldable pub xor_loop : ℕ → ℕ → Bytes → Bytes → Bytes
xor_loop zero i result payload = result
xor_loop (suc n) i result payload =
    xor_loop n (suc i) (set result i (bit_xor (get_or result i 0) (get_or payload i 0))) payload

-- One payload mixed into the result, which grows to the longer of the two lengths.
unfoldable pub xor_into : Bytes → Bytes → Bytes
xor_into result payload =
    let mixed = xor_loop (min (length result) (length payload)) 0 result payload in
    if ltb (length mixed) (length payload) then mixed ++ drop (length mixed) payload else mixed

-- ReceiveEngine._xor_bytes(base, others)
unfoldable pub xor_bytes : Bytes → List Bytes → Bytes
xor_bytes result [] = result
xor_bytes result (payload ∷ others) = xor_bytes (xor_into result payload) others

abbrev pub payloads : List Chunk → List Bytes
payloads chunks = map (λ (c : Chunk). c.payload) chunks

-- SendEngine._xor_chunks(chunks)
unfoldable pub xor_chunks : List Chunk → Bytes
unfolding xor_bytes
xor_chunks [] = []
xor_chunks (c ∷ chunks) = xor_bytes c.payload (payloads chunks)
