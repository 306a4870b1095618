-- ===== src/Fec/Recovery.antt =====
-- One lost payload of a block comes back from the parity and the payloads that arrived.
use Prim.Native.Nat.{bit_xor}
use cs60_final_project.Common.{
  ℕ, ◌-◌, max, ◌≡◌, refl, sym, ap, ◌∙◌, List, [], ◌∷◌, ◌++◌, Bytes, length, get_or, replicate,
  arith, length-append, length-replicate, get_or-append_left, get_or-append_right, get_or-replicate,
  get_or-beyond, get_or_ext, inl, inr, Bool-cases, ltb, ltb→lt, ◌≤◌,
}
use cs60_final_project.Common.Xor.{bit_xor-zero, bit_xor_assoc, bit_xor_left_comm, bit_xor_self}
use cs60_final_project.Fec.{xor_bytes, xor_chunks, payloads}
use cs60_final_project.Fec.Padding.{mix, longest, length-xor_bytes, get_or-xor_bytes}
use cs60_final_project.Chunk.{Chunk}

-- A payload with zeros behind it, up to a length.
abbrev pub pad_to : ℕ → Bytes → Bytes
pad_to n p = p ++ replicate (n - length p) 0

pub get_or-pad_to : (n j : ℕ) (p : Bytes) → get_or (pad_to n p) j 0 ≡ get_or p j 0
get_or-pad_to n j p = elim (Bool-cases (ltb j (length p))) [
  | inl inside ↦ get_or-append_left p _ j 0 (ltb→lt j (length p) inside)
  | inr outside ↦
      get_or-append_right p (replicate (n - length p) 0) j 0 (ground arith)
      ∙ get_or-replicate (n - length p) (j - length p) 0
      ∙ sym (get_or-beyond p j 0 (ground arith))
]

-- Bytes are a padded payload when they agree with it byte by byte.
pub eq-pad_to :
    (n : ℕ) (p q : Bytes)
    → length p ≤ n
    → length q ≡ n
    → ((j : ℕ) → get_or q j 0 ≡ get_or p j 0)
    → q ≡ pad_to n p
eq-pad_to n p q fits e same =
    get_or_ext 0 q (pad_to n p)
      (omega (
        arith,
        length-append p (replicate (n - length p) 0),
        length-replicate {A = ℕ} (n - length p) 0,
      ))
      (λ j. same j ∙ sym (get_or-pad_to n j p))

pub mix-middle :
    (j : ℕ) (ps : List Bytes) (p : Bytes) (qs : List Bytes)
    → mix j (ps ++ p ∷ qs) ≡ bit_xor (get_or p j 0) (mix j (ps ++ qs))
mix-middle j [] p qs = refl
mix-middle j (x ∷ ps) p qs =
    ap (λ t. bit_xor (get_or x j 0) t) (mix-middle j ps p qs)
    ∙ bit_xor_left_comm (get_or x j 0) (get_or p j 0) (mix j (ps ++ qs))

pub longest-middle :
    (ps : List Bytes) (p : Bytes) (qs : List Bytes)
    → longest (ps ++ p ∷ qs) ≡ max (length p) (longest (ps ++ qs))
longest-middle [] p qs = refl
longest-middle (x ∷ ps) p qs = omega (arith, longest-middle ps p qs)

-- The parity of a block, byte by byte and in length.
pub get_or-xor_chunks : (cs : List Chunk) (j : ℕ) → get_or (xor_chunks cs) j 0 ≡ mix j (payloads cs)
unfolding xor_chunks
get_or-xor_chunks [] j = refl
get_or-xor_chunks (c ∷ cs) j = get_or-xor_bytes c.payload (payloads cs) j

pub length-xor_chunks : (cs : List Chunk) → length (xor_chunks cs) ≡ longest (payloads cs)
unfolding xor_chunks
length-xor_chunks [] = refl
length-xor_chunks (c ∷ cs) = length-xor_bytes c.payload (payloads cs)

-- XORing the parity of a block with the payloads that arrived gives the lost payload, with zeros
-- behind it up to the length of the block's longest payload.
pub xor_bytes-xor_chunks :
    (cs : List Chunk) (before : List Bytes) (lost : Bytes) (after : List Bytes)
    → payloads cs ≡ before ++ lost ∷ after
    → xor_bytes (xor_chunks cs) (before ++ after) ≡ pad_to (longest (payloads cs)) lost
xor_bytes-xor_chunks cs before lost after split =
    eq-pad_to (longest (payloads cs)) lost _
      (omega (arith, longest-middle before lost after, ap longest split))
      (omega (
        arith,
        length-xor_bytes (xor_chunks cs) (before ++ after),
        length-xor_chunks cs,
        longest-middle before lost after,
        ap longest split,
      ))
      (λ j.
        get_or-xor_bytes (xor_chunks cs) (before ++ after) j
        ∙ ap (λ t. bit_xor t (mix j (before ++ after)))
            (get_or-xor_chunks cs j ∙ ap (mix j) split ∙ mix-middle j before lost after)
        ∙ bit_xor_assoc (get_or lost j 0) (mix j (before ++ after)) (mix j (before ++ after))
        ∙ ap (λ t. bit_xor (get_or lost j 0) t) (bit_xor_self (mix j (before ++ after)))
        ∙ bit_xor-zero (get_or lost j 0))
