-- ===== src/Wire/Ids.antt =====
-- The bundle id in a header (courier/network_io.py): an id that the program makes, 16 hexadecimal
-- digits, is read back from its field of 16 bytes.
use cs60_final_project.Common.{
  ℕ, zero, suc, ◌-◌, ◌≤◌, ◌<◌, ◌≡◌, refl, sym, ap, ◌∙◌, some, [], ◌∷◌, ◌++◌, Text, Bytes, length,
  replicate, arith, All, lt→ltb, length-append, length-replicate, take-append_eq, take-of_le,
}
use cs60_final_project.Wire.{id_field, read_id, rstrip}
use cs60_final_project.Wire.Struct.{pack_bytes, length-pack_bytes}
use cs60_final_project.Wire.Utf8.{IsScalar, encode_char, encode, decode, decode-encode}

-- An ASCII character that is not NUL.
abbrev pub IsAscii : ℕ → Type 0
IsAscii c = (0 < c) × (c < 128)

-- At most 16 ASCII characters.
abbrev pub IsId : Text → Type 0
IsId b = (length b ≤ 16) × All IsAscii b

pub encode_ascii : (b : Text) → All IsAscii b → encode b ≡ some b
unfolding encode encode_char
encode_ascii [] h = refl
encode_ascii (c ∷ b) h = rw (lt→ltb c 128 h.0.1, encode_ascii b h.1)

All-IsScalar : (b : Text) → All IsAscii b → All IsScalar b
All-IsScalar [] h = tt
All-IsScalar (c ∷ b) h = ((omega (arith, h.0.1), ground (arith, h.0.1)), All-IsScalar b h.1)

pub decode_ascii : (b : Text) → All IsAscii b → decode b ≡ some b
decode_ascii b h =
    let (bytes, encoded, decoded) = decode-encode b (All-IsScalar b h) in
    let ascii = encode_ascii b h in let same : bytes ≡ b = cc in ap decode (sym same) ∙ decoded

rstrip_one : (c : ℕ) (z : Bytes) → rstrip z ≡ [] → 0 < c → rstrip (c ∷ z) ≡ c ∷ []
rstrip_one c z e h = ground (arith, e)

rstrip_two : (c d : ℕ) (z b : Bytes) → rstrip z ≡ d ∷ b → rstrip (c ∷ z) ≡ c ∷ d ∷ b
rstrip_two c d z b e = ground (arith, e)

rstrip-padded : (b : Text) (n : ℕ) → All IsAscii b → rstrip (b ++ replicate n 0) ≡ b
rstrip-padded [] zero h = refl
rstrip-padded [] (suc n) h = rw (rstrip-padded [] n tt)
rstrip-padded (c ∷ []) n h = rstrip_one c (replicate n 0) (rstrip-padded [] n tt) h.0.0
rstrip-padded (c ∷ d ∷ b) n h =
    rstrip_two c d (d ∷ b ++ replicate n 0) b (rstrip-padded (d ∷ b) n h.1)

padded-eq :
    (b : Text)
    → length b ≤ 16
    → pack_bytes 16 (b ++ replicate (16 - length b) 0) ≡ b ++ replicate (16 - length b) 0
padded-eq b h = take-append_eq 16 (b ++ replicate (16 - length b) 0) (replicate 16 0) (
    omega (
      arith,
      length-append b (replicate (16 - length b) 0),
      length-replicate {A = ℕ} (16 - length b) 0,
    ))

-- The field of an id has 16 bytes, and the id is read from it.
pub read_id-id_field :
    (b : Text)
    → IsId b
    → (f : Bytes) × (id_field b ≡ some f) × (length f ≡ 16) × (read_id f ≡ some b)
unfolding id_field
read_id-id_field b h =
    let f = pack_bytes 16 (b ++ replicate (16 - length b) 0) in
    (
      f,
      rw (take-of_le 16 b h.0, encode_ascii b h.1),
      length-pack_bytes 16 (b ++ replicate (16 - length b) 0),
      ap (λ t. decode (rstrip t)) (padded-eq b h.0)
          ∙ ap decode (rstrip-padded b (16 - length b) h.1)
          ∙ decode_ascii b h.1,
    )
