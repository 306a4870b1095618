-- ===== src/Wire/Utf8.antt =====
-- UTF-8, as Python's `encode("utf-8")` and `decode("utf-8")` have it: `none` is the exception for a
-- surrogate, and for bytes that are not the encoding of a text.
use cs60_final_project.Common.{
  ℕ, zero, suc, ◌+◌, ◌-◌, ◌*◌, ◌/◌, ◌%◌, ◌≤◌, ◌<◌, ◌≡◌, refl, Bool, false, not, ◌&&◌, Option, none,
  some, List, [], ◌∷◌, ◌++◌, Text, Bytes, arith, ltb, leb, if◌then◌else◌, ◌>>=◌, All, Bool-cases,
  inl, inr, ◌∙◌, lt→ltb,
}

abbrev is_surrogate : ℕ → Bool
is_surrogate c = leb 55296 c && ltb c 57344

abbrev tail_byte : ℕ → ℕ
tail_byte n = 128 + n % 64

abbrev in_two : ℕ → Bytes
in_two c = (192 + c / 64) ∷ tail_byte c ∷ []

abbrev in_three : ℕ → Bytes
in_three c = (224 + c / 4096) ∷ tail_byte (c / 64) ∷ tail_byte c ∷ []

abbrev in_four : ℕ → Bytes
in_four c = (240 + c / 262144) ∷ tail_byte (c / 4096) ∷ tail_byte (c / 64) ∷ tail_byte c ∷ []

unfoldable pub encode_char : ℕ → Option Bytes
encode_char c =
    if ltb c 128
    then some (c ∷ [])
    else if ltb c 2048
    then some (in_two c)
    else if is_surrogate c
    then none
    else if ltb c 65536
    then some (in_three c)
    else if ltb c 1114112
    then some (in_four c)
    else none

unfoldable pub encode : Text → Option Bytes
encode [] = some []
encode (c ∷ text) = do bytes ← encode_char c; rest ← encode text; some (bytes ++ rest)

-- The decoder between two bytes: how many bytes the character still needs, its bits so far, and the
-- least code point that may be written in its length.
pub record Pending : Type 0 where
  pub needed : ℕ
  pub bits : ℕ
  pub least : ℕ

abbrev idle : Pending
idle = record { needed = 0; bits = 0; least = 0 }

-- The last byte of a character is in.
abbrev finish_char : ℕ → ℕ → Option (List ℕ × Pending)
finish_char c least =
    if leb least c && (ltb c 1114112 && not (is_surrogate c)) then some (c ∷ [], idle) else none

abbrev first_byte : ℕ → Option (List ℕ × Pending)
first_byte b =
    if ltb b 128
    then some (b ∷ [], idle)
    else if ltb b 192
    then none
    else if ltb b 224
    then some ([], record { needed = 1; bits = b - 192; least = 128 })
    else if ltb b 240
    then some ([], record { needed = 2; bits = b - 224; least = 2048 })
    else if ltb b 248
    then some ([], record { needed = 3; bits = b - 240; least = 65536 })
    else none

abbrev next_byte : ℕ → ℕ → ℕ → ℕ → Option (List ℕ × Pending)
next_byte needed bits least b =
    let c = bits * 64 + (b - 128) in
    let more = some ([], record { needed = needed; bits = c; least = least }) in
    let done = finish_char c least in
    if leb 128 b && ltb b 192 then elim needed [ zero ↦ done | suc _ ↦ more ] else none

abbrev decode_byte : Pending → ℕ → Option (List ℕ × Pending)
decode_byte p b = elim p.needed [
  | zero ↦ first_byte b
  | suc needed ↦ next_byte needed p.bits p.least b
]

abbrev at_end : Pending → Option Text
at_end p = elim p.needed [ zero ↦ some [] | suc _ ↦ none ]

pub decode_from : Pending → Bytes → Option Text
decode_from p [] = at_end p
decode_from p (b ∷ bytes) = do
  read ← decode_byte p b
  rest ← decode_from read.1 bytes
  some (read.0 ++ rest)

unfoldable pub decode : Bytes → Option Text
unfolding decode_from
decode bytes = decode_from idle bytes

-- A code point that can be encoded.
abbrev pub IsScalar : ℕ → Type 0
IsScalar c = (c < 1114112) × (is_surrogate c ≡ false)

bind-some : (o : Option Text) → (o >>= λ rest. some ([] ++ rest)) ≡ o
bind-some none = refl
bind-some (some rest) = refl

step_on :
    (p q : Pending) (b : ℕ) (more : Bytes)
    → decode_byte p b ≡ some ([], q)
    → decode_from p (b ∷ more) ≡ decode_from q more
unfolding decode_from
step_on p q b more e = rw e (bind-some (decode_from q more))

step_out :
    (p : Pending) (b c : ℕ) (more : Bytes)
    → decode_byte p b ≡ some (c ∷ [], idle)
    → decode_from p (b ∷ more) ≡ (decode_from idle more >>= λ rest. some (c ∷ rest))
unfolding decode_from
step_out p b c more e = rw e

-- What the decoder makes of the bytes of one character.
next_more :
    (needed c least : ℕ)
    → decode_byte (record { needed = suc (suc needed); bits = c / 64; least = least }) (tail_byte c)
      ≡ some ([], record { needed = suc needed; bits = c; least = least })
next_more needed c least = ground arith

next_done :
    (c least : ℕ)
    → least ≤ c
    → IsScalar c
    → decode_byte (record { needed = 1; bits = c / 64; least = least }) (tail_byte c)
      ≡ some (c ∷ [], idle)
next_done c least h s = ground arith

first_of_two :
    (c : ℕ)
    → 128 ≤ c
    → c < 2048
    → decode_byte idle (192 + c / 64) ≡ some ([], record { needed = 1; bits = c / 64; least = 128 })
first_of_two c h k = ground arith

first_of_three :
    (c : ℕ)
    → c < 65536
    → decode_byte idle (224 + c / 4096)
      ≡ some ([], record { needed = 2; bits = c / 64 / 64; least = 2048 })
first_of_three c h = ground arith

first_of_four :
    (c : ℕ)
    → c < 1114112
    → decode_byte idle (240 + c / 262144)
      ≡ some ([], record { needed = 3; bits = c / 64 / 64 / 64; least = 65536 })
first_of_four c h = ground arith

-- The bytes of one character are decoded to the character.
abbrev Reads : ℕ → Bytes → Type 0
Reads c bytes =
    (more : Bytes)
    → decode_from idle (bytes ++ more) ≡ (decode_from idle more >>= λ rest. some (c ∷ rest))

two_bytes : (c : ℕ) → IsScalar c → 128 ≤ c → c < 2048 → Reads c (in_two c)
two_bytes c s h k more =
    step_on idle _ (192 + c / 64) (tail_byte c ∷ more) (first_of_two c h k)
    ∙ step_out _ (tail_byte c) c more (next_done c 128 h s)

three_bytes : (c : ℕ) → IsScalar c → 2048 ≤ c → c < 65536 → Reads c (in_three c)
three_bytes c s h k more =
    step_on idle _ (224 + c / 4096) (tail_byte (c / 64) ∷ tail_byte c ∷ more) (first_of_three c k)
    ∙ step_on _ _ (tail_byte (c / 64)) (tail_byte c ∷ more) (next_more 0 (c / 64) 2048)
    ∙ step_out _ (tail_byte c) c more (next_done c 2048 h s)

four_bytes : (c : ℕ) → IsScalar c → 65536 ≤ c → Reads c (in_four c)
four_bytes c s h more =
    let e : tail_byte (c / 4096) ≡ tail_byte (c / 64 / 64) = omega arith in
    rw e (
      step_on idle _ (240 + c / 262144)
        (tail_byte (c / 64 / 64) ∷ tail_byte (c / 64) ∷ tail_byte c ∷ more) (first_of_four c s.0)
      ∙ step_on _ _ (tail_byte (c / 64 / 64)) (tail_byte (c / 64) ∷ tail_byte c ∷ more)
          (next_more 1 (c / 64 / 64) 65536)
      ∙ step_on _ _ (tail_byte (c / 64)) (tail_byte c ∷ more) (next_more 0 (c / 64) 65536)
      ∙ step_out _ (tail_byte c) c more (next_done c 65536 h s))

decode-encode_char :
    (c : ℕ) → IsScalar c → (bytes : Bytes) × (encode_char c ≡ some bytes) × Reads c bytes
unfolding encode_char
decode-encode_char c s = elim (Bool-cases (ltb c 128)) [
  | inl one ↦ (c ∷ [], rw one, λ more. step_out idle c c more (ground arith))
  | inr big ↦ elim (Bool-cases (ltb c 2048)) [
    | inl two ↦ (in_two c, rw (big, two), two_bytes c s (ground arith) (ground arith))
    | inr bigger ↦ elim (Bool-cases (ltb c 65536)) [
      | inl three ↦
          (in_three c, rw (big, bigger, s.1, three), three_bytes c s (ground arith) (ground arith))
      | inr biggest ↦ (
        in_four c,
        rw (big, bigger, s.1, biggest, lt→ltb c 1114112 s.0),
        four_bytes c s (ground arith),
      )
    ]
  ]
]

-- A text of characters that can be encoded is what its bytes are decoded to.
pub decode-encode :
    (text : Text)
    → All IsScalar text
    → (bytes : Bytes) × (encode text ≡ some bytes) × (decode bytes ≡ some text)
unfolding encode decode
decode-encode [] h = ([], refl, refl)
decode-encode (c ∷ text) h =
    let (first, made, read) = decode-encode_char c h.0 in
    let (bytes, encoded, decoded) = decode-encode text h.1 in
    (first ++ bytes, rw (made, encoded), read bytes ∙ rw decoded)
