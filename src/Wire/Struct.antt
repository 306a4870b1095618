-- ===== src/Wire/Struct.antt =====
-- What courier/network_io.py uses of Python's `struct`, in network byte order: unsigned integers of a
-- width in bytes, byte strings of a fixed length, and a buffer cut into fields.
use cs60_final_project.Common.{
  ℕ, zero, suc, ◌+◌, ◌*◌, ◌/◌, ◌%◌, ◌^◌, ◌<◌, ◌≡◌, refl, ap, ◌∙◌, Option, none, some, List, [], ◌∷◌,
  ◌++◌, Bytes, length, take, drop, replicate, arith, ltb, lt→ltb, if◌then◌else◌, ◌==◌, map,
  length-append, length-take, length-replicate, take-append, drop-append, take-append_eq,
}

-- The bytes of a number, the most significant first.
unfoldable pub big_endian : ℕ → ℕ → Bytes
big_endian zero n = []
big_endian (suc width) n = big_endian width (n / 256) ++ n % 256 ∷ []

number_from : ℕ → Bytes → ℕ
number_from n [] = n
number_from n (b ∷ bytes) = number_from (n * 256 + b) bytes

-- The number that bytes stand for.
unfoldable pub number : Bytes → ℕ
unfolding number_from
number bytes = number_from 0 bytes

-- The formats B, H, I and Q, by their width; `none` is the struct.error of a number that is too large.
unfoldable pub pack_uint : ℕ → ℕ → Option Bytes
pack_uint width n = if ltb n (256 ^ width) then some (big_endian width n) else none

-- The format of a fixed number of bytes: a longer argument is cut, a shorter one padded.
abbrev pub pack_bytes : ℕ → Bytes → Bytes
pack_bytes width bytes = take width (bytes ++ replicate width 0)

abbrev pub total : List ℕ → ℕ
total [] = 0
total (w ∷ ws) = w + total ws

abbrev pub split_fields : List ℕ → Bytes → List Bytes
split_fields [] bytes = []
split_fields (w ∷ ws) bytes = take w bytes ∷ split_fields ws (drop w bytes)

-- struct.unpack: the buffer must have the length of the format.
unfoldable pub unpack : List ℕ → Bytes → Option (List Bytes)
unpack format bytes =
    if length bytes == total format then some (split_fields format bytes) else none

-- The fields of a buffer, one after the other.
abbrev pub join : List Bytes → Bytes
join [] = []
join (p ∷ ps) = p ++ join ps

pub length-big_endian : (width n : ℕ) → length (big_endian width n) ≡ width
unfolding big_endian
length-big_endian zero n = refl
length-big_endian (suc width) n = omega (
  arith,
  length-append (big_endian width (n / 256)) (n % 256 ∷ []),
  length-big_endian width (n / 256),
)

number_from-append :
    (n : ℕ) (xs ys : Bytes) → number_from n (xs ++ ys) ≡ number_from (number_from n xs) ys
unfolding number_from
number_from-append n [] ys = refl
number_from-append n (x ∷ xs) ys = number_from-append (n * 256 + x) xs ys

-- A number that fits the width is read back.
pub number-big_endian : (width n : ℕ) → n < 256 ^ width → number (big_endian width n) ≡ n
unfolding number big_endian
number-big_endian zero n h = omega arith
number-big_endian (suc width) n h =
    let product : 256 ^ suc width ≡ 256 * 256 ^ width = omega arith in
    number_from-append 0 (big_endian width (n / 256)) (n % 256 ∷ [])
    ∙ ap (λ t. t * 256 + n % 256) (number-big_endian width (n / 256) (omega (arith, product)))
    ∙ omega arith

pub pack_uint-fits : (width n : ℕ) → n < 256 ^ width → pack_uint width n ≡ some (big_endian width n)
unfolding pack_uint
pack_uint-fits width n h = rw (lt→ltb n (256 ^ width) h)

pub length-pack_bytes : (width : ℕ) (bytes : Bytes) → length (pack_bytes width bytes) ≡ width
length-pack_bytes width bytes = omega (
  arith,
  length-take width (bytes ++ replicate width 0),
  length-append bytes (replicate width 0),
  length-replicate {A = ℕ} width 0,
)

-- Fields that were packed one after the other are the fields that are unpacked.
pub split_fields-join :
    (fields : List Bytes) → split_fields (map length fields) (join fields) ≡ fields
split_fields-join [] = refl
split_fields-join (p ∷ ps) =
    simp (take-append p (join ps), drop-append p (join ps), split_fields-join ps)

pub length-join : (fields : List Bytes) → length (join fields) ≡ total (map length fields)
length-join [] = refl
length-join (p ∷ ps) = omega (arith, length-append p (join ps), length-join ps)

pub unpack-join :
    (format : List ℕ) (fields : List Bytes)
    → map length fields ≡ format
    → unpack format (join fields) ≡ some fields
unfolding unpack
unpack-join format fields e = rw (← e, length-join fields, split_fields-join fields) (ground arith)

-- A header is unpacked to its fields, whatever follows it.
pub unpack-header :
    (format : List ℕ) (fields : List Bytes) (rest : Bytes)
    → map length fields ≡ format
    → unpack format (take (total format) (join fields ++ rest)) ≡ some fields
unpack-header format fields rest e =
    ap (unpack format)
      (take-append_eq (total format) (join fields) rest (length-join fields ∙ ap total e))
    ∙ unpack-join format fields e
