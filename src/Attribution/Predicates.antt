-- ===== src/Attribution/Predicates.antt =====
-- The falsifiable exclusion predicates (backend/engine/attribute/exclude.py).
use Prim.Native.Nat.{bit_xor}
use sih.Prelude.{
  ℕ, zero, suc, ◌+◌, ◌-◌, ◌*◌, ◌/◌, ◌%◌, Bool, not, ◌&&◌, ◌||◌, Option, none, some, String, List,
  [], ◌∷◌, ◌++◌, map, any, all, keep, length, leb, ◌==◌, if◌then◌else◌,
}
use sih.Prelude.Text.{codes}
use sih.Prelude.Bytes.{Bytes, bytes_eq, starts_with, contains, strip, lower, splitlines}

-- What the predicates take from Python's library: SHA-256 in hexadecimal, `base64.b64decode`
-- with `validate=True` (`none` is its error), UTF-8 (likewise) and `str.isprintable`.
pub record Library : Type 0 where
  pub sha256 : Bytes → String
  pub b64decode : Bytes → Option Bytes
  pub utf8_decode : Bytes → Option (List ℕ)
  pub isprintable : ℕ → Bool

-- One step of the inner loop of `_generate_crc32_table`.
unfoldable pub crc_step : ℕ → ℕ
crc_step c = if c % 2 == 1 then bit_xor 0xEDB88320 (c / 2) else c / 2

unfoldable pub repeat : ℕ → (ℕ → ℕ) → ℕ → ℕ
repeat zero f c = c
repeat (suc n) f c = repeat n f (f c)

-- 0, 1, …, n - 1
unfoldable pub range_from : ℕ → ℕ → List ℕ
range_from start zero = []
range_from start (suc n) = start ∷ range_from (start + 1) n

unfoldable pub crc32_full_ints : List ℕ
unfolding crc_step repeat range_from
crc32_full_ints = map (repeat 8 crc_step) (range_from 0 256)

-- `struct.pack("<I", …)`
abbrev pub little_endian : ℕ → Bytes
little_endian w = w % 256 ∷ w / 256 % 256 ∷ w / 65536 % 256 ∷ w / 16777216 % 256 ∷ []

unfoldable pub concat : List Bytes → Bytes
concat [] = []
concat (b ∷ bs) = b ++ concat bs

-- `_CRC32_TABLE_BYTES`
unfoldable pub crc32_table_bytes : Bytes
unfolding crc32_full_ints concat
crc32_table_bytes = concat (map little_endian crc32_full_ints)

unfoldable pub base64_alphabet : Bytes
base64_alphabet = codes "ABCDEFGHIJKLMNOPQRSTUVWXYZabcdefghijklmnopqrstuvwxyz0123456789+/"

unfoldable pub hex_lower : Bytes
hex_lower = codes "0123456789abcdef"

unfoldable pub hex_upper : Bytes
hex_upper = codes "0123456789ABCDEF"

-- The registered tables; the texts that describe them are named by these.
pub data Table : Type 0 where
  crc32 base64 lower_hex upper_hex : Table

unfoldable pub table_bytes : Table → Bytes
table_bytes crc32 = crc32_table_bytes
table_bytes base64 = base64_alphabet
table_bytes lower_hex = hex_lower
table_bytes upper_hex = hex_upper

-- `BENIGN_TABLE_REGISTRY`, in its order.
abbrev pub benign_table_registry : List Table
benign_table_registry = crc32 ∷ base64 ∷ lower_hex ∷ upper_hex ∷ []

unfoldable pub is_identity_byte_table : Bytes → Bool
unfolding range_from
is_identity_byte_table s = length s == 256 && bytes_eq (range_from 0 256) s

-- The reasons of `is_media_or_plain_text_base64`; the text shows the share of printable characters.
pub data Payload : Type 0 where
  png jpeg gif pdf : Payload
  plain_text : ℕ → ℕ → Payload

-- `c in "\r\n\t"`
abbrev pub is_line_space : ℕ → Bool
is_line_space c = c == 13 || c == 10 || c == 9

module _ (lib : Library) where
  -- The `if` on NUL bytes. A ratio of at least 0.95 is one of 95 to 100; the text is not empty,
  -- since a base64 text that is not empty decodes to at least one byte.
  unfoldable pub plain_text_of : Bytes → Option Payload
  plain_text_of decoded =
      if any (λ b. b == 0) decoded then none else elim (lib.utf8_decode decoded) [
        | none ↦ none
        | some text ↦
            let shown = length (keep (λ c. lib.isprintable c || is_line_space c) text) in
            if leb (95 * length text) (100 * shown) && leb 32 (length text)
            then some (plain_text shown (length text))
            else none
      ]

  unfoldable pub payload_of : Bytes → Option Payload
  payload_of decoded =
      if starts_with (137 ∷ 80 ∷ 78 ∷ 71 ∷ 13 ∷ 10 ∷ 26 ∷ 10 ∷ []) decoded
      then some png
      else if starts_with (255 ∷ 216 ∷ 255 ∷ []) decoded
      then some jpeg
      else if starts_with (codes "GIF87a") decoded || starts_with (codes "GIF89a") decoded
      then some gif
      else if starts_with (codes "%PDF-") decoded
      then some pdf
      else plain_text_of decoded

  -- The lines without the envelope, joined.
  unfoldable pub without_envelope : Bytes → Bytes
  without_envelope s =
      concat
        (map strip (keep (λ line. not (starts_with (codes "-----") (strip line))) (splitlines s)))

  unfoldable pub is_media_or_plain_text_base64 : Bytes → Option Payload
  is_media_or_plain_text_base64 s =
      let clean = without_envelope s in
      if length clean == 0 || not (length clean % 4 == 0)
      then none
      else elim (lib.b64decode clean) [ none ↦ none | some decoded ↦ payload_of decoded ]

abbrev pub crc32_nibble_ints : List ℕ
crc32_nibble_ints =
    0 ∷ 0x1DB71064 ∷ 0x3B6E20C8 ∷ 0x26D930AC ∷ 0x76DC4190 ∷ 0x6B6B51F4 ∷ 0x4DB26158 ∷ 0x5005713C
    ∷ 0x9B64C2B0 ∷ 0x86D3D2D4 ∷ 0xA00AE278 ∷ 0xBDBDF21C ∷ 0xEDB88320 ∷ 0xF00F9344 ∷ 0xD6D6A3E8
    ∷ 0xCB61B38C ∷ []

-- Equality of `frozenset`s.
abbrev pub subset : List ℕ → List ℕ → Bool
subset xs ys = all (λ x. any (λ y. x == y) ys) xs

abbrev pub same_set : List ℕ → List ℕ → Bool
same_set xs ys = subset xs ys && subset ys xs

-- The value of a digit in the base, or none.
unfoldable pub digit_value : ℕ → ℕ → Option ℕ
digit_value radix c =
    if leb b'0' c && leb c b'9'
    then some (c - b'0')
    else if radix == 16 && (leb b'a' c && leb c b'f')
    then some (c - b'a' + 10)
    else if radix == 16 && (leb b'A' c && leb c b'F')
    then some (c - b'A' + 10)
    else none

-- Where the scan of `re.findall(r"0x[0-9a-fA-F]+|\d+", text)` stands: outside a number, behind a
-- lone 0, behind `0x` with no digit yet, or in a number of a radix.
pub data Mode : Type 0 where
  outside after_zero after_0x : Mode
  inside : ℕ → ℕ → Mode

-- The number that the text so far ends in.
abbrev pub flush : Mode → List ℕ
flush outside = []
flush after_zero = 0 ∷ []
flush after_0x = 0 ∷ []
flush (inside radix n) = n ∷ []

abbrev pub begin : ℕ → Mode
begin c =
    if c == b'0'
    then after_zero
    else elim (digit_value 10 c) [ none ↦ outside | some d ↦ inside 10 d ]

-- A character in a mode: the numbers that end before it, and the mode behind it.
unfoldable pub scan_char : Mode → ℕ → List ℕ × Mode
scan_char outside c = ([], begin c)
scan_char after_zero c =
    if c == b'x'
    then ([], after_0x)
    else elim (digit_value 10 c) [ none ↦ (0 ∷ [], begin c) | some d ↦ ([], inside 10 d) ]
scan_char after_0x c = elim (digit_value 16 c) [
  | none ↦ (0 ∷ [], begin c)
  | some d ↦ ([], inside 16 d)
]
scan_char (inside radix n) c = elim (digit_value radix c) [
  | none ↦ (n ∷ [], begin c)
  | some d ↦ ([], inside radix (n * radix + d))
]

unfoldable pub parse_ints_from : Mode → Bytes → List ℕ
unfolding scan_char digit_value
parse_ints_from mode [] = flush mode
parse_ints_from mode (c ∷ s) = let (done, next) = scan_char mode c in done ++ parse_ints_from next s

-- `_parse_ints_from_array`
unfoldable pub parse_ints_from_array : Bytes → List ℕ
unfolding parse_ints_from
parse_ints_from_array = parse_ints_from outside

-- The two reasons of `is_crc_numeric_array`.
pub data CrcTable : Type 0 where
  full_table nibble_table : CrcTable

unfoldable pub is_crc_numeric_array : Bytes → Option CrcTable
is_crc_numeric_array s =
    let ints = parse_ints_from_array s in
    if length ints == 0
    then none
    else if same_set ints crc32_full_ints
    then some full_table
    else if same_set ints crc32_nibble_ints
    then some nibble_table
    else none

unfoldable pub is_ascii_text_asn1 : Bytes → Bool
is_ascii_text_asn1 s =
    let printable = length (keep (λ b. leb 32 b && leb b 126 || is_line_space b) s) in
    not (length s == 0) && leb (95 * length s) (100 * printable)

-- The reasons of `is_source_quote_bleed`.
pub data Bleed : Type 0 where
  block_comment preprocessor newline_in_quotes : Bleed

unfoldable pub is_source_quote_bleed : Bytes → Option Bleed
is_source_quote_bleed s =
    if contains (codes "/*") s || contains (codes "*/") s
    then some block_comment
    else if contains (codes "#define") s
        || (contains (codes "#include") s || contains (codes "#endif") s)
    then some preprocessor
    else if starts_with (codes "'") s && contains (10 ∷ []) s
    then some newline_in_quotes
    else none

-- The reasons of `is_benign_arx`.
pub data BenignArx : Type 0 where
  crc_arithmetic big_o : BenignArx

unfoldable pub is_benign_arx : Bytes → Option BenignArx
is_benign_arx s =
    let low = lower s in
    if contains (codes "crc") low
    then some crc_arithmetic
    else if contains (codes "o(n^") low
        || (contains (codes "o(1)") low || contains (codes "o(n)") low)
    then some big_o
    else none
