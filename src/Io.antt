-- ===== src/Io.antt =====
-- network/io_buffer.h: reading and writing integers, texts and byte arrays in a span of bytes,
-- with the span operations of common/types.h that its callers use.
-- A span is the list of its bytes. A function that writes returns the span's bytes after it.
pub mod Encode
pub mod Fields
pub mod BitFields
pub mod RoundTrip
use neptun.Common.{
  ℕ, zero, suc, ◌+◌, ◌-◌, ◌*◌, ◌/◌, ◌%◌, ◌^◌, min, bit_or, List, [], ◌∷◌, ◌++◌, none, some, ltb,
  leb, ◌==◌, true, false, if◌then◌else◌, length, get_elem?, set, take, drop, Outcome, ok, fault,
  ◌>>=◌,
}

abbrev pub Span : Type 0
Span = List ℕ

-- `m_buffer[i]`, read and written. Outside the span it is undefined behaviour.
unfoldable pub load : Span → ℕ → Outcome ℕ
load b i = elim (get_elem? b i) [ none ↦ fault | some x ↦ ok x ]

unfoldable pub store : Span → ℕ → ℕ → Outcome Span
store b i x = if ltb i (length b) then ok (set b i x) else fault

-- `std::span::first` and `std::span::subspan`, with their preconditions.
unfoldable pub first : Span → ℕ → Outcome Span
first b count = if ltb (length b) count then fault else ok (take count b)

unfoldable pub subspan : Span → ℕ → ℕ → Outcome Span
subspan b idx count =
    if ltb (length b) idx
    then fault
    else if ltb (length b - idx) count
    then fault
    else ok (take count (drop idx b))

-- `span.last(span.size() - count)`. If `count` exceeds the size the difference wraps to a number
-- above the size, which `last` does not allow.
unfoldable pub advance : Span → ℕ → Outcome Span
advance b count = if ltb (length b) count then fault else ok (drop count b)

-- A writer run on the tail `advance(buffer, idx)`, which shares its bytes with the buffer.
unfoldable pub write_after {ℓ} :
    {A : Type ℓ} → ℕ → (Span → Outcome (Span × A)) → Span → Outcome (Span × A)
write_after idx writer b = do t ← advance b idx; (t', a) ← writer t; ok (take idx b ++ t', a)

-- The loop of `write_unsigned`, with `n` of its rounds left: the shift is `8 * (n - 1)`.
unfoldable pub write_loop : ℕ → ℕ → ℕ → Span → Outcome Span
write_loop zero value idx b = ok b
write_loop (suc n) value idx b = do
  b' ← store b idx (value / 2 ^ (8 * n) % 256)
  write_loop n value (idx + 1) b'

-- `write_unsigned<T>` at `sizeof(T) = w`: the span after it, and the count.
unfoldable pub write_unsigned : ℕ → ℕ → ℕ → Span → Outcome (Span × ℕ)
unfolding write_loop
write_unsigned w value idx b = do b' ← write_loop w value idx b; ok (b', w)

abbrev pub write_u8 : ℕ → ℕ → Span → Outcome (Span × ℕ)
write_u8 = write_unsigned 1

abbrev pub write_u16 : ℕ → ℕ → Span → Outcome (Span × ℕ)
write_u16 = write_unsigned 2

abbrev pub write_u32 : ℕ → ℕ → Span → Outcome (Span × ℕ)
write_u32 = write_unsigned 4

abbrev pub write_u64 : ℕ → ℕ → Span → Outcome (Span × ℕ)
write_u64 = write_unsigned 8

unfoldable pub write_bytes : List ℕ → ℕ → Span → Outcome Span
write_bytes [] idx b = ok b
write_bytes (x ∷ xs) idx b = do b' ← store b idx x; write_bytes xs (idx + 1) b'

unfoldable pub write_byte_array : List ℕ → ℕ → Span → Outcome (Span × ℕ)
unfolding write_bytes
write_byte_array bytes idx b = do b' ← write_bytes bytes idx b; ok (b', length bytes)

-- A text is the list of its characters' codes. Its length is cut to 16 bits, its bytes are not.
unfoldable pub write_string : List ℕ → ℕ → Span → Outcome (Span × ℕ)
unfolding write_unsigned write_bytes
write_string text idx b = do
  (b', _) ← write_u16 (length text % 2 ^ 16) idx b
  b'' ← write_bytes text (idx + 2) b'
  ok (b'', 2 + length text)

-- The loop of `read_unsigned` at `sizeof(T) = w`, with `n` of its rounds left.
unfoldable pub read_loop : ℕ → ℕ → ℕ → ℕ → Span → Outcome ℕ
read_loop w zero value idx b = ok value
read_loop w (suc n) value idx b = do
  byte ← load b idx
  read_loop w n (bit_or value (byte * 2 ^ (8 * n) % 2 ^ (8 * w))) (idx + 1) b

unfoldable pub read_unsigned : ℕ → Span → ℕ → Outcome ℕ
unfolding read_loop
read_unsigned w b idx = read_loop w w 0 idx b

abbrev pub read_u8 : Span → ℕ → Outcome ℕ
read_u8 = read_unsigned 1

abbrev pub read_u16 : Span → ℕ → Outcome ℕ
read_u16 = read_unsigned 2

abbrev pub read_u32 : Span → ℕ → Outcome ℕ
read_u32 = read_unsigned 4

-- Declared to return `uint32_t`, so the upper half of what it reads is lost.
unfoldable pub read_u64 : Span → ℕ → Outcome ℕ
unfolding read_unsigned
read_u64 b idx = do value ← read_unsigned 8 b idx; ok (value % 2 ^ 32)

-- `m_buffer.size() - idx` wraps only where `subspan` is undefined anyway.
unfoldable pub read_byte_array : Span → ℕ → ℕ → Outcome Span
unfolding subspan
read_byte_array b idx len = subspan b idx (min (length b - idx) len)

-- The `string_view` of `length` bytes; reading it outside the span is undefined.
unfoldable pub read_string : Span → ℕ → Outcome (List ℕ)
unfolding read_unsigned subspan
read_string b idx = do len ← read_u16 b idx; subspan b (idx + 2) len

-- `T bit_value_in_result = 1 << n` for a `T` of `w` bits: the shift is of an `int` of 32 bits, whose
-- lowest number, at 31, is extended by its sign. A shift by 32 or more is undefined.
unfoldable pub bit_value : ℕ → ℕ → Outcome ℕ
bit_value w n =
    if leb 32 n then fault else ok ((if n == 31 then 2 ^ 64 - 2 ^ 31 else 2 ^ n) % 2 ^ w)

-- The loop of `read_bits<T, lower_bound, upper_bound>` for a `T` of `w` bits. Its index is a `T`, which
-- wraps, so after `2 ^ w` rounds it comes around, and a loop that has not ended by then never ends,
-- which is undefined as well. `fuel` is the number of rounds left until then.
unfoldable pub read_bits_loop : ℕ → ℕ → ℕ → ℕ → ℕ → Span → Outcome ℕ
unfolding read_unsigned bit_value
read_bits_loop w upper zero index result b = fault
read_bits_loop w upper (suc fuel) index result b = elim (ltb index upper) [
  | false ↦ ok result
  | true ↦ read_u8 b (index / 8) >>= λ byte_value.
      bit_value w ((upper - index - 1) % 2 ^ w) >>= λ bit_value_in_result.
      let bit_set_in_byte = byte_value / 2 ^ (7 - index % 8) % 2 in
      let sum = (result + bit_set_in_byte * bit_value_in_result) % 2 ^ w in
      read_bits_loop w upper fuel ((index + 1) % 2 ^ w) sum b
]

-- The static assertion `upper_bound - lower_bound <= sizeof(T) * 8` is about the instances.
unfoldable pub read_bits : ℕ → ℕ → ℕ → Span → Outcome ℕ
unfolding read_bits_loop
read_bits w lower upper b = read_bits_loop w upper (2 ^ w) (lower % 2 ^ w) 0 b
