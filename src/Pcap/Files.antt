-- ===== src/Pcap/Files.antt =====
-- A whole file: the records in it are processed one after the other.
use neptun.Common.{
  ℕ, zero, suc, ◌+◌, ◌/◌, ◌%◌, ◌^◌, ◌≤◌, ◌<◌, ◌≡◌, ◌≢◌, refl, sym, ap, ap₂, ◌∙◌, List, [], ◌∷◌,
  ◌++◌, append_assoc, append-nil, arith, length, length-append, drop, take-append, drop-append, All,
  leb, ◌==◌, ==_iff, true, false, le→ltb_false, replicate, none, some, Outcome, ok, fault, ◌>>=◌,
  Option, length-drop, subst,
}
use neptun.Io.{Span}
use neptun.Pcap.{
  File, read, little_endian, PcapRecordHeader, global_header, read_global_header,
  read_record_header, read_packet_data, process_record, process_round, process_loop,
  process_pcap_file, last_line,
}

-- The bytes of a number in memory.
abbrev pub le_bytes : ℕ → ℕ → Span
le_bytes zero v = []
le_bytes (suc n) v = v % 256 ∷ le_bytes n (v / 256)

word : (v : ℕ) → v < 2 ^ 32 → little_endian (le_bytes 4 v) ≡ v
word v h = omega arith

-- `read` of the bytes at the front.
read-append :
    (n : ℕ) (front rest : Span)
    → n ≡ length front
    → read (record { content = front ++ rest; eof = false }) n
      ≡ (front, record { content = rest; eof = false })
unfolding read
read-append n front rest e =
    rw
      (
        le→ltb_false (length (front ++ rest)) n (omega (arith, length-append front rest)),
        take-append n front rest e,
        drop-append n front rest e,
      )
      refl

-- A record of a file.
pub record Entry : Type 0 where
  pub header : PcapRecordHeader
  pub payload : Span

abbrev pub header_bytes : PcapRecordHeader → Span
header_bytes h =
    le_bytes 4 h.ts_sec
    ++ (le_bytes 4 h.ts_usec ++ (le_bytes 4 h.incl_len ++ le_bytes 4 h.orig_len))

-- It was captured whole, has a payload, and one that fits the buffer.
pub record IsEntry (space : ℕ) (r : Entry) : Type 0 where
  pub ts_sec : r.header.ts_sec < 2 ^ 32
  pub ts_usec : r.header.ts_usec < 2 ^ 32
  pub incl_len : r.header.incl_len ≡ length r.payload
  pub orig_len : r.header.orig_len ≡ length r.payload
  pub some_payload : 0 < length r.payload
  pub fits : length r.payload ≤ space
  pub space_lt : space < 2 ^ 32

abbrev pub entries_bytes : List Entry → Span
entries_bytes [] = []
entries_bytes (r ∷ rs) = header_bytes r.header ++ (r.payload ++ entries_bytes rs)

read_record_header-bytes :
    (h : PcapRecordHeader) (rest : Span)
    → h.ts_sec < 2 ^ 32
    → h.ts_usec < 2 ^ 32
    → h.incl_len < 2 ^ 32
    → h.orig_len < 2 ^ 32
    → read_record_header (record { content = header_bytes h ++ rest; eof = false }) false
      ≡ ok (h, record { content = rest; eof = false })
unfolding read_record_header
read_record_header-bytes h rest a b c d =
    rw (read-append 16 (header_bytes h) rest refl)
      (rw (word h.ts_sec a, word h.ts_usec b, word h.incl_len c, word h.orig_len d) refl)

read_packet_data-bytes :
    (h : PcapRecordHeader) (payload rest buffer : Span)
    → h.incl_len ≡ length payload
    → h.orig_len ≡ length payload
    → length payload ≤ length buffer
    → read_packet_data (record { content = payload ++ rest; eof = false }) h buffer
      ≡ ok
          (payload, payload ++ drop (length payload) buffer, record { content = rest; eof = false })
unfolding read_packet_data
read_packet_data-bytes h payload rest buffer e e' fits =
    let same : (h.incl_len == h.orig_len) ≡ true = (==_iff h.incl_len h.orig_len).1 (e ∙ sym e') in
    let room : leb (length payload) (length buffer) ≡ true = ground (arith, fits) in
    let room' : leb h.incl_len (length buffer) ≡ true = ground (arith, fits, e) in
    rw
      (
        same,
        read-append h.incl_len payload rest e,
        room,
        room',
        take-append h.incl_len payload (drop (length payload) buffer) e,
      )
      refl

module _ (ctime : ℕ → Span) where
  -- A round whose record has a payload.
  round_lem :
      (file file' file'' : File) (h : PcapRecordHeader) (payload buffer buffer' : Span) (count : ℕ)
      (lines : List Span)
      → read_record_header file false ≡ ok (h, file')
      → read_packet_data file' h buffer ≡ ok (payload, buffer', file'')
      → (length payload == 0) ≡ false
      → process_round ctime false file buffer count lines ≡ (
          process_record ctime h payload (count + 1) >>= λ printed.
          ok (file'', buffer', count + 1, lines ++ printed))
  unfolding process_round
  round_lem file file' file'' h payload buffer buffer' count lines head body something =
      rw (head, body, something) refl

  -- One record, which is there whole.
  round_entry :
      (r : Entry) (rest buffer : Span) (count : ℕ) (lines : List Span)
      → IsEntry (length buffer) r
      → process_round ctime false
          (record { content = header_bytes r.header ++ (r.payload ++ rest); eof = false })
          buffer
          count
          lines
        ≡ (process_record ctime r.header r.payload (count + 1) >>= λ printed. ok (
          record { content = rest; eof = false },
          r.payload ++ drop (length r.payload) buffer,
          count + 1,
          lines ++ printed,
        ))
  round_entry r rest buffer count lines v =
      round_lem _ _ _ r.header r.payload buffer _ count lines
        (read_record_header-bytes r.header (r.payload ++ rest) v.ts_sec v.ts_usec
          (omega (arith, v.incl_len, v.fits, v.space_lt))
          (omega (arith, v.orig_len, v.fits, v.space_lt)))
        (read_packet_data-bytes r.header r.payload rest buffer v.incl_len v.orig_len v.fits)
        (ground (arith, v.some_payload))

  -- At the end of the file the header is zero, and nothing is printed.
  round_end :
      (buffer : Span) (count : ℕ) (lines : List Span)
      → process_round ctime false (record { content = []; eof = false }) buffer count lines
        ≡ ok (record { content = []; eof = true }, buffer, count, lines)
  unfolding process_round read_record_header read_packet_data read
  round_end buffer count lines =
      let room : leb 0 (length buffer) ≡ true = ground arith in rw room refl

  -- The records one after the other, each with the number that follows.
  abbrev pub process_all : ℕ → List Entry → Outcome (List Span)
  process_all count [] = ok []
  process_all count (r ∷ rs) = process_record ctime r.header r.payload (count + 1) >>= λ printed.
      process_all (count + 1) rs >>= λ others. ok (printed ++ others)

  finish : ℕ → List Span → Outcome (List Span) → Outcome (Option (ℕ × List Span))
  finish count lines result = result >>= λ others. ok (some (count, lines ++ others))

  finish_lem :
      {B : Type 0} (count n : ℕ) (lines : List Span) (m : Outcome (List Span)) (f : List Span → B)
      (next : B → Outcome (Option (ℕ × List Span))) (rest : Outcome (List Span))
      → ((printed : List Span) → next (f printed) ≡ finish n (lines ++ printed) rest)
      → n ≡ count
      → ((m >>= λ printed. ok (f printed)) >>= next)
        ≡ finish count lines (m >>= λ printed. rest >>= λ others. ok (printed ++ others))
  unfolding finish
  finish_lem count n lines fault f next rest h e = refl
  finish_lem count n lines (ok printed) f next fault h e = h printed
  finish_lem count n lines (ok printed) f next (ok others) h e =
      h printed
      ∙ ap₂ (λ (k : ℕ) (l : List Span). ok (some (k, l))) e (append_assoc lines printed others)

  length-filled :
      (payload buffer : Span)
      → length payload ≤ length buffer
      → length (payload ++ drop (length payload) buffer) ≡ length buffer
  length-filled payload buffer h = omega (
    arith,
    length-append payload (drop (length payload) buffer),
    length-drop (length payload) buffer,
  )

  loop_lem :
      (rs : List Entry) (fuel : ℕ) (buffer : Span) (count : ℕ) (lines : List Span)
      → length rs < fuel
      → All (IsEntry (length buffer)) rs
      → process_loop ctime fuel false
          (record { content = entries_bytes rs; eof = false })
          buffer
          count
          lines
        ≡ finish (count + length rs) lines (process_all count rs)
  unfolding process_loop finish
  loop_lem rs zero buffer count lines h v = absurd (omega arith)
  loop_lem [] (suc zero) buffer count lines h v =
      rw (round_end buffer count lines)
        (ap₂ (λ (k : ℕ) (l : List Span). ok (some (k, l))) (omega arith) (sym (append-nil lines)))
  loop_lem [] (suc (suc fuel)) buffer count lines h v =
      rw (round_end buffer count lines)
        (ap₂ (λ (k : ℕ) (l : List Span). ok (some (k, l))) (omega arith) (sym (append-nil lines)))
  loop_lem (r ∷ rs) (suc fuel) buffer count lines h v =
      let buffer' = r.payload ++ drop (length r.payload) buffer in
      let same : length buffer ≡ length buffer' = sym (length-filled r.payload buffer v.0.fits) in
      let others : All (IsEntry (length buffer')) rs =
        subst (λ (n : ℕ). All (IsEntry n) rs) same v.1 in
      rw (round_entry r (entries_bytes rs) buffer count lines v.0) (
        finish_lem (count + suc (length rs)) (count + 1 + length rs) lines
          (process_record ctime r.header r.payload (count + 1)) _ _ (process_all (count + 1) rs)
          (λ printed.
            loop_lem rs fuel buffer' (count + 1) (lines ++ printed) (omega (arith, h)) others)
          (omega arith))

length-replicate : (n : ℕ) → length {A = ℕ} (replicate n 0) ≡ n
length-replicate zero = refl
length-replicate (suc n) = ap suc (length-replicate n)

read_global_header-append :
    (memory rest : Span)
    → length memory ≡ 24
    → (global_header memory).magic_number ≢ 0xd4c3b2a1
    → read_global_header (record { content = memory ++ rest; eof = false })
      ≡ ok ((global_header memory, false), record { content = rest; eof = false })
unfolding read_global_header
read_global_header-append memory rest size order =
    let whole : (length memory == 24) ≡ true = (==_iff (length memory) 24).1 size in
    let host_order : ((global_header memory).magic_number == 0xd4c3b2a1) ≡ false =
      ground (arith, order) in
    rw (read-append 24 memory rest (sym size), whole, host_order) refl

end_lem :
    (ctime : ℕ → Span) (count n : ℕ)
    → count ≡ n
    → (m : Outcome (List Span))
    → (finish ctime count [] m >>= λ result.
        ok (elim result [ none ↦ none | some r ↦ some (r.1 ++ (last_line r.0 ∷ [])) ]))
      ≡ (m >>= λ lines. ok (some (lines ++ (last_line n ∷ []))))
unfolding finish
end_lem ctime count n e fault = refl
end_lem ctime count n e (ok lines) = ap (λ (k : ℕ). ok (some (lines ++ (last_line k ∷ [])))) e

-- A file of a header in the host's byte order and of records that were captured whole, each with a payload
-- that is no larger than the header allows: the records are processed in order and numbered from 1, what
-- they print comes in that order, and last the number of records. There are more rounds than records.
pub process_pcap_file-bytes :
    (ctime : ℕ → Span) (fuel : ℕ) (memory : Span) (rs : List Entry)
    → length memory ≡ 24
    → (global_header memory).magic_number ≢ 0xd4c3b2a1
    → length rs < fuel
    → All (IsEntry (global_header memory).snaplen) rs
    → process_pcap_file ctime fuel (record { content = memory ++ entries_bytes rs; eof = false })
      ≡ (process_all ctime 0 rs >>= λ lines. ok (some (lines ++ (last_line (length rs) ∷ []))))
unfolding process_pcap_file
process_pcap_file-bytes ctime fuel memory rs size order h v =
    let buffer : Span = replicate (global_header memory).snaplen 0 in
    let same : (global_header memory).snaplen ≡ length buffer =
      sym (length-replicate (global_header memory).snaplen) in
    let entries : All (IsEntry (length buffer)) rs = subst (λ (n : ℕ). All (IsEntry n) rs) same v in
    rw
      (
        read_global_header-append memory (entries_bytes rs) size order,
        loop_lem ctime rs fuel buffer 0 [] h entries,
      )
      (end_lem ctime (0 + length rs) (length rs) (omega arith) (process_all ctime 0 rs))
