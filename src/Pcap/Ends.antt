-- ===== src/Pcap/Ends.antt =====
-- The loop over a file ends, and what becomes of a record that the file does not have whole.
use neptun.Common.{
  ℕ, zero, suc, ◌+◌, ◌-◌, ◌≤◌, ◌<◌, ◌≡◌, ◌≢◌, ap, ◌∙◌, List, [], ◌∷◌, ◌++◌, arith, length, take,
  drop, length-drop, ltb, leb, ◌==◌, ==_iff, Bool, true, false, Bool-cases, inl, inr, ltb_false→le,
  lt→ltb, replicate, none, ok, check, if◌then◌else◌, Ensures, >>=-Ensures, Ensures-ok, IsSome,
  Ensures-ne-none, Ensures-map,
}
use neptun.Io.{Span}
use neptun.Pcap.{
  File, read, PcapGlobalHeader, PcapRecordHeader, read_global_header, read_record_header,
  read_packet_data, process_record, process_round, process_loop, process_pcap_file, last_line,
  global_header, reverse_byte_order,
}

take-append_past :
    (n : ℕ) (xs ys : Span) → length xs ≤ n → take n (xs ++ ys) ≡ xs ++ take (n - length xs) ys
take-append_past n [] ys h = ap (λ (k : ℕ). take k ys) (omega arith)
take-append_past zero (x ∷ xs) ys h = absurd (omega arith)
take-append_past (suc n) (x ∷ xs) ys h =
    ap (λ (t : Span). x ∷ t) (take-append_past n xs ys (omega (arith, h)))
    ∙ ap (λ (k : ℕ). x ∷ (xs ++ take k ys)) (omega arith)

-- How many rounds a file has at most.
abbrev rounds_left : Bool → Span → ℕ
rounds_left true content = 0
rounds_left false content = suc (length content)

abbrev rounds : File → ℕ
rounds file = rounds_left file.eof file.content

rounds_left-pos : (e : Bool) (content : Span) → e ≡ false → 0 < rounds_left e content
rounds_left-pos true content h = cc
rounds_left-pos false content h = omega arith

rounds_left-le : (e : Bool) (content : Span) → rounds_left e content ≤ suc (length content)
rounds_left-le true content = omega arith
rounds_left-le false content = omega arith

read_le :
    (e : Bool) (content : Span) (n : ℕ)
    → rounds (read (record { content = content; eof = e }) n).1 ≤ rounds_left e content
unfolding read
read_le true content n = omega arith
read_le false content n = elim (Bool-cases (ltb (length content) n)) [
  | inl short ↦ rw short (omega arith)
  | inr enough ↦ rw enough (omega (arith, length-drop n content))
]

-- A read of some bytes takes some, or meets the end.
read-lt :
    (e : Bool) (content : Span) (n : ℕ)
    → e ≡ false
    → 0 < n
    → rounds (read (record { content = content; eof = e }) n).1 < rounds_left e content
unfolding read
read-lt true content n h k = cc
read-lt false content n h k = elim (Bool-cases (ltb (length content) n)) [
  | inl short ↦ rw short (omega arith)
  | inr enough ↦
      rw enough (omega (arith, length-drop n content, ltb_false→le (length content) n enough, k))
]

global_le :
    (file : File)
    → Ensures
        (λ (r : (PcapGlobalHeader × Bool) × File). rounds r.1 ≤ rounds file)
        (read_global_header file)
unfolding read_global_header
global_le file =
    let after = read file 24 in
    >>=-Ensures _ (check (length after.0 == 24)) _ λ _ _.
      >>=-Ensures _
        (if (global_header after.0).magic_number == 0xd4c3b2a1
          then reverse_byte_order (global_header after.0)
          else ok (global_header after.0))
        _ λ _ _. read_le file.eof file.content 24

header-lt :
    (file : File) (reverse : Bool)
    → file.eof ≡ false
    → Ensures
        (λ (r : PcapRecordHeader × File). rounds r.1 < rounds file)
        (read_record_header file reverse)
unfolding read_record_header
header-lt file true h = tt
header-lt file false h = read-lt file.eof file.content 16 h (omega arith)

packet_le :
    (file : File) (header : PcapRecordHeader) (buffer : Span)
    → Ensures
        (λ (r : Span × Span × File). rounds r.2 ≤ rounds file)
        (read_packet_data file header buffer)
unfolding read_packet_data
packet_le file header buffer =
    let after = read file header.incl_len in
    >>=-Ensures _ (check (header.incl_len == header.orig_len)) _ λ _ _.
      >>=-Ensures _ (check (leb (length after.0) (length buffer))) _ λ _ _.
        >>=-Ensures _ (check (leb header.incl_len (length buffer))) _
          λ _ _. read_le file.eof file.content header.incl_len

module _ (ctime : ℕ → Span) where
  round-lt :
      (reverse : Bool) (file : File) (buffer : Span) (count : ℕ) (lines : List Span)
      → file.eof ≡ false
      → Ensures
          (λ (r : File × Span × ℕ × List Span). rounds r.0 < rounds file)
          (process_round ctime reverse file buffer count lines)
  unfolding process_round
  round-lt reverse file buffer count lines h =
      >>=-Ensures _ (read_record_header file reverse) _ λ head got.
        >>=-Ensures _ (read_packet_data head.1 head.0 buffer) _ λ body got'.
          let first =
            Ensures-ok _ (read_record_header file reverse) head got (header-lt file reverse h) in
          let second =
            Ensures-ok _ (read_packet_data head.1 head.0 buffer) body got'
              (packet_le head.1 head.0 buffer) in
          let fewer : rounds body.2 < rounds file = omega (arith, first, second) in
          elim (Bool-cases (length body.0 == 0)) [
            | inl nothing ↦ rw nothing fewer
            | inr something ↦
                rw something
                  (>>=-Ensures _ (process_record ctime head.0 body.0 (count + 1)) _ λ _ _. fewer)
          ]

  loop-IsSome :
      (fuel : ℕ) (reverse : Bool) (file : File) (buffer : Span) (count : ℕ) (lines : List Span)
      → rounds file ≤ fuel
      → Ensures IsSome (process_loop ctime fuel reverse file buffer count lines)
  unfolding process_loop
  loop-IsSome zero reverse file buffer count lines h = elim (Bool-cases file.eof) [
    | inl end ↦ rw end tt
    | inr more ↦ absurd (omega (arith, h, rounds_left-pos file.eof file.content more))
  ]
  loop-IsSome (suc fuel) reverse file buffer count lines h = elim (Bool-cases file.eof) [
    | inl end ↦ rw (process_loop, end) tt
    | inr more ↦
        rw (process_loop, more)
          (>>=-Ensures IsSome (process_round ctime reverse file buffer count lines) _ λ r got.
            let fewer =
              Ensures-ok _ (process_round ctime reverse file buffer count lines) r got
                (round-lt reverse file buffer count lines more) in
            loop-IsSome fuel reverse r.0 r.1 r.2 r.3 (omega (arith, h, fewer)))
  ]

  -- The loop over any file ends: with more rounds than the file has bytes, it prints its lines or faults,
  -- and never runs out of them.
  pub process_pcap_file-ne-none :
      (fuel : ℕ) (file : File)
      → length file.content < fuel
      → process_pcap_file ctime fuel file ≢ ok none
  unfolding process_pcap_file
  process_pcap_file-ne-none fuel file h = Ensures-ne-none (process_pcap_file ctime fuel file) (
      >>=-Ensures IsSome (read_global_header file) _ λ r got.
        let within : rounds r.1 ≤ fuel = omega (
          arith,
          h,
          rounds_left-le file.eof file.content,
          Ensures-ok _ (read_global_header file) r got (global_le file),
        ) in
        let buffer : Span = replicate r.0.0.snaplen 0 in
        Ensures-map (process_loop ctime fuel r.0.1 r.1 buffer 0 [])
          (λ (r : ℕ × List Span). r.1 ++ (last_line r.0 ∷ []))
          (loop-IsSome fuel r.0.1 r.1 buffer 0 [] within))

-- A record whose payload the file does not have whole is processed all the same: behind the bytes that
-- are there stand those that the buffer had from the records before.
pub read_packet_data_cut :
    (content : Span) (header : PcapRecordHeader) (buffer : Span)
    → header.incl_len ≡ header.orig_len
    → length content < header.incl_len
    → header.incl_len ≤ length buffer
    → read_packet_data (record { content = content; eof = false }) header buffer
      ≡ ok (
        content ++ take (header.incl_len - length content) (drop (length content) buffer),
        content ++ drop (length content) buffer,
        record { content = []; eof = true },
      )
unfolding read_packet_data read
read_packet_data_cut content header buffer same short fits =
    let room : leb (length content) (length buffer) ≡ true = ground (arith, short, fits) in
    let room' : leb header.incl_len (length buffer) ≡ true = ground (arith, fits) in
    rw
      (
        (==_iff header.incl_len header.orig_len).1 same,
        lt→ltb (length content) header.incl_len short,
        room,
        room',
      )
      (ap
        (λ (t : Span).
          ok (t, content ++ drop (length content) buffer, record { content = []; eof = true }))
        (take-append_past header.incl_len content (drop (length content) buffer)
          (omega (arith, short))))
