-- ===== src/IpAddress/Text.antt =====
-- Printing an address and reading it back.
use neptun.Common.{
  ℕ, zero, suc, ◌+◌, ◌*◌, ◌/◌, ◌%◌, ◌^◌, ◌<◌, ◌≡◌, refl, sym, ap, ◌∙◌, [], ◌∷◌, ◌++◌, append_assoc,
  append-nil, Bool, true, false, if◌then◌else◌, not, ◌&&◌, ◌==◌, ==_iff, arith, bit_and, Outcome,
  ok, fault, Bool-cases, inl, inr,
}
use neptun.Common.Bits.{bit_and_low, bit_and_shift, bit_or_fields}
use neptun.Io.{Span}
use neptun.IpAddress.{
  stoi, push_byte, parse_loop, ip_string_to_host, to_decimal, print_loop, ip_host_to_string,
}

abbrev no_dot : Span → Bool
no_dot [] = true
no_dot (c ∷ s) = not (c == b'.') && no_dot s

abbrev is_ok : Outcome ℕ → ℕ → Bool
is_ok (ok m) n = m == n
is_ok fault n = false

-- A test that holds of the numbers below a limit, found out by evaluation.
passes : (ℕ → Bool) → ℕ → Bool
passes test zero = true
passes test (suc last) = if test last then passes test last else false

passes_below :
    (test : ℕ → Bool) (limit number : ℕ)
    → number < limit
    → passes test limit ≡ true
    → test number ≡ true
unfolding passes
passes_below test zero number below h = absurd (omega arith)
passes_below test (suc last) number below h = elim (Bool-cases (test last)) [
  | inr fails ↦ absurd (cc (rw fails at h))
  | inl holds ↦ elim (Bool-cases (number == last)) [
    | inl same ↦ ap test ((==_iff number last).0 same) ∙ holds
    | inr other ↦ passes_below test last number (ground (arith, below, other)) (rw holds at h)
  ]
]

abbrev is_token : ℕ → Bool
is_token n = is_ok (stoi (to_decimal n)) n && no_dot (to_decimal n)

tokens : passes (λ n. is_ok (stoi (to_decimal n)) n && no_dot (to_decimal n)) 256 ≡ true
unfolding passes stoi to_decimal
tokens = refl

both : (a b : Bool) → (a && b) ≡ true → (a ≡ true) × (b ≡ true)
both true true h = (refl, refl)
both true false h = cc
both false b h = cc

is_ok-eq : (o : Outcome ℕ) (n : ℕ) → is_ok o n ≡ true → o ≡ ok n
is_ok-eq (ok m) n h = ap ok ((==_iff m n).0 h)
is_ok-eq fault n h = cc

-- The text of a byte is read back and has no dot.
token : (n : ℕ) → n < 256 → (stoi (to_decimal n) ≡ ok n) × (no_dot (to_decimal n) ≡ true)
token n h =
    let (value, dots) =
      both (is_ok (stoi (to_decimal n)) n) (no_dot (to_decimal n))
        (passes_below _ 256 n h tokens) in
    (is_ok-eq (stoi (to_decimal n)) n value, dots)

-- The loop collects characters up to the next dot.
parse_loop-append :
    (ip : ℕ) (before text rest : Span)
    → no_dot text ≡ true
    → parse_loop ip before (text ++ rest) ≡ parse_loop ip (before ++ text) rest
unfolding parse_loop
parse_loop-append ip before [] rest h = rw append-nil
parse_loop-append ip before (c ∷ text) rest h =
    let (dot, others) = both (not (c == b'.')) (no_dot text) h in
    elim (Bool-cases (c == b'.')) [
      | inl same ↦ absurd (ground (arith, dot, same))
      | inr other ↦ rw other (
          parse_loop-append ip (before ++ (c ∷ [])) text rest others
          ∙ ap (λ (t : Span). parse_loop ip t rest) (append_assoc before (c ∷ []) text))
    ]

parse_token :
    (ip byte : ℕ) (rest : Span)
    → byte < 256
    → parse_loop ip [] (to_decimal byte ++ (b'.' ∷ rest)) ≡ parse_loop (push_byte ip byte) [] rest
unfolding parse_loop
parse_token ip byte rest h =
    let (value, dots) = token byte h in
    parse_loop-append ip [] (to_decimal byte) (b'.' ∷ rest) dots ∙ rw (parse_loop, value) refl

parse_last :
    (ip byte : ℕ) → byte < 256 → parse_loop ip [] (to_decimal byte) ≡ ok (push_byte ip byte)
unfolding parse_loop push_byte
parse_last ip byte h =
    let (value, dots) = token byte h in
    ap (parse_loop ip []) (sym (append-nil (to_decimal byte)))
    ∙ parse_loop-append ip [] (to_decimal byte) [] dots
    ∙ rw (parse_loop, value) refl

push_byte_lem : (ip byte : ℕ) → ip < 2 ^ 24 → byte < 256 → push_byte ip byte ≡ ip * 256 + byte
unfolding push_byte
push_byte_lem ip byte h k =
    let word : ip * 2 ^ 8 % 2 ^ 32 ≡ ip * 2 ^ 8 = omega arith in
    let high : bit_and 0xffffff00 (ip * 2 ^ 8) ≡ ip * 2 ^ 8 =
      bit_and_shift 8 0xffffff (ip * 2 ^ 8)
      ∙ ap (λ (t : ℕ). t * 2 ^ 8) (bit_and_low 24 (ip * 2 ^ 8 / 2 ^ 8) ∙ omega arith) in
    let low : bit_and 0x000000ff byte ≡ byte = bit_and_low 8 byte ∙ omega arith in
    rw (word, high, low) (bit_or_fields 8 ip byte k)

top_byte : (ip : ℕ) → ip < 2 ^ 32 → bit_and 0xff000000 ip / 2 ^ 24 ≡ ip / 2 ^ 24
top_byte ip h = omega (arith, bit_and_shift 24 0xff ip, bit_and_low 8 (ip / 2 ^ 24))

print_step :
    (n ip : ℕ) (s sep : Span)
    → ip < 2 ^ 32
    → print_loop (suc n) s sep ip
      ≡ print_loop n (s ++ (sep ++ to_decimal (ip / 2 ^ 24))) (b'.' ∷ []) (ip * 2 ^ 8 % 2 ^ 32)
unfolding print_loop
print_step n ip s sep h =
    ap
      (λ (byte : ℕ). print_loop n (s ++ (sep ++ to_decimal byte)) (b'.' ∷ []) (ip * 2 ^ 8 % 2 ^ 32))
      (top_byte ip h)

abbrev next : ℕ → ℕ
next n = n * 2 ^ 8 % 2 ^ 32

-- The text of four bytes.
abbrev dotted : ℕ → ℕ → ℕ → ℕ → Span
dotted a b c d =
    to_decimal a ++ (b'.' ∷ (to_decimal b ++ (b'.' ∷ (to_decimal c ++ (b'.' ∷ to_decimal d)))))

parse_byte :
    (ip byte n : ℕ) (rest : Span)
    → ip < 2 ^ 24
    → byte < 256
    → ip * 256 + byte ≡ n
    → parse_loop ip [] (to_decimal byte ++ (b'.' ∷ rest)) ≡ parse_loop n [] rest
parse_byte ip byte n rest h k e =
    parse_token ip byte rest k
    ∙ ap (λ (m : ℕ). parse_loop m [] rest) (push_byte_lem ip byte h k ∙ e)

parse_dotted :
    (a b c d : ℕ)
    → a < 256
    → b < 256
    → c < 256
    → d < 256
    → parse_loop 0 [] (dotted a b c d) ≡ ok (((a * 256 + b) * 256 + c) * 256 + d)
parse_dotted a b c d ha hb hc hd =
    parse_byte 0 a a _ (omega arith) ha (omega arith)
    ∙ parse_byte a b (a * 256 + b) _ (omega arith) hb refl
    ∙ parse_byte (a * 256 + b) c ((a * 256 + b) * 256 + c) _ (omega arith) hc refl
    ∙ parse_last ((a * 256 + b) * 256 + c) d hd
    ∙ ap ok (push_byte_lem ((a * 256 + b) * 256 + c) d (omega arith) hd)

append-dots :
    (a b c d : Span)
    → ((a ++ (b'.' ∷ b)) ++ (b'.' ∷ c)) ++ (b'.' ∷ d)
      ≡ a ++ (b'.' ∷ (b ++ (b'.' ∷ (c ++ (b'.' ∷ d)))))
append-dots a b c d = simp (append_assoc)

print_dotted :
    (ip : ℕ)
    → ip < 2 ^ 32
    → ip_host_to_string ip ≡ dotted (ip / 2 ^ 24) (ip / 2 ^ 16 % 256) (ip / 2 ^ 8 % 256) (ip % 256)
unfolding ip_host_to_string print_loop
print_dotted ip h =
    let second : next ip / 2 ^ 24 ≡ ip / 2 ^ 16 % 256 = omega arith in
    let third : next (next ip) / 2 ^ 24 ≡ ip / 2 ^ 8 % 256 = omega arith in
    let fourth : next (next (next ip)) / 2 ^ 24 ≡ ip % 256 = omega arith in
    print_step 3 ip [] [] h
    ∙ print_step 2 (next ip) _ (b'.' ∷ []) (omega arith)
    ∙ print_step 1 (next (next ip)) _ (b'.' ∷ []) (omega arith)
    ∙ print_step 0 (next (next (next ip)))
        ((to_decimal (ip / 2 ^ 24) ++ (b'.' ∷ to_decimal (next ip / 2 ^ 24)))
          ++ (b'.' ∷ to_decimal (next (next ip) / 2 ^ 24)))
        (b'.' ∷ []) (omega arith)
    ∙ rw (second, third, fourth)
        (append-dots (to_decimal (ip / 2 ^ 24)) (to_decimal (ip / 2 ^ 16 % 256))
          (to_decimal (ip / 2 ^ 8 % 256)) (to_decimal (ip % 256)))

-- The text of an address is read back as the address.
pub print_parse : (ip : ℕ) → ip < 2 ^ 32 → ip_string_to_host (ip_host_to_string ip) ≡ ok ip
unfolding ip_string_to_host
print_parse ip h =
    ap (parse_loop 0 []) (print_dotted ip h)
    ∙ parse_dotted _ _ _ _ (omega arith) (omega arith) (omega arith) (omega arith)
    ∙ ap ok (omega arith)
