-- ===== src/FlipBuffer/Laws.antt =====
-- What the operations of FlipBuffer do to the bytes in use.
use neptun.Common.{
  ℕ, ◌+◌, ◌-◌, ◌≤◌, ◌≡◌, refl, sym, ap, ◌∙◌, List, [], ◌∷◌, ◌++◌, append_assoc, arith, length, take,
  drop, length-append, length-take, length-drop, take-append-drop, le→ltb_false, leb, ok, true,
}
use neptun.Io.Encode.{load-append, store-append}
use neptun.Io.{Span, load, subspan}
use neptun.FlipBuffer.{FlipBuffer, init, remaining, flip_loop, flip}

pub record IsValid (f : FlipBuffer) : Type 0 where
  pub begin_le : f.begin_index ≤ f.end_index
  pub end_le : f.end_index ≤ length f.bytes

-- The bytes in use.
abbrev pub contents : FlipBuffer → List ℕ
contents f = take (f.end_index - f.begin_index) (drop f.begin_index f.bytes)

-- `done` is copied to the front, `todo` is still to be copied from behind a gap.
flip_loop_lem :
    (begin i : ℕ) (done gap todo rest : Span)
    → i ≡ length done
    → begin ≡ length gap
    → flip_loop (length todo) begin i (done ++ (gap ++ (todo ++ rest)))
      ≡ ok (done ++ (todo ++ drop (length todo) (gap ++ (todo ++ rest))))
unfolding flip_loop
flip_loop_lem begin i done gap [] rest e g = refl
flip_loop_lem begin i done [] (x ∷ todo) rest e g =
    rw
      (
        load-append done x (todo ++ rest) (begin + i) (omega arith),
        store-append done x (todo ++ rest) i x e,
        ← append_assoc done (x ∷ []) (todo ++ rest),
      )
      (flip_loop_lem begin (i + 1) (done ++ (x ∷ [])) [] todo rest
          (omega (arith, length-append done (x ∷ []))) g
        ∙ ap ok (append_assoc done (x ∷ []) (todo ++ drop (length todo) (todo ++ rest))))
flip_loop_lem begin i done (y ∷ gap) (x ∷ todo) rest e g =
    let before : load (done ++ (y ∷ (gap ++ (x ∷ (todo ++ rest))))) (begin + i) ≡ ok x =
      rw (← append_assoc done (y ∷ gap) (x ∷ (todo ++ rest))) (
        load-append (done ++ (y ∷ gap)) x (todo ++ rest) (begin + i)
          (omega (arith, length-append done (y ∷ gap)))) in
    rw
      (
        before,
        store-append done y (gap ++ (x ∷ (todo ++ rest))) i x e,
        ← append_assoc gap (x ∷ []) (todo ++ rest),
        ← append_assoc done (x ∷ []) (gap ++ (x ∷ []) ++ (todo ++ rest)),
      )
      (flip_loop_lem begin (i + 1) (done ++ (x ∷ [])) (gap ++ (x ∷ [])) todo rest
          (omega (arith, length-append done (x ∷ []))) (omega (arith, length-append gap (x ∷ [])))
        ∙ ap ok (
            append_assoc done (x ∷ [])
              (todo ++ drop (length todo) (gap ++ (x ∷ []) ++ (todo ++ rest)))))

-- A vector is what lies before a range, the range, and what lies behind it.
pub split_at : (b : Span) (lo n : ℕ) → take lo b ++ (take n (drop lo b) ++ drop n (drop lo b)) ≡ b
split_at b lo n = rw (take-append-drop n (drop lo b), take-append-drop lo b)

flip_loop_split :
    (b gap todo rest : Span) (n lo : ℕ)
    → b ≡ gap ++ (todo ++ rest)
    → n ≡ length todo
    → lo ≡ length gap
    → flip_loop n lo 0 b ≡ ok (todo ++ drop n b)
flip_loop_split b gap todo rest n lo e h g = rw (e, h) (flip_loop_lem lo 0 [] gap todo rest refl g)

-- `flip` of a valid buffer returns. It moves the bytes in use to the front and keeps their order,
-- so all of the vector behind them is free again.
pub flip_lem :
    (f : FlipBuffer)
    → IsValid f
    → (g : FlipBuffer) × (flip f ≡ ok g)
      × (g.begin_index ≡ 0)
      × (g.end_index ≡ f.end_index - f.begin_index)
      × (length g.bytes ≡ length f.bytes)
      × (g.bytes ≡ contents f ++ drop (f.end_index - f.begin_index) f.bytes)
unfolding flip
flip_lem f v =
    let n = f.end_index - f.begin_index in
    let used = contents f in
    let size : n ≡ length used =
      omega
        (arith, length-take n (drop f.begin_index f.bytes), length-drop f.begin_index f.bytes) in
    let leb_true : leb f.begin_index f.end_index ≡ true = ground arith in
    let moved : Span = used ++ drop n f.bytes in
    (
      record { begin_index = 0; end_index = n; bytes = moved },
      rw (
        leb_true,
        flip_loop_split f.bytes (take f.begin_index f.bytes) used
            (drop n (drop f.begin_index f.bytes)) n f.begin_index
            (sym (split_at f.bytes f.begin_index n)) size
            (omega (arith, length-take f.begin_index f.bytes)),
      ),
      refl,
      refl,
      omega (arith, length-append used (drop n f.bytes), length-drop n f.bytes),
      refl,
    )

take_all : (xs : List ℕ) → take (length xs) xs ≡ xs
take_all [] = refl
take_all (x ∷ xs) = ap (◌∷◌ x) (take_all xs)

pub init-IsValid : (capacity : ℕ) → IsValid (init capacity)
unfolding init
init-IsValid capacity = omega arith

-- `remaining` of a valid buffer is the free part of the vector.
pub remaining_lem : (f : FlipBuffer) → IsValid f → remaining f ≡ ok (drop f.end_index f.bytes)
unfolding remaining subspan
remaining_lem f v =
    let rest = length-drop f.end_index f.bytes in
    rw (
      subspan,
      le→ltb_false (length f.bytes) f.end_index v.end_le,
      le→ltb_false (length f.bytes - f.end_index) (length f.bytes - f.end_index) (omega arith),
      ← rest,
      take_all (drop f.end_index f.bytes),
    )
