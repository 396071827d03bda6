-- ===== src/Backfill/Literal/RoundTrip.antt =====
-- PostgreSQL reads back the ids that `Int64Array` of internal/backfill/backfill.go writes.
use quickbite_analytics_serv.Base.{
  ℕ, zero, suc, ◌+◌, ◌*◌, ◌/◌, ◌%◌, ◌≤◌, ◌<◌, ◌≡◌, refl, sym, ap, ◌∙◌, Bool, true, false, none,
  some, Option-cases, ◌⊎◌, List, [], ◌∷◌, ◌++◌, ltb, ltb→lt, Bool-cases, inl, inr, arith,
  append-nil, append_assoc,
}
use quickbite_analytics_serv.Base.Int.{ℤ, pos, negsuc}
use quickbite_analytics_serv.Backfill.Literal.{
  digits, decimal, append_int, append_ints, int64_array, Reader, fresh, number, read_next,
  read_bytes, read_array, finished, closed_with,
}

abbrev reading : List ℤ → Bool → ℕ → Bool → Reader
reading done negative value begun = record {
  done = done;
  negative = negative;
  value = value;
  begun = begun;
  closed = false;
}

-- One byte, and what was read of a text first, of a longer one.
read_bytes-step :
    (x : ℕ) (xs : List ℕ) (r r' : Reader)
    → read_next x r ≡ some r'
    → read_bytes (x ∷ xs) r ≡ read_bytes xs r'
unfolding read_bytes
read_bytes-step x xs r r' h = rw (h, read_bytes) refl

read_bytes-append :
    (xs ys : List ℕ) (r r' : Reader)
    → read_bytes xs r ≡ some r'
    → read_bytes (xs ++ ys) r ≡ read_bytes ys r'
unfolding read_bytes
read_bytes-append [] ys r r' h = let same : r ≡ r' = cc in rw same refl
read_bytes-append (x ∷ xs) ys r r' h = elim (Option-cases (read_next x r)) [
  | inl stuck ↦ let impossible : none ≡ some r' = rw (stuck, read_bytes) at h in cc
  | inr (q, step) ↦
      read_bytes-step x (xs ++ ys) r q step
      ∙ read_bytes-append xs ys q r' (sym (read_bytes-step x xs r q step) ∙ h)
]

-- A digit behind the value `v` makes it the value `u`.
read_digit :
    (done : List ℤ) (neg begun : Bool) (v d u : ℕ)
    → d < 10
    → u ≡ v * 10 + d
    → read_next (b'0' + d) (reading done neg v begun) ≡ some (reading done neg u true)
unfolding read_next
read_digit done neg begun v d u h same = ground arith

read_digits :
    (fuel n : ℕ) (done : List ℤ) (neg begun : Bool)
    → n ≤ fuel
    → read_bytes (digits fuel n) (reading done neg 0 begun) ≡ some (reading done neg n true)
unfolding digits read_bytes
read_digits zero n done neg begun h =
    read_bytes-step (b'0' + n % 10) [] (reading done neg 0 begun) (reading done neg n true)
      (read_digit done neg begun 0 (n % 10) n (omega arith) (omega arith))
read_digits (suc fuel) n done neg begun h =
    by_size (Bool-cases (ltb n 10)) (read_digits fuel (n / 10) done neg begun)
  where
    tenth_le : ltb n 10 ≡ false → n / 10 ≤ fuel
    tenth_le large = ground arith

    by_size :
        (ltb n 10 ≡ true) ⊎ (ltb n 10 ≡ false)
        → (n / 10 ≤ fuel
            → read_bytes (digits fuel (n / 10)) (reading done neg 0 begun)
              ≡ some (reading done neg (n / 10) true))
        → read_bytes (digits (suc fuel) n) (reading done neg 0 begun)
          ≡ some (reading done neg n true)
    by_size (inl small) before =
        rw (small, digits)
          (read_bytes-step (b'0' + n) [] (reading done neg 0 begun) (reading done neg n true)
            (read_digit done neg begun 0 n n (ltb→lt n 10 small) (omega arith)))
    by_size (inr large) before =
        rw (large, digits)
          (read_bytes-append (digits fuel (n / 10)) ((b'0' + n % 10) ∷ [])
              (reading done neg 0 begun) (reading done neg (n / 10) true) (before (tenth_le large))
            ∙ read_bytes-step (b'0' + n % 10) [] (reading done neg (n / 10) true)
                (reading done neg n true)
                (read_digit done neg true (n / 10) (n % 10) n (omega arith) (omega arith)))

abbrev after_int : List ℤ → ℤ → Reader
after_int done (pos n) = reading done false n true
after_int done (negsuc n) = reading done true (suc n) true

number-after_int : (done : List ℤ) (n : ℤ) → number (after_int done n) ≡ n
number-after_int done (pos n) = refl
number-after_int done (negsuc n) = ground arith

-- An int is read with its sign.
read_decimal :
    (done : List ℤ) (n : ℤ) → read_bytes (decimal n) (fresh done) ≡ some (after_int done n)
unfolding decimal read_next
read_decimal done (pos n) = read_digits n n done false false (omega arith)
read_decimal done (negsuc n) =
    read_bytes-step b'-' (digits (suc n) (suc n)) (fresh done) (reading done true 0 false) refl
    ∙ read_digits (suc n) (suc n) done true false (omega arith)

-- the text of the ints after the first
abbrev others : List ℤ → List ℕ
others [] = []
others (n ∷ rest) = b',' ∷ (decimal n ++ others rest)

append_ints-others :
    (i : ℕ) (rest : List ℤ) (b : List ℕ) → append_ints (suc i) rest b ≡ b ++ others rest
unfolding append_ints append_int
append_ints-others i [] b = sym (append-nil b)
append_ints-others i (n ∷ rest) b = rw (later i) (
    append_ints-others (suc i) rest ((b ++ b',' ∷ []) ++ decimal n)
    ∙ append_assoc (b ++ b',' ∷ []) (decimal n) (others rest)
    ∙ append_assoc b (b',' ∷ []) (decimal n ++ others rest))
  where
    later : (k : ℕ) → ltb 0 (suc k) ≡ true
    later k = ground arith

read_comma :
    (done : List ℤ) (n : ℤ) → read_next b',' (after_int done n) ≡ some (fresh (done ++ n ∷ []))
unfolding read_next
read_comma done (pos n) = refl
read_comma done (negsuc n) =
    ap (λ k. some (fresh (done ++ k ∷ []))) (number-after_int done (negsuc n))

read_brace :
    (done : List ℤ) (n : ℤ)
    → read_next b'}' (after_int done n) ≡ some (closed_with (done ++ n ∷ []))
unfolding read_next
read_brace done (pos n) = refl
read_brace done (negsuc n) =
    ap (λ k. some (closed_with (done ++ k ∷ []))) (number-after_int done (negsuc n))

read_others :
    (rest done : List ℤ) (n : ℤ)
    → read_bytes (others rest ++ b'}' ∷ []) (after_int done n)
      ≡ some (closed_with (done ++ n ∷ rest))
unfolding read_bytes
read_others [] done n =
    read_bytes-step b'}' [] (after_int done n) (closed_with (done ++ n ∷ [])) (read_brace done n)
read_others (m ∷ rest) done n =
    read_bytes-step b',' ((decimal m ++ others rest) ++ b'}' ∷ []) (after_int done n)
      (fresh (done ++ n ∷ [])) (read_comma done n)
    ∙ rw (append_assoc (decimal m) (others rest)) (
        read_bytes-append (decimal m) (others rest ++ b'}' ∷ []) (fresh (done ++ n ∷ []))
          (after_int (done ++ n ∷ []) m) (read_decimal (done ++ n ∷ []) m))
    ∙ read_others rest (done ++ n ∷ []) m
    ∙ ap (λ xs. some (closed_with xs)) (append_assoc done (n ∷ []) (m ∷ rest))

-- A reader of PostgreSQL's literals reads back the ids that `Int64Array` wrote, none or many, in
-- their order.
pub read_array-int64_array : (ids : List ℤ) → read_array (int64_array ids) ≡ some ids
unfolding read_array int64_array append_ints append_int
read_array-int64_array [] = refl
read_array-int64_array (n ∷ rest) =
    ap (λ b. read_array (b ++ b'}' ∷ [])) (append_ints-others 0 rest (b'{' ∷ decimal n))
    ∙ ap finished (
        ap (λ b. read_bytes b (fresh [])) (append_assoc (decimal n) (others rest) (b'}' ∷ []))
        ∙ read_bytes-append (decimal n) (others rest ++ b'}' ∷ []) (fresh []) (after_int [] n)
            (read_decimal [] n)
        ∙ read_others rest [] n)
