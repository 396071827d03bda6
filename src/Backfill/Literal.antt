-- ===== src/Backfill/Literal.antt =====
-- internal/backfill/backfill.go: `Int64Array`, the array literal that a query takes, and the reader of
-- such literals. A text is its list of bytes.
pub mod RoundTrip
use quickbite_analytics_serv.Base.{
  ℕ, zero, suc, ◌+◌, ◌-◌, ◌*◌, ◌/◌, ◌%◌, Bool, true, false, not, ◌&&◌, Option, none, some, List, [],
  ◌∷◌, ◌++◌, ltb, leb, ◌==◌, if◌then◌else◌,
}
use quickbite_analytics_serv.Base.Int.{ℤ, pos, negsuc}
use quickbite_analytics_serv.Base.Int64.{neg_of}

-- The decimal digits of `n`. There are at most `n` of them after the first, so `n` is fuel enough.
unfoldable pub digits : ℕ → ℕ → List ℕ
digits zero n = (b'0' + n % 10) ∷ []
digits (suc fuel) n = elim (ltb n 10) [
  | true ↦ (b'0' + n) ∷ []
  | false ↦ digits fuel (n / 10) ++ (b'0' + n % 10) ∷ []
]

-- `%d`
unfoldable pub decimal : ℤ → List ℕ
unfolding digits
decimal (pos n) = digits n n
decimal (negsuc n) = b'-' ∷ digits (suc n) (suc n)

unfoldable pub append_int : List ℕ → ℤ → List ℕ
unfolding decimal
append_int b n = b ++ decimal n

-- the loop's body at the position `i`, and the rest of the loop
unfoldable pub append_ints : ℕ → List ℤ → List ℕ → List ℕ
unfolding append_int
append_ints i [] b = b
append_ints i (n ∷ rest) b =
    append_ints (suc i) rest (append_int (if ltb 0 i then b ++ b',' ∷ [] else b) n)

unfoldable pub int64_array : List ℤ → List ℕ
unfolding append_ints
int64_array ids = append_ints 0 ids (b'{' ∷ []) ++ b'}' ∷ []

-- Where a reader of literals is: the numbers before the last comma, the sign and the value of the
-- number after it, whether that has a digit yet, and whether the literal was closed.
pub record Reader : Type 0 where
  pub done : List ℤ
  pub negative : Bool
  pub value : ℕ
  pub begun : Bool
  pub closed : Bool

abbrev pub fresh : List ℤ → Reader
fresh done = record { done = done; negative = false; value = 0; begun = false; closed = false }

abbrev is_empty : List ℤ → Bool
is_empty [] = true
is_empty (n ∷ rest) = false

abbrev pub number : Reader → ℤ
number r = if r.negative then neg_of r.value else pos r.value

abbrev pub closed_with : List ℤ → Reader
closed_with done = record (fresh done) { closed = true }

-- nothing was read after the opening brace
abbrev none_read : Reader → Bool
none_read r = is_empty r.done && not r.negative

abbrev is_digit : ℕ → Bool
is_digit c = leb b'0' c && leb c b'9'

abbrev read_byte : ℕ → Reader → Option Reader
read_byte c r =
    if is_digit c
    then some (record r { value = r.value * 10 + (c - b'0'); begun = true })
    else if c == b'-'
    then (if r.begun
        then none
        else if r.negative
        then none
        else some (record r { negative = true }))
    else if c == b','
    then (if r.begun then some (fresh (r.done ++ number r ∷ [])) else none)
    else if c == b'}'
    then (if r.begun
        then some (closed_with (r.done ++ number r ∷ []))
        else if none_read r
        then some (closed_with [])
        else none)
    else none

-- Nothing may follow the closing brace.
unfoldable pub read_next : ℕ → Reader → Option Reader
read_next c r = if r.closed then none else read_byte c r

unfoldable pub read_bytes : List ℕ → Reader → Option Reader
unfolding read_next
read_bytes [] r = some r
read_bytes (c ∷ rest) r = elim (read_next c r) [ none ↦ none | some r' ↦ read_bytes rest r' ]

abbrev pub finished : Option Reader → Option (List ℤ)
finished none = none
finished (some r) = if r.closed then some r.done else none

-- How PostgreSQL reads a literal of type `bigint[]`: numbers in braces, with commas between them.
unfoldable pub read_array : List ℕ → Option (List ℤ)
unfolding read_bytes
read_array [] = none
read_array (c ∷ rest) = if c == b'{' then finished (read_bytes rest (fresh [])) else none
