-- ===== src/Nansen/Headers.antt =====
-- internal/nansen/client.go: what the client reads from a response's headers, and how long it backs
-- off. Durations are in nanoseconds.
pub mod Waits
use smart_money_falsifier.Base.{
  ℕ, zero, suc, ◌+◌, ◌-◌, ◌*◌, ◌%◌, ◌^◌, ◌≤◌, ◌<◌, Bool, true, false, ◌&&◌, Option, none, some,
  List, [], ◌∷◌, ◌++◌, if◌then◌else◌, ltb, leb, ◌==◌, length, take, Str, str, ℤ, pos, negsuc,
  pos_part, ltb_ℤ, wrap64, sub_ℕ, neg_part,
}

-- `strconv.Atoi`: an optional sign and decimal digits, in the range of an int64.
abbrev pub digits : ℕ → Str → Option ℕ
digits acc [] = some acc
digits acc (c ∷ s) =
    let rest = digits (acc * 10 + (c - b'0')) s in if leb b'0' c && leb c b'9' then rest else none

abbrev pub unsigned : Str → Option ℕ
unsigned [] = none
unsigned (c ∷ s) = digits 0 (c ∷ s)

abbrev pub positive : Option ℕ → Option ℤ
positive none = none
positive (some n) = if ltb n (2 ^ 63) then some (pos n) else none

abbrev pub negative : Option ℕ → Option ℤ
negative none = none
negative (some n) = if leb n (2 ^ 63) then some (sub_ℕ 0 n) else none

unfoldable pub atoi : Str → Option ℤ
atoi [] = none
atoi (c ∷ s) =
    if c == b'-'
    then negative (unsigned s)
    else if c == b'+'
    then positive (unsigned s)
    else positive (unsigned (c ∷ s))

-- The headers of a response: `Get`, which is empty for a header that is not there.
abbrev pub Header : Type 0
Header = Str → Str

unfoldable pub parse_int_header : Header → Str → ℤ
unfolding atoi
parse_int_header h key = elim (h key) [
  | [] ↦ pos 0
  | c ∷ s ↦ elim (atoi (c ∷ s)) [ none ↦ pos 0 | some n ↦ n ]
]

abbrev pub second : ℕ
second = 1_000_000_000

abbrev pub max_retry_after : ℕ
max_retry_after = 60 * second

-- `time.Duration(secs) * time.Second`
abbrev pub seconds : ℤ → ℤ
seconds (pos n) = wrap64 (pos (n * second))
seconds (negsuc n) = wrap64 (sub_ℕ 0 (suc n * second))

-- The end of parseRetryAfter: a wait between nothing and a minute.
abbrev pub capped : ℤ → ℕ
capped d =
    if ltb_ℤ (pos max_retry_after) d
    then max_retry_after
    else if ltb_ℤ d (pos 0)
    then 0
    else pos_part d

-- `until` is `time.Until` of an HTTP date, or nothing where the text is none.
unfoldable pub parse_retry_after : (Str → Option ℤ) → Header → ℕ
unfolding atoi
parse_retry_after until h = elim (h (str "Retry-After")) [
  | [] ↦ 0
  | c ∷ s ↦ elim (atoi (c ∷ s)) [
    | some secs ↦ capped (seconds secs)
    | none ↦ elim (until (c ∷ s)) [ some d ↦ capped d | none ↦ 0 ]
  ]
]

-- `random` is the value of `rand.Int63()`, which `Int63n` brings below its bound.
unfoldable pub backoff_delay : ℕ → ℕ → ℕ → ℕ
backoff_delay random attempt retry_after =
    let base = 2 ^ (attempt - 1) * 200_000_000 in
    if ltb 0 retry_after then retry_after else base + random % (base + 1)

-- The first `n` bytes, marked as cut.
unfoldable pub truncate : Str → ℕ → Str
truncate b n = if leb (length b) n then b else take n b ++ str "..."
