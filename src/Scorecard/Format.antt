-- ===== src/Scorecard/Format.antt =====
-- What cmd/scorecard uses of package fmt: the verbs `%d`, `%s` with a width, and `%.0f` and its like. A
-- float64's digits are an interface, as the numbers themselves are.
pub mod Digits
use smart_money_falsifier.Base.{
  ℕ, zero, suc, ◌+◌, ◌-◌, ◌/◌, ◌%◌, ◌≡◌, Bool, true, false, ◌&&◌, List, [], ◌∷◌, ◌++◌,
  if◌then◌else◌, ltb, leb, ◌==◌, Str, ℤ,
}

-- `fixed n x` is `fmt.Sprintf("%.nf", x)`, and `to_int x` is `int(x)`.
pub record FloatText (W : Type 0) : Type 0 where
  pub fixed : ℕ → W → Str
  pub to_int : W → ℤ

-- The digits of a number before `acc`, in at most as many rounds as the fuel says.
unfoldable pub decimal_from : ℕ → ℕ → Str → Str
decimal_from zero n acc = acc
decimal_from (suc fuel) n acc =
    let rest = decimal_from fuel (n / 10) ((b'0' + n % 10) ∷ acc) in
    if ltb n 10 then (b'0' + n) ∷ acc else rest

-- `%d`
unfoldable pub decimal : ℕ → Str
unfolding decimal_from
decimal n = decimal_from (suc n) n []

abbrev within : ℕ → ℕ → ℕ → Bool
within lo hi c = leb lo c && leb c hi

-- Whether the first bytes of a text continue a rune, the first of them between two bounds.
abbrev continues : ℕ → ℕ → ℕ → Str → Bool
continues zero lo hi s = true
continues (suc k) lo hi [] = false
continues (suc k) lo hi (c ∷ s) = within lo hi c && continues k 0x80 0xbf s

abbrev follows : ℕ → ℕ → ℕ → Str → ℕ
follows k lo hi s = if continues k lo hi s then k else 0

-- How many bytes of the text belong to the rune that starts with `c`; none where it is not valid UTF-8,
-- when the byte stands for a rune of its own.
unfoldable pub trail : ℕ → Str → ℕ
trail c s =
    if within 0xc2 0xdf c
    then follows 1 0x80 0xbf s
    else if c == 0xe0
    then follows 2 0xa0 0xbf s
    else if c == 0xed
    then follows 2 0x80 0x9f s
    else if within 0xe1 0xef c
    then follows 2 0x80 0xbf s
    else if c == 0xf0
    then follows 3 0x90 0xbf s
    else if within 0xf1 0xf3 c
    then follows 3 0x80 0xbf s
    else if c == 0xf4
    then follows 3 0x80 0x8f s
    else 0

abbrev runes_from : ℕ → Str → ℕ
runes_from skip [] = 0
runes_from zero (c ∷ s) = suc (runes_from (trail c s) s)
runes_from (suc skip) (c ∷ s) = runes_from skip s

-- `utf8.RuneCountInString`, in which fmt measures a width.
unfoldable pub rune_count : Str → ℕ
unfolding trail
rune_count s = runes_from 0 s

unfoldable pub repeat : ℕ → ℕ → Str
repeat zero c = []
repeat (suc n) c = c ∷ repeat n c

-- `%8s`
unfoldable pub pad_left : ℕ → Str → Str
unfolding rune_count repeat
pad_left width s = repeat (width - rune_count s) b' ' ++ s

-- `%-8s`
unfoldable pub pad_right : ℕ → Str → Str
unfolding rune_count repeat
pad_right width s = s ++ repeat (width - rune_count s) b' '
