-- ===== src/Scorecard/Html/Safe.antt =====
-- cmd/scorecard/report.go: what a value printed by the template can and cannot do to the page.
use smart_money_falsifier.Base.{
  ℕ, ◌≡◌, refl, Bool, ◌||◌, List, [], ◌∷◌, ◌++◌, ◌==◌, select, select-append, flat_map, arith, Str,
  str,
}
use smart_money_falsifier.Scorecard.Html.{
  escape_byte, escape, Piece, markup, text, piece_text, render,
}

-- The bytes that open or close a tag or an attribute's value.
abbrev pub is_delimiter : ℕ → Bool
is_delimiter c = c == b'<' || c == b'>' || c == b'"' || c == b'\''

abbrev pub delimiters : Str → Str
delimiters s = select is_delimiter s

-- The template's own text.
abbrev pub markup_of : List Piece → Str
markup_of [] = []
markup_of (markup s ∷ ps) = s ++ markup_of ps
markup_of (text s ∷ ps) = markup_of ps

delimiters-escape_byte : (c : ℕ) → delimiters (escape_byte c) ≡ []
unfolding escape_byte str
delimiters-escape_byte c = ground arith

delimiters-escape : (s : Str) → delimiters (escape s) ≡ []
unfolding escape
delimiters-escape [] = refl
delimiters-escape (c ∷ s) =
    rw
      (
        select-append is_delimiter (escape_byte c) (flat_map escape_byte s),
        delimiters-escape_byte c,
      )
      (delimiters-escape s)

pub delimiters-render : (ps : List Piece) → delimiters (render ps) ≡ delimiters (markup_of ps)
unfolding render
delimiters-render [] = refl
delimiters-render (markup s ∷ ps) =
    rw
      (
        select-append is_delimiter s (flat_map piece_text ps),
        select-append is_delimiter s (markup_of ps),
        delimiters-render ps,
      )
      refl
delimiters-render (text s ∷ ps) =
    rw (select-append is_delimiter (escape s) (flat_map piece_text ps), delimiters-escape s)
      (delimiters-render ps)
