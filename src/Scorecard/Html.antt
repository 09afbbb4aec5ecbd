-- ===== src/Scorecard/Html.antt =====
-- What cmd/scorecard/report.go uses of html/template: how a printed value is escaped, the same in a text
-- and in a quoted attribute.
pub mod Safe
use smart_money_falsifier.Base.{List, [], ◌∷◌, ◌++◌, ℕ, if◌then◌else◌, ◌==◌, Str, str, flat_map}

-- The bytes for one byte of a value. A NUL becomes the replacement character.
unfoldable pub escape_byte : ℕ → Str
escape_byte c =
    if c == b'<'
    then str "&lt;"
    else if c == b'>'
    then str "&gt;"
    else if c == b'&'
    then str "&amp;"
    else if c == b'"'
    then str "&#34;"
    else if c == b'\''
    then str "&#39;"
    else if c == b'+'
    then str "&#43;"
    else if c == 0
    then 0xef ∷ 0xbf ∷ 0xbd ∷ []
    else c ∷ []

unfoldable pub escape : Str → Str
unfolding escape_byte
escape s = flat_map escape_byte s

-- A part of a page: the template's own text, or a value that an action prints.
pub data Piece : Type 0 where
  markup text : Str → Piece

abbrev pub piece_text : Piece → Str
piece_text (markup s) = s
piece_text (text s) = escape s

unfoldable pub render : List Piece → Str
unfolding escape
render pieces = flat_map piece_text pieces
