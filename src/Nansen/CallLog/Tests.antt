-- ===== src/Nansen/CallLog/Tests.antt =====
-- Runs of the call log on small entries, and the theorem at such entries.
use smart_money_falsifier.Base.{
  ℕ, zero, suc, ◌≡◌, ◌≢◌, refl, some, [], ◌∷◌, ◌++◌, map, if◌then◌else◌, ◌==◌, All, All-append, Str,
  str, pos, negsuc, flat_map, arith, Bool-cases, inl, inr, join,
}
use smart_money_falsifier.Nansen.Cache.{JsonText}
use smart_money_falsifier.Nansen.Client.{zero_entry}
use smart_money_falsifier.Nansen.CallLog.{
  LogLine, line_text, line_members, append, append_all, breaks_off, writes, new_call_log, opens,
}
use smart_money_falsifier.Nansen.CallLog.Lines.{split_lines, WritesOneLine, append_all-lines}

-- A number as so many strokes, and a string with its newlines escaped.
abbrev strokes : ℕ → Str
strokes zero = []
strokes (suc n) = b'1' ∷ strokes n

abbrev escaped : ℕ → Str
escaped c = if c == b'\n' then b'\\' ∷ b'n' ∷ [] else c ∷ []

abbrev small_json : JsonText
small_json = record { of_number = strokes; quote = λ s. b'"' ∷ flat_map escaped s ++ b'"' ∷ [] }

strokes-line : (n : ℕ) → All (λ c. c ≢ b'\n') (strokes n)
strokes-line zero = tt
strokes-line (suc n) = (λ e. ground (arith, e), strokes-line n)

escaped-line : (c : ℕ) → All (λ x. x ≢ b'\n') (escaped c)
escaped-line c = elim (Bool-cases (c == b'\n')) [
  | inl t ↦ rw t (λ e. ground (arith, e), (λ e. ground (arith, e), tt))
  | inr t ↦ rw t (λ e. ground (arith, e, t), tt)
]

text-line : (s : Str) → All (λ c. c ≢ b'\n') (flat_map escaped s)
text-line [] = tt
text-line (c ∷ s) =
    All-append (λ x. x ≢ b'\n') (escaped c) (flat_map escaped s) (escaped-line c) (text-line s)

small_json-lines : WritesOneLine small_json
small_json-lines = record {
  number-IsOneLine = strokes-line;
  quote-IsOneLine = λ s. (
    λ e. ground (arith, e),
    All-append (λ c. c ≢ b'\n') (flat_map escaped s) (b'"' ∷ []) (text-line s)
        (λ e. ground (arith, e), tt),
  );
}

abbrev line : LogLine
line = record {
  timestamp = str "t";
  entry = record zero_entry { endpoint = str "a\nb"; status = 2; credits_remaining = negsuc 0 };
  duration_ms = pos 1;
}

line_runs :
    line_text small_json line
    ≡ str "{\"ts\":\"t\",\"endpoint\":\"a\\nb\",\"status\":11,\"credits_cost\":,"
      ++ str "\"credits_used\":,\"credits_remaining\":-1,\"request_id\":\"\","
      ++ str "\"cache_hit\":false,\"duration_ms\":1}"
unfolding line_text line_members join str
line_runs = refl

-- A write that breaks off leaves its bytes at the head of the next line.
broken_runs :
    split_lines
      (append small_json writes (append small_json (breaks_off (str "{\"ts")) [] line).0 line).0
    ≡ (str "{\"ts" ++ line_text small_json line) ∷ [] ∷ []
unfolding append line_text line_members join str
broken_runs = refl

append_all-lines_example :
    (file : Str) × (new_call_log opens (some (append_all small_json [] (line ∷ []))) ≡ some file)
    × (split_lines (append_all small_json file (line ∷ line ∷ []))
        ≡ map (line_text small_json) (line ∷ line ∷ line ∷ []) ++ [] ∷ [])
append_all-lines_example =
    append_all-lines small_json small_json-lines (line ∷ []) (line ∷ line ∷ [])
