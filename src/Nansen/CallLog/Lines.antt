-- ===== src/Nansen/CallLog/Lines.antt =====
-- internal/nansen/calllog.go: the file of the call log, read line by line.
use mathlib.Core.List.{append_assoc, append-nil}
use smart_money_falsifier.Base.{
  ℕ, suc, ◌≡◌, ◌≢◌, refl, ap, sym, ◌∙◌, Bool, true, false, List, [], ◌∷◌, ◌++◌, map, some,
  if◌then◌else◌, ◌==◌, Str, str, All, All-append, arith, any, pos, negsuc, ℤ, join,
}
use smart_money_falsifier.Nansen.Cache.{JsonText}
use smart_money_falsifier.Nansen.CallLog.{
  LogLine, line_members, new_call_log, opens, line_text, append_all, append, writes, of_int,
  of_bool, member,
}

-- The text up to the first newline, and the ones after it.
abbrev cut : Str → Str × List Str
cut [] = ([], [])
cut (c ∷ s) = let rest = cut s in if c == b'\n' then ([], rest.0 ∷ rest.1) else (c ∷ rest.0, rest.1)

-- `strings.Split(s, "\n")`
abbrev pub split_lines : Str → List Str
split_lines s = (cut s).0 ∷ (cut s).1

abbrev IsOneLine : Str → Type 0
IsOneLine s = All (λ c. c ≢ b'\n') s

-- encoding/json puts no newline into a string or a number.
pub record WritesOneLine (j : JsonText) : Type 0 where
  pub number-IsOneLine : (n : ℕ) → All (λ c. c ≢ b'\n') (j.of_number n)
  pub quote-IsOneLine : (s : Str) → All (λ c. c ≢ b'\n') (j.quote s)

cut-line : (l s : Str) → IsOneLine l → cut (l ++ b'\n' ∷ s) ≡ (l, split_lines s)
cut-line [] s h = refl
cut-line (c ∷ l) s h = grind (arith, h.0, cut-line l s h.1)

no_newline-IsOneLine : (s : Str) → any (λ c. c == b'\n') s ≡ false → IsOneLine s
no_newline-IsOneLine [] h = tt
no_newline-IsOneLine (c ∷ s) h =
    (λ e. ground (arith, e, h), no_newline-IsOneLine s (ground (arith, h)))

module _ (j : JsonText) (one : WritesOneLine j) where
  of_int-IsOneLine : (x : ℤ) → IsOneLine (of_int j x)
  of_int-IsOneLine (pos n) = one.number-IsOneLine n
  of_int-IsOneLine (negsuc n) = ((λ e. ground (arith, e)), one.number-IsOneLine (suc n))

  of_bool-IsOneLine : (b : Bool) → IsOneLine (of_bool b)
  unfolding str
  of_bool-IsOneLine true = no_newline-IsOneLine (str "true") refl
  of_bool-IsOneLine false = no_newline-IsOneLine (str "false") refl

  member-IsOneLine : (name value : Str) → IsOneLine value → IsOneLine (member j name value)
  member-IsOneLine name value h =
      All-append (λ c. c ≢ b'\n') (j.quote name) (b':' ∷ value) (one.quote-IsOneLine name)
        (λ e. ground (arith, e), h)

  join-IsOneLine : (ls : List Str) → All IsOneLine ls → IsOneLine (join (b',' ∷ []) ls)
  unfolding join
  join-IsOneLine [] h = tt
  join-IsOneLine (l ∷ []) h = h.0
  join-IsOneLine (l ∷ m ∷ ls) h =
      All-append (λ c. c ≢ b'\n') l _ h.0 (λ e. ground (arith, e), join-IsOneLine (m ∷ ls) h.1)

  line_members-IsOneLine : (l : LogLine) → All IsOneLine (line_members j l)
  unfolding line_members
  line_members-IsOneLine l =
      let e = l.entry in
      let text = λ (s : Str). one.quote-IsOneLine s in
      (
        member-IsOneLine (str "ts") _ (text l.timestamp),
        (
          member-IsOneLine (str "endpoint") _ (text e.endpoint),
          (
            member-IsOneLine (str "status") _ (one.number-IsOneLine e.status),
            (
              member-IsOneLine (str "credits_cost") _ (of_int-IsOneLine e.credits_cost),
              (
                member-IsOneLine (str "credits_used") _ (of_int-IsOneLine e.credits_used),
                (
                  member-IsOneLine (str "credits_remaining") _
                      (of_int-IsOneLine e.credits_remaining),
                  (
                    member-IsOneLine (str "request_id") _ (text e.request_id),
                    (
                      member-IsOneLine (str "cache_hit") _ (of_bool-IsOneLine e.cache_hit),
                      (member-IsOneLine (str "duration_ms") _ (of_int-IsOneLine l.duration_ms), tt),
                    ),
                  ),
                ),
              ),
            ),
          ),
        ),
      )

  line_text-IsOneLine : (l : LogLine) → IsOneLine (line_text j l)
  unfolding line_text
  line_text-IsOneLine l = (
    λ q. ground (arith, q),
    All-append (λ c. c ≢ b'\n') (join (b',' ∷ []) (line_members j l)) (b'}' ∷ [])
        (join-IsOneLine (line_members j l) (line_members-IsOneLine l)) (λ q. ground (arith, q), tt),
  )

  -- What the lines of a list of entries are in the file.
  abbrev lines_of : List LogLine → Str
  lines_of [] = []
  lines_of (l ∷ ls) = line_text j l ++ b'\n' ∷ lines_of ls

  append_all-eq : (file : Str) (ls : List LogLine) → append_all j file ls ≡ file ++ lines_of ls
  unfolding append_all append
  append_all-eq file [] = sym (append-nil file)
  append_all-eq file (l ∷ ls) =
      append_all-eq (file ++ (line_text j l ++ b'\n' ∷ [])) ls
      ∙ append_assoc file (line_text j l ++ b'\n' ∷ []) (lines_of ls)
      ∙ ap (λ t. file ++ t) (append_assoc (line_text j l) (b'\n' ∷ []) (lines_of ls))

  split-lines_of : (ls : List LogLine) → split_lines (lines_of ls) ≡ map (line_text j) ls ++ [] ∷ []
  split-lines_of [] = refl
  split-lines_of (l ∷ ls) =
      rw (cut-line (line_text j l) (lines_of ls) (line_text-IsOneLine l))
        (ap (λ t. line_text j l ∷ t) (split-lines_of ls))

  append_all-append :
      (file : Str) (ls ms : List LogLine)
      → append_all j (append_all j file ls) ms ≡ append_all j file (ls ++ ms)
  unfolding append_all
  append_all-append file [] ms = refl
  append_all-append file (l ∷ ls) ms = append_all-append (append j writes file l).0 ls ms

  -- The log that a run opens and writes to holds, line by line, the entries of the earlier runs and then
  -- those of this one, in the order of the calls, each on a line of its own and nothing else; where
  -- the writes succeed and JSON strings and numbers have no newline in them.
  pub append_all-lines :
      (earlier later : List LogLine)
      → (file : Str) × (new_call_log opens (some (append_all j [] earlier)) ≡ some file)
        × (split_lines (append_all j file later) ≡ map (line_text j) (earlier ++ later) ++ [] ∷ [])
  append_all-lines earlier later =
      let file = append_all j [] earlier in
      let whole = append_all-append [] earlier later ∙ append_all-eq [] (earlier ++ later) in
      (file, refl, ap split_lines whole ∙ split-lines_of (earlier ++ later))
