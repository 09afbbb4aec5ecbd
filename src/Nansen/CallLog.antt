-- ===== src/Nansen/CallLog.antt =====
-- internal/nansen/calllog.go: the file of the call log. A line has the time stamp and the duration that
-- the client's own entries leave out. What encoding/json writes for a string and a number is a parameter.
mod Tests
pub mod Lines
use smart_money_falsifier.Base.{
  ℕ, suc, Bool, true, false, Option, none, some, List, [], ◌∷◌, ◌++◌, if◌then◌else◌, ◌==◌, Str, str,
  fold, ℤ, pos, negsuc, join,
}
use smart_money_falsifier.Nansen.Cache.{JsonText}
use smart_money_falsifier.Nansen.Client.{CallLogEntry}

pub record LogLine : Type 0 where
  pub timestamp : Str
  pub entry : CallLogEntry
  pub duration_ms : ℤ

-- A JSON number that may be negative.
abbrev pub of_int : JsonText → ℤ → Str
of_int j (pos n) = j.of_number n
of_int j (negsuc n) = b'-' ∷ j.of_number (suc n)

abbrev pub of_bool : Bool → Str
of_bool true = str "true"
of_bool false = str "false"

abbrev pub member : JsonText → Str → Str → Str
member j name value = j.quote name ++ (b':' ∷ value)

-- The fields of an entry in the order of the struct, without `retryAfter`.
unfoldable pub line_members : JsonText → LogLine → List Str
line_members j l =
    let e = l.entry in
    member j (str "ts") (j.quote l.timestamp)
    ∷ member j (str "endpoint") (j.quote e.endpoint)
    ∷ member j (str "status") (j.of_number e.status)
    ∷ member j (str "credits_cost") (of_int j e.credits_cost)
    ∷ member j (str "credits_used") (of_int j e.credits_used)
    ∷ member j (str "credits_remaining") (of_int j e.credits_remaining)
    ∷ member j (str "request_id") (j.quote e.request_id)
    ∷ member j (str "cache_hit") (of_bool e.cache_hit)
    ∷ member j (str "duration_ms") (of_int j l.duration_ms)
    ∷ []

-- `json.Marshal` of an entry.
unfoldable pub line_text : JsonText → LogLine → Str
unfolding join line_members
line_text j l = b'{' ∷ join (b',' ∷ []) (line_members j l) ++ b'}' ∷ []

-- How a write ends: with all the bytes in the file, or with the first of them and an error.
pub data WriteFate : Type 0 where
  writes : WriteFate
  breaks_off : Str → WriteFate

-- Append: what the file holds after it, and whether it returns nil. The mutex makes it one step.
unfoldable pub append : JsonText → WriteFate → Str → LogLine → Str × Bool
append j writes file l = (file ++ (line_text j l ++ b'\n' ∷ []), true)
append j (breaks_off part) file l = (file ++ part, false)

-- The file after the calls of a run, which ignore what Append returns.
unfoldable pub append_all : JsonText → Str → List LogLine → Str
unfolding append
append_all j file ls = fold (λ f l. (append j writes f l).0) file ls

-- NewCallLog: the file that is open, where the directory and the file can be made. What it held
-- stays.
pub data OpenFate : Type 0 where
  mkdir_fails : OpenFate
  open_fails : OpenFate
  opens : OpenFate

abbrev pub new_call_log : OpenFate → Option Str → Option Str
new_call_log mkdir_fails file = none
new_call_log open_fails file = none
new_call_log opens none = some []
new_call_log opens (some held) = some held
