-- ===== src/Nansen/Client.antt =====
-- internal/nansen/client.go: PlanCall, Do and doHTTP. A call takes the client and returns the client
-- after it. The world answers through `World`; time stamps and durations of the log are left out.
pub mod Attempts
pub mod Calls
pub mod Steps
pub mod Unread
pub mod Served
pub mod Quiet
mod Ways
use smart_money_falsifier.Base.{
  ℕ, zero, suc, ◌+◌, ◌≤◌, ◌<◌, Bool, true, false, not, ◌&&◌, ◌||◌, Option, none, some, List, [],
  ◌∷◌, ◌++◌, if◌then◌else◌, ltb, leb, ◌==◌, any, select, Str, str, str_key, str_eq, Dict, lookup,
  insert, ℤ, pos,
}
use smart_money_falsifier.Nansen.Endpoints.{credit_cost}
use smart_money_falsifier.Nansen.Headers.{Header, atoi, parse_int_header, parse_retry_after}
use smart_money_falsifier.Nansen.Budget.{
  Balance, Reservation, reserved, unguarded, refused, set_credits_remaining, reserve_credits,
  release_reserved_credits,
}

pub record CallLogEntry : Type 0 where
  pub endpoint : Str
  pub status : ℕ
  pub credits_cost : ℤ
  pub credits_used : ℤ
  pub credits_remaining : ℤ
  pub request_id : Str
  pub cache_hit : Bool
  pub retry_after : ℕ

abbrev pub zero_entry : CallLogEntry
zero_entry = record {
  endpoint = [];
  status = 0;
  credits_cost = pos 0;
  credits_used = pos 0;
  credits_remaining = pos 0;
  request_id = [];
  cache_hit = false;
  retry_after = 0;
}

pub record Response : Type 0 where
  pub status_code : ℕ
  pub header : Header
  pub body : Str
  pub read_fails : Bool

pub data Reply : Type 0 where
  unbuildable network_error : Reply
  responds : Response → Reply

-- What the client does not decide. `clock` counts the rounds of the retry loops of all calls.
pub record World : Type 0 where
  pub reply : ℕ → Reply
  pub backoff_cancelled : ℕ → Bool
  pub limiter_cancelled : ℕ → Bool
  pub put_fails : Str → Bool
  pub until : Str → Option ℤ

pub record Client : Type 0 where
  pub balance : Balance
  pub allow_expensive : Bool
  pub offline : Bool
  pub max_retries : ℕ
  pub logging : Bool
  pub log : List CallLogEntry
  -- the cached responses that can be read
  pub cache : Dict Str Str
  -- the keys of files that are in the cache and that cannot be read
  pub unreadable : List Str
  pub clock : ℕ
  -- how many HTTP requests went out
  pub sent : ℕ

-- A call: its path, its cache key, or nothing where the body has no JSON form, and how a response
-- body is decoded.
pub record Call (Out : Type 0) : Type 0 where
  pub path : Str
  pub key : Option Str
  pub decode : Str → Option Out

pub data Error : Type 0 where
  cache_key decode_cached offline_miss expensive budget_floor encode_request : Error
  cancelled build_request request_failed read_failed rate_limited : Error
  decode_response cache_put : Error
  server_error unexpected_status : ℕ → Error
  exhausted : Error → Error
  -- `lastErr` before an attempt
  no_error : Error

pub data Outcome (Out : Type 0) : Type 0 where
  done : Bool → Out → Outcome Out
  failed : Error → Outcome Out

pub record Plan : Type 0 where
  pub endpoint : Str
  pub cache_hit : Bool
  pub credits_cost : ℕ

abbrev pub has : {A : Type 0} → Option A → Bool
has none = false
has (some a) = true

-- `Cache.Has` asks whether there is a file, and not whether it can be read.
abbrev pub cache_has : Client → Str → Bool
cache_has c key = has (lookup key c.cache) || any (str_eq key) c.unreadable

unfoldable pub plan_call : {Out : Type 0} → Client → Call Out → Option Plan
plan_call c call = elim call.key [
  | none ↦ none
  | some key ↦ some (record {
    endpoint = call.path;
    cache_hit = cache_has c key;
    credits_cost = credit_cost call.path;
  })
]

unfoldable pub log_attempt : Client → CallLogEntry → Client
log_attempt c e = if c.logging then record c { log = c.log ++ e ∷ [] } else c

-- `c.setCreditsRemaining(n)`, for a 200 whose header holds a number.
unfoldable pub observe : Balance → Response → Balance
unfolding set_credits_remaining atoi
observe b r =
    if r.status_code == 200
    then elim (r.header (str "X-Nansen-Credits-Remaining")) [
      | [] ↦ b
      | x ∷ v ↦ elim (atoi (x ∷ v)) [ none ↦ b | some n ↦ set_credits_remaining b n ]
    ]
    else b

abbrev pub is_zero : ℤ → Bool
is_zero (pos n) = n == 0
is_zero _ = false

unfoldable pub entry_of : World → Str → ℕ → Response → CallLogEntry
unfolding parse_int_header parse_retry_after
entry_of w path cost r =
    let declared = parse_int_header r.header (str "X-Nansen-Credits-Cost") in
    record {
      endpoint = path;
      status = r.status_code;
      credits_cost = if r.status_code == 200 && is_zero declared then pos cost else declared;
      credits_used = parse_int_header r.header (str "X-Nansen-Credits-Used");
      credits_remaining = parse_int_header r.header (str "X-Nansen-Credits-Remaining");
      request_id = r.header (str "X-Request-Id");
      cache_hit = false;
      retry_after = parse_retry_after w.until r.header;
    }

-- How one round of the retry loop ends: with a body, with an error, or in another round.
pub data Round : Type 0 where
  body : CallLogEntry → Str → Round
  gives_up : CallLogEntry → Error → Round
  again : CallLogEntry → Error → Round

unfoldable pub judge : World → Str → ℕ → Response → Round
judge w path cost r =
    let entry = entry_of w path cost r in
    if r.read_fails
    then again entry read_failed
    else if r.status_code == 200
    then body entry r.body
    else if r.status_code == 429
    then again entry rate_limited
    else if leb 500 r.status_code
    then again entry (server_error r.status_code)
    else gives_up entry (unexpected_status r.status_code)

unfoldable pub answer : World → Str → ℕ → CallLogEntry → Client → Reply → Client × Round
unfolding observe
answer w path cost last c unbuildable = (c, gives_up last build_request)
answer w path cost last c network_error = (
  record c { sent = c.sent + 1 },
  again (record zero_entry { endpoint = path; credits_cost = pos cost }) request_failed,
)
answer w path cost last c (responds r) =
    (record c { sent = c.sent + 1; balance = observe c.balance r }, judge w path cost r)

-- One round: the wait before a retry, the limiter, and the request.
unfoldable pub round : World → Str → ℕ → ℕ → CallLogEntry → Client → Client × Round
unfolding answer
round w path cost attempt last c =
    let next = record c { clock = c.clock + 1 } in
    if ltb 0 attempt && w.backoff_cancelled c.clock
    then (next, gives_up last cancelled)
    else if w.limiter_cancelled c.clock
    then (next, gives_up last cancelled)
    else answer w path cost last next (w.reply c.clock)

pub data HttpResult : Type 0 where
  got : Str → HttpResult
  lost : Error → HttpResult

-- The loop of doHTTP with `left` rounds to go.
unfoldable pub attempts :
    World → Str → ℕ → ℕ → ℕ → CallLogEntry → Error → Client → Client × CallLogEntry × HttpResult
attempts w path cost zero attempt last last_err c = (c, last, lost (exhausted last_err))
attempts w path cost (suc left) attempt last last_err c =
    let (c', r) = round w path cost attempt last c in
    elim r [
      | body entry raw ↦ (c', entry, got raw)
      | gives_up entry e ↦ (c', entry, lost e)
      | again entry e ↦ attempts w path cost left (attempt + 1) entry e c'
    ]

-- The request's JSON is the one that the key was made of, so that encoding it does not fail here.
unfoldable pub do_http : World → Str → ℕ → Client → Client × CallLogEntry × HttpResult
unfolding attempts
do_http w path cost c = attempts w path cost (c.max_retries + 1) 0 zero_entry no_error c

-- What Do does with a reservation of a call that failed.
unfoldable pub give_back : Bool → ℕ → Client → Client
unfolding release_reserved_credits
give_back holds cost c =
    if holds then record c { balance = release_reserved_credits c.balance cost } else c

module _ {Out : Type 0} where
  -- `json.Unmarshal(raw, out)`, then `Cache.Put`, which renames a file that can be read into place.
  unfoldable pub store : World → Call Out → Str → Str → Client → Client × Outcome Out
  store w call key raw c = elim (call.decode raw) [
    | none ↦ (c, failed decode_response)
    | some out ↦ if w.put_fails key then (c, failed cache_put) else (
      record c {
        cache = insert key raw c.cache;
        unreadable = select (λ k. not (str_eq key k)) c.unreadable;
      },
      done false out,
    )
  ]

  -- From doHTTP on, with what reserveCredits answered.
  unfoldable pub live : World → Call Out → Str → Bool → Client → Client × Outcome Out
  unfolding do_http log_attempt store give_back
  live w call key holds c =
      let cost = credit_cost call.path in
      let (c₁, entry, result) = do_http w call.path cost c in
      let c₂ = log_attempt c₁ entry in
      elim result [
        | lost e ↦ (give_back holds cost c₂, failed e)
        | got raw ↦ store w call key raw c₂
      ]

  unfoldable pub miss : World → Call Out → Str → Client → Client × Outcome Out
  unfolding reserve_credits live
  miss w call key c =
      let cost = credit_cost call.path in
      let (b, r) = reserve_credits c.balance cost in
      if c.offline
      then (c, failed offline_miss)
      else if ltb 1 cost && not c.allow_expensive
      then (c, failed expensive)
      else elim r [
        | refused ↦ (c, failed budget_floor)
        | unguarded ↦ live w call key false (record c { balance = b })
        | reserved ↦ live w call key true (record c { balance = b })
      ]

  unfoldable pub hit : Call Out → Str → Client → Client × Outcome Out
  unfolding log_attempt
  hit call raw c = elim (call.decode raw) [
    | none ↦ (c, failed decode_cached)
    | some out ↦ (
      log_attempt c (record zero_entry {
        endpoint = call.path;
        status = 200;
        credits_cost = pos (credit_cost call.path);
        cache_hit = true;
      }),
      done true out,
    )
  ]

  -- Do. `Cache.Get` misses a file that cannot be read.
  unfoldable pub do_call : World → Call Out → Client → Client × Outcome Out
  unfolding hit miss
  do_call w call c = elim call.key [
    | none ↦ (c, failed cache_key)
    | some key ↦ elim (lookup key c.cache) [ some raw ↦ hit call raw c | none ↦ miss w call key c ]
  ]
