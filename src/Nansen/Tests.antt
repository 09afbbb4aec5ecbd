-- ===== src/Nansen/Tests.antt =====
-- Runs of the client on small inputs, and the theorems at such inputs.
use smart_money_falsifier.Base.{
  ltb, ap, sym, ℕ, zero, suc, ◌+◌, ◌<◌, ◌≤◌, ◌≡◌, ◌≢◌, refl, true, false, none, some, [], ◌∷◌, ◌++◌,
  if◌then◌else◌, insert, join, sort_by, str_lt, all_apart-Distinct, Str, str, str_eq, str_key,
  lookup, pos, ◌≤ℤ◌, ◌+ℤ◌, ◌-ℤ◌, arith,
}
use smart_money_falsifier.Float.Whole.{Whole, whole_float, Whole-IsOrdered}
use smart_money_falsifier.Nansen.Endpoints.{credit_cost, credit_costs, path_profiler_pnl_summary}
use smart_money_falsifier.Nansen.Headers.{atoi, Header}
use smart_money_falsifier.Nansen.Budget.{
  Balance, reserved, refused, set_credits_remaining, reserve_credits,
}
use smart_money_falsifier.Nansen.Budget.Guard.{
  Pool, goes_out, Runs, start, then_step, held, Runs-funded, overlapped, overlapped-breaches,
}
use smart_money_falsifier.Nansen.Client.{
  World, Client, Call, Reply, Response, network_error, responds, done, do_call, live, miss, store,
  do_http, attempts, round, answer, judge, log_attempt,
}
use smart_money_falsifier.Nansen.Client.Attempts.{NeverOk}
use smart_money_falsifier.Nansen.Client.Steps.{IsCached}
use smart_money_falsifier.Nansen.Client.Calls.{
  do_call-sent, do_call-IsCached, do_call-IsAllowed, IsAllowed, do_call-refund, fetched_once,
}
use smart_money_falsifier.Nansen.Cache.{
  JsonText, null, number, object, field, no_fields, marshal_canonical, marshal_fields, object_text,
  get, put, write_fails,
}
use smart_money_falsifier.Nansen.Cache.Canonical.{
  SameJson, objects, swapped, marshal_canonical_order,
}
use smart_money_falsifier.Nansen.Cache.Disk.{Stores, put-Stores}
use smart_money_falsifier.Nansen.Client.Unread.{BreaksOff, do_call-unread}
use smart_money_falsifier.Nansen.RateLimit.{RateLimiter, new_rate_limiter, limiter_wait}
use smart_money_falsifier.Nansen.RateLimit.Capacity.{
  IsBounded, limiter_wait-IsBounded, new_rate_limiter-IsBounded,
}

-- It answers a round with a 200 and then with nothing.
abbrev serves : World
serves = record {
  reply = λ k. elim k [
    | zero ↦
        responds
          (record { status_code = 200; header = λ h. []; body = str "{}"; read_fails = false })
    | suc n ↦ network_error
  ];
  backoff_cancelled = λ k. false;
  limiter_cancelled = λ k. false;
  put_fails = λ key. false;
  until = λ v. none;
}

abbrev silent : World
silent = record serves { reply = λ k. network_error }

abbrev client : Client
client = record {
  balance = record { credit_floor = pos 100; credits_remaining = pos 200 };
  allow_expensive = false;
  offline = false;
  max_retries = 1;
  unreadable = [];
  logging = true;
  log = [];
  cache = [];
  clock = 0;
  sent = 0;
}

abbrev pnl_call : Call ℕ
pnl_call = record { path = path_profiler_pnl_summary; key = some (str "k"); decode = λ s. some 7 }

served : (do_call serves pnl_call client).1 ≡ done false 7
unfolding do_call live miss store do_http attempts round answer judge lookup reserve_credits str
    str_eq ◌-ℤ◌ credit_cost
served = refl

sent_one : (do_call serves pnl_call client).0.sent ≡ 1
unfolding do_call live miss store do_http attempts round answer judge log_attempt lookup
    reserve_credits str str_eq ◌-ℤ◌ credit_cost
sent_one = refl

do_call-sent_example :
    (do_call serves pnl_call client).0.sent ≤ client.sent + (client.max_retries + 1)
do_call-sent_example = do_call-sent serves pnl_call client

do_call-IsCached_example :
    IsCached serves pnl_call
      (str "k")
      client
      (do_call serves pnl_call client).0
      (do_call serves pnl_call client).1
do_call-IsCached_example = do_call-IsCached serves pnl_call client (str "k") refl

do_call-IsAllowed_example :
    IsAllowed serves pnl_call client
    × ((key : Str) × (pnl_call.key ≡ some key) × (lookup key client.cache ≡ none))
do_call-IsAllowed_example = do_call-IsAllowed serves pnl_call client (omega (arith, sent_one))

abbrev status_of : Reply → ℕ
status_of (responds r) = r.status_code
status_of _ = 0

-- It answers both rounds of a call with a 500, and then with a 200.
abbrev recovers : World
recovers = record serves {
  reply = λ k. responds (record {
    status_code = if ltb k 2 then 500 else 200;
    header = λ h. [];
    body = str "{}";
    read_fails = false;
  });
}

recovers-NeverOk : NeverOk recovers 0 2
unfolding NeverOk
recovers-NeverOk k r le lt e = ground (arith, lt, ap status_of (sym e))

do_call-refund_example : (do_call recovers pnl_call client).0.balance ≡ client.balance
do_call-refund_example = do_call-refund recovers pnl_call client recovers-NeverOk

abbrev unplugged : Client
unplugged = record client { offline = true }

abbrev later : Client
later = record unplugged { cache = (do_call serves pnl_call client).0.cache }

fetched_once_example :
    ((do_call silent pnl_call later).1 ≡ done true 7)
    × ((do_call silent pnl_call later).0.sent ≡ later.sent)
    × ((do_call silent pnl_call later).0.balance ≡ later.balance)
    × ((do_call silent pnl_call later).0.cache ≡ later.cache)
fetched_once_example = fetched_once serves pnl_call silent client later (str "k") 7 refl served refl

abbrev tells_102 : Response
tells_102 = record { status_code = 200; header = λ h. str "102"; body = []; read_fails = true }

abbrev cut_short : World
cut_short = record serves { reply = λ k. responds tells_102 }

cut_short-BreaksOff : BreaksOff cut_short 0 tells_102 (pos 102) b'1' (b'0' ∷ b'2' ∷ [])
unfolding str atoi
cut_short-BreaksOff = record {
  no_cut = λ k le. (refl, refl);
  same_reply = λ k le. refl;
  ok = refl;
  unread = refl;
  told = refl;
  number = refl;
}

pnl_reserved : (reserve_credits client.balance (credit_cost pnl_call.path)).1 ≡ reserved
unfolding reserve_credits credit_cost ◌-ℤ◌ str str_eq lookup
pnl_reserved = refl

pnl_cheap : 1 < credit_cost pnl_call.path → client.allow_expensive ≡ true
unfolding credit_cost str str_eq lookup
pnl_cheap lt = absurd (omega arith)

do_call-unread_example :
    (do_call cut_short pnl_call client).0.balance.credits_remaining
    ≡ pos 102 +ℤ pos (credit_cost pnl_call.path)
unfolding lookup
do_call-unread_example =
    do_call-unread cut_short pnl_call tells_102 (pos 102) b'1' (b'0' ∷ b'2' ∷ []) client (str "k")
      refl refl refl pnl_cheap pnl_reserved cut_short-BreaksOff

abbrev at_200 : Balance
at_200 = client.balance

abbrev idle : Pool
idle = record { balance = at_200; in_flight = [] }

abbrev one_out : Pool
one_out = record { balance = (reserve_credits at_200 5).0; in_flight = 5 ∷ [] }

one_out-Runs : Runs idle one_out
unfolding reserve_credits ◌-ℤ◌
one_out-Runs = then_step start (goes_out idle 5 refl)

Runs-funded_example :
    (held one_out ≡ held idle) × (one_out.balance.credit_floor ≤ℤ one_out.balance.credits_remaining)
Runs-funded_example = Runs-funded one_out-Runs (omega arith)

overlapped-breaches_example :
    ((reserve_credits (set_credits_remaining at_200 (pos 102)) 5).1 ≡ refused)
    × ((reserve_credits (overlapped at_200 5 5 (pos 102)) 5).1 ≡ reserved)
unfolding ◌+ℤ◌
overlapped-breaches_example =
    overlapped-breaches at_200 5 5 5 (pos 102) (omega arith) (omega arith) (omega arith)
      (omega arith)

abbrev a_day : Header
a_day h = str "86400"

abbrev limiter : RateLimiter Whole
limiter = new_rate_limiter 12 240 (pos 0)

less_one : (x : Whole) → whole_float.lt x (whole_float.sub x whole_float.one) ≡ false
less_one x = ground arith

above_num : (x y : Whole) → whole_float.le x y ≡ true → whole_float.eq y y ≡ true
above_num x y h = ground (arith, h)

limiter_wait-IsBounded_example :
    IsBounded (limiter_wait limiter (pos 5, pos 6 ∷ []) (pos 9, [])).0.per_second
    × IsBounded (limiter_wait limiter (pos 5, pos 6 ∷ []) (pos 9, [])).0.per_minute
limiter_wait-IsBounded_example =
    limiter_wait-IsBounded Whole-IsOrdered less_one above_num limiter (pos 5, pos 6 ∷ [])
      (pos 9, []) (new_rate_limiter-IsBounded Whole-IsOrdered 12 240 (pos 0)).0
      (new_rate_limiter-IsBounded Whole-IsOrdered 12 240 (pos 0)).1

abbrev plain_json : JsonText
plain_json = record { of_number = λ n. n ∷ []; quote = λ s. b'"' ∷ s ++ b'"' ∷ [] }

swapped_Same :
    SameJson
      (object (field (str "a") null (field (str "b") (number 1) no_fields)))
      (object (field (str "b") (number 1) (field (str "a") null no_fields)))
swapped_Same =
    objects (all_apart-Distinct (str "a" ∷ str "b" ∷ []) (unfold str_eq str in refl))
      (swapped (str "a") (str "b") null (number 1) no_fields)

marshal_canonical_order_example :
    marshal_canonical plain_json
      (object (field (str "a") null (field (str "b") (number 1) no_fields)))
    ≡ marshal_canonical plain_json
        (object (field (str "b") (number 1) (field (str "a") null no_fields)))
marshal_canonical_order_example = marshal_canonical_order plain_json swapped_Same

canonical_runs :
    marshal_canonical plain_json
      (object (field (str "b") (number b'1') (field (str "a") null no_fields)))
    ≡ str "{\"a\":null,\"b\":1}"
unfolding marshal_canonical marshal_fields object_text sort_by str_lt str_eq str lookup join
canonical_runs = refl

no_files : Stores (str "dir") [] []
unfolding get lookup
no_files key = refl

put-Stores_example :
    Stores (str "dir") (put (str "dir") (write_fails (str "{")) (str "k") (str "{}") []).0 (
      if (put (str "dir") (write_fails (str "{")) (str "k") (str "{}") []).1
      then insert (str "k") (str "{}") []
      else [])
put-Stores_example =
    put-Stores (str "dir") (write_fails (str "{")) (str "k") (str "{}") [] [] no_files

-- It answers a round with nothing and then with a 200.
abbrev late : World
late = record serves {
  reply = λ k. elim k [
    | zero ↦ network_error
    | suc n ↦
        responds
          (record { status_code = 200; header = λ h. []; body = str "{}"; read_fails = false })
  ];
}

funded : (reserve_credits client.balance (credit_cost path_profiler_pnl_summary)).1 ≢ refused
unfolding reserve_credits credit_cost credit_costs lookup str str_eq ◌-ℤ◌
funded e = ground (arith, e)
