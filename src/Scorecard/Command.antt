-- ===== src/Scorecard/Command.antt =====
-- cmd/scorecard/main.go: run, with the pipeline behind it. Parsing the flags is package flag's, so that a
-- command line is its flags or an error. The files of the cache are the map that they stand for.
pub mod Unasked
pub mod Reports
use smart_money_falsifier.Base.{
  ℕ, Bool, true, false, not, ◌&&◌, ◌||◌, Option, none, some, List, [], ◌∷◌, ◌++◌, map,
  if◌then◌else◌, ltb, length, flat_map, Str, str, str_eq, str_key, Dict, MapOrder, ℤ, pos, negsuc,
  ltb_ℤ,
}
use smart_money_falsifier.Float.{Float64}
use smart_money_falsifier.Nansen.Budget.{Balance, set_credits_remaining}
use smart_money_falsifier.Nansen.Cache.{JsonText}
use smart_money_falsifier.Nansen.Client.{
  World, Client, Error, offline_miss, exhausted, Outcome, done, failed,
}
use smart_money_falsifier.Pipeline.Universe.{ParseTime}
use smart_money_falsifier.Pipeline.Workers.{Failure}
use smart_money_falsifier.Pipeline.Plan.{PlanItem, plan}
use smart_money_falsifier.Pipeline.Run.{Result, run}
use smart_money_falsifier.Pipeline.Api.{
  Settings, new_pipeline, Decoders, api_requests, seed_call, ohlcv_call, Fixture,
  import_seed_fixture,
}
use smart_money_falsifier.Scorecard.Format.{FloatText, decimal}
use smart_money_falsifier.Scorecard.Labels.{color_enabled}
use smart_money_falsifier.Scorecard.Table.{line, print_plan, print_table}
use smart_money_falsifier.Scorecard.Report.{report_data}
use smart_money_falsifier.Scorecard.Page.{report_html}

pub record Flags (W : Type 0) : Type 0 where
  pub dry_run : Bool
  pub offline : Bool
  pub yes : Bool
  pub concurrency : ℕ
  pub max_wallets : ℕ
  pub min_signal_usd : W
  pub credit_floor : ℤ
  pub allow_expensive : Bool
  pub credits_remaining : ℤ

-- What run asks of the machine.
pub record Machine (W : Type 0) : Type 1 where
  -- `filepath.Abs(*repoRoot)`
  pub root : Option Str
  pub fixture : Fixture
  -- the keys of the cache files that are there and that cannot be read
  pub unreadable : List Str
  pub log_opens : Bool
  pub no_color : Str
  pub stdout_device : Option Bool
  -- what Scanln leaves in `answer`
  pub answer : Str
  pub out_dir_fails : Bool
  pub report_fails : Bool
  pub now : Str
  -- the template before `<body>`
  pub head : Str
  pub error_text : Error → Str
  pub json : JsonText
  pub sha : Str → Str
  pub decoders : Decoders W
  pub parse_time : ParseTime
  pub world : World
  pub order : MapOrder
  -- when each pool sees the context done
  pub cancelled : ℕ → ℕ → Bool

pub data CliError : Type 0 where
  bad_flags bad_root fixture_failed log_failed plan_failed out_dir_failed report_failed : CliError
  run_failed : Error → CliError

-- The process when run returns.
pub record Exit : Type 0 where
  pub client : Client
  pub stdout : Str
  pub stderr : Str
  pub report : Option Str
  pub error : Option CliError

-- NewClient, on the cache that is on the disk: the files that cannot be read, and what the others hold.
unfoldable pub new_client : List Str → Dict Str Str → Client
new_client unreadable cache = record {
  balance = record { credit_floor = pos 100; credits_remaining = negsuc 0 };
  allow_expensive = false;
  offline = false;
  max_retries = 3;
  unreadable = unreadable;
  logging = true;
  log = [];
  cache = cache;
  clock = 0;
  sent = 0;
}

unfoldable pub seed_credits_remaining : ℤ → Client → Client
unfolding set_credits_remaining
seed_credits_remaining v c = record c { balance = set_credits_remaining c.balance v }

unfoldable pub is_offline_miss : Error → Bool
is_offline_miss offline_miss = true
is_offline_miss (exhausted e) = is_offline_miss e
is_offline_miss _ = false

unfoldable pub confirm : Str → Bool
confirm answer = str_eq answer (str "y") || str_eq answer (str "Y") || str_eq answer (str "yes")

unfoldable pub failure_line : (Error → Str) → Failure → Str
unfolding is_offline_miss
failure_line error_text f =
    let tag = if is_offline_miss f.err then str "  [cache miss] " else str "  [error] " in
    line (tag ++ (f.stage ++ (b' ' ∷ f.key ++ (str ": " ++ error_text f.err))))

unfoldable pub failure_lines : (Error → Str) → List Failure → Str
unfolding failure_line decimal
failure_lines error_text failures =
    if ltb 0 (length failures)
    then line (
        str "scorecard: "
        ++ (decimal (length failures) ++ str " partial failures during enrichment (continuing)"))
      ++ flat_map (failure_line error_text) failures
    else []

module _ {W : Type 0} ⦃f : Float64 W⦄ ⦃t : FloatText W⦄ where
  -- The client as run sets it up.
  unfoldable pub start_client : Flags W → List Str → Dict Str Str → Client
  unfolding new_client seed_credits_remaining
  start_client flags unreadable cache =
      let c : Client = new_client unreadable cache in
      let set : Client = record c {
        balance = record c.balance { credit_floor = flags.credit_floor };
        allow_expensive = flags.allow_expensive;
        offline = flags.offline;
      } in
      if ltb_ℤ flags.credits_remaining (pos 0)
      then set
      else seed_credits_remaining flags.credits_remaining set

  unfoldable pub start_pipeline : Flags W → Settings W
  unfolding new_pipeline
  start_pipeline flags = record (new_pipeline flags.concurrency) {
    max_wallets = flags.max_wallets;
    min_signal_usd = flags.min_signal_usd;
  }

  module _ (m : Machine W) where
    abbrev colored : Bool
    colored = color_enabled m.no_color m.stdout_device

    unfoldable pub make_plan : Settings W → Client → Client × Option (List PlanItem)
    unfolding plan api_requests seed_call ohlcv_call
    make_plan p c =
        plan m.order (api_requests m.json m.sha m.decoders p.date_from p.date_to)
          (ohlcv_call m.json m.sha m.decoders p.date_from p.date_to) m.world m.parse_time
          (seed_call m.json m.sha m.decoders p.date_from p.date_to) p.max_wallets c

    unfoldable pub make_run : Settings W → Client → Client × Outcome (Result W)
    unfolding run api_requests seed_call ohlcv_call
    make_run p c =
        run m.world (api_requests m.json m.sha m.decoders p.date_from p.date_to) m.order
          m.parse_time (seed_call m.json m.sha m.decoders p.date_from p.date_to)
          (ohlcv_call m.json m.sha m.decoders p.date_from p.date_to) m.cancelled p.max_wallets
          p.min_signal_usd c

    -- From the printing of the table on.
    unfoldable pub publish : Str → Str → Client → Result W → Exit
    unfolding failure_lines print_table report_data report_html color_enabled
    publish root printed c result =
        let out = printed ++ print_table colored result in
        let err = failure_lines m.error_text result.failures in
        if m.out_dir_fails
        then record {
          client = c;
          stdout = out;
          stderr = err;
          report = none;
          error = some out_dir_failed;
        }
        else if m.report_fails
        then record {
          client = c;
          stdout = out;
          stderr = err;
          report = none;
          error = some report_failed;
        }
        else record {
          client = c;
          stdout = out ++ b'\n' ∷ line (str "wrote " ++ (root ++ str "/out/report.html"));
          stderr = err;
          report = some (report_html m.head (report_data m.now result));
          error = none;
        }

    unfoldable pub execute : Str → Str → Settings W → Client → Exit
    unfolding make_run publish
    execute root printed p c =
        let (c', out) = make_run p c in
        elim out [
          | failed e ↦ record {
            client = c';
            stdout = printed;
            stderr = [];
            report = none;
            error = some (run_failed e);
          }
          | done cached result ↦ publish root printed c' result
        ]

    -- The prompt, after the plan is printed.
    unfoldable pub ask : Str → Settings W → Client → List PlanItem → Exit
    unfolding confirm execute print_plan color_enabled
    ask root p c items =
        let asked = print_plan colored items ++ str "Proceed with this credit spend? [y/N] " in
        if confirm m.answer then execute root asked p c else record {
          client = c;
          stdout = asked ++ line (str "aborted");
          stderr = [];
          report = none;
          error = none;
        }

    unfoldable pub stop : Client → CliError → Exit
    stop c e = record { client = c; stdout = []; stderr = []; report = none; error = some e }

    -- runDryRun
    unfoldable pub dry_run : Settings W → Client → Exit
    unfolding make_plan print_plan stop color_enabled
    dry_run p c =
        let (c', items) = make_plan p c in
        elim items [
          | none ↦ stop c' plan_failed
          | some items ↦ record {
            client = c';
            stdout = print_plan colored items;
            stderr = [];
            report = none;
            error = none;
          }
        ]

    unfoldable pub confirmed_run : Str → Settings W → Client → Exit
    unfolding make_plan ask stop
    confirmed_run root p c =
        let (c', items) = make_plan p c in
        elim items [ none ↦ stop c' plan_failed | some items ↦ ask root p c' items ]

    unfoldable pub after_setup : Str → Flags W → Settings W → Client → Exit
    unfolding dry_run confirmed_run execute
    after_setup root flags p c =
        if flags.dry_run
        then dry_run p c
        else if not flags.offline && not flags.yes
        then confirmed_run root p c
        else execute root [] p c

    -- run, on the command line and the cache on the disk.
    unfoldable pub run_command : Option (Flags W) → Dict Str Str → Exit
    unfolding import_seed_fixture start_client start_pipeline after_setup stop new_client
    run_command none cache = stop (new_client m.unreadable cache) bad_flags
    run_command (some flags) cache = elim m.root [
      | none ↦ stop (new_client m.unreadable cache) bad_root
      | some root ↦
          let (cache', imported) =
            import_seed_fixture m.json m.sha m.world.put_fails m.unreadable m.fixture cache in
          if not imported
          then stop (new_client m.unreadable cache') fixture_failed
          else if not m.log_opens
          then stop (new_client m.unreadable cache') log_failed
          else after_setup root flags (start_pipeline flags)
              (start_client flags m.unreadable cache')
    ]
