-- ===== src/Scorecard/Command/Reports.antt =====
-- cmd/scorecard/main.go: how an offline run ends.
use smart_money_falsifier.Base.{
  ◌≡◌, ◌⊎◌, refl, sym, ap, subst, ◌∙◌, inl, inr, Bool-cases, any, str_eq, true, false, none, some,
  List, [], Str, str_key, Dict, lookup, lookup-insert, beq_refl, pos, ltb_ℤ,
}
use smart_money_falsifier.Float.{Float64}
use smart_money_falsifier.Nansen.Client.{Client, done, do_call}
use smart_money_falsifier.Nansen.Client.Quiet.{do_call-stored}
use smart_money_falsifier.Pipeline.Universe.{DexTrade}
use smart_money_falsifier.Pipeline.Run.{Result, run, run_from}
use smart_money_falsifier.Pipeline.Api.{
  Settings, holds, seed, api_requests, seed_call, ohlcv_call, api_call, request_key,
  import_seed_fixture,
}
use smart_money_falsifier.Scorecard.Format.{FloatText}
use smart_money_falsifier.Scorecard.Command.{
  Flags, Machine, Exit, new_client, seed_credits_remaining, start_client, start_pipeline, make_run,
  publish, execute, after_setup, run_command,
}

module _ {W : Type 0} (m : Machine W) where
  abbrev pub seed_key : Str
  seed_key = request_key m.json m.sha [] [] seed

  -- The seed's response is in the cache, or the fixture holds it and goes into the cache.
  abbrev pub HasSeed : Dict Str Str → Str → Type 0
  HasSeed cache raw =
      (lookup seed_key cache ≡ some raw)
      ⊎ ((lookup seed_key cache ≡ none)
          × (any (str_eq seed_key) m.unreadable ≡ false)
          × (m.fixture ≡ holds raw)
          × (m.world.put_fails seed_key ≡ false))

  imported :
      (cache : Dict Str Str) (raw : Str)
      → HasSeed cache raw
      → ((import_seed_fixture m.json m.sha m.world.put_fails m.unreadable m.fixture cache).1 ≡ true)
        × (lookup seed_key
              (import_seed_fixture m.json m.sha m.world.put_fails m.unreadable m.fixture cache).0
            ≡ some raw)
  unfolding import_seed_fixture
  imported cache raw (inl h) = rw (import_seed_fixture, h) (refl, h)
  imported cache raw (inr (absent, read, fixture, put)) =
      rw (import_seed_fixture, absent, read, fixture, put)
        (refl, lookup-insert seed_key seed_key raw cache ∙ rw (beq_refl seed_key) refl)

module _ {W : Type 0} ⦃f : Float64 W⦄ ⦃t : FloatText W⦄ (m : Machine W) where
  start_client-cache :
      (flags : Flags W) (unread : List Str) (cache : Dict Str Str)
      → (start_client flags unread cache).cache ≡ cache
  unfolding start_client seed_credits_remaining new_client
  start_client-cache flags unread cache =
      elim (Bool-cases (ltb_ℤ flags.credits_remaining (pos 0))) [
        | inl e ↦ rw e refl
        | inr e ↦ rw e refl
      ]

  make_run-done :
      (p : Settings W) (c : Client) (raw : Str) (trades : List (DexTrade W))
      → lookup (seed_key m) c.cache ≡ some raw
      → m.decoders.trades raw ≡ some trades
      → (r : Result W) × ((make_run m p c).1 ≡ done false r)
  unfolding make_run run
  make_run-done p c raw trades stored decodes =
      let call = seed_call m.json m.sha m.decoders p.date_from p.date_to in
      let got =
        do_call-stored m.world call c (seed_key m) raw trades
          (unfold seed_call api_call request_key in refl) stored
          (unfold seed_call api_call in decodes) in
      (
        (run_from m.world (api_requests m.json m.sha m.decoders p.date_from p.date_to) m.order
            m.parse_time (ohlcv_call m.json m.sha m.decoders p.date_from p.date_to) m.cancelled
            p.max_wallets p.min_signal_usd trades (do_call m.world call c).0).1,
        rw (run, got) refl,
      )

  publish-report :
      (root printed : Str) (c : Client) (r : Result W)
      → m.out_dir_fails ≡ false
      → m.report_fails ≡ false
      → ((publish m root printed c r).error ≡ none)
        × ((html : Str) × ((publish m root printed c r).report ≡ some html))
  unfolding publish
  publish-report root printed c r dir file = rw (publish, dir, file) (refl, (_, refl))

  execute-report :
      (root printed : Str) (p : Settings W) (c : Client) (raw : Str) (trades : List (DexTrade W))
      → lookup (seed_key m) c.cache ≡ some raw
      → m.decoders.trades raw ≡ some trades
      → m.out_dir_fails ≡ false
      → m.report_fails ≡ false
      → ((execute m root printed p c).error ≡ none)
        × ((html : Str) × ((execute m root printed p c).report ≡ some html))
  unfolding execute
  execute-report root printed p c raw trades stored decodes dir file =
      let (r, e) = make_run-done p c raw trades stored decodes in
      rw (execute, e) (publish-report root printed (make_run m p c).0 r dir file)

  after_setup-offline :
      (root : Str) (flags : Flags W) (p : Settings W) (c : Client)
      → flags.dry_run ≡ false
      → flags.offline ≡ true
      → after_setup m root flags p c ≡ execute m root [] p c
  unfolding after_setup
  after_setup-offline root flags p c live offline = rw (after_setup, live, offline) refl

  run_command-set_up :
      (flags : Flags W) (cache : Dict Str Str) (root : Str)
      → m.root ≡ some root
      → (import_seed_fixture m.json m.sha m.world.put_fails m.unreadable m.fixture cache).1 ≡ true
      → m.log_opens ≡ true
      → run_command m (some flags) cache
        ≡ after_setup m root flags (start_pipeline flags) (
            start_client flags m.unreadable
              (import_seed_fixture m.json m.sha m.world.put_fails m.unreadable m.fixture cache).0)
  unfolding run_command
  run_command-set_up flags cache root r i l = rw (run_command, r, i, l) refl

  -- An offline run that has the seed, in the cache or from the fixture, comes to its end with a report
  -- and no error, whatever else is missing from the cache and however its pools are cancelled: what
  -- it cannot fetch is a failure in the result and never stops it. The root, the log and the output
  -- must be there.
  pub offline_run-reports :
      (flags : Flags W) (cache : Dict Str Str) (root raw : Str) (trades : List (DexTrade W))
      → m.root ≡ some root
      → m.log_opens ≡ true
      → m.out_dir_fails ≡ false
      → m.report_fails ≡ false
      → flags.dry_run ≡ false
      → flags.offline ≡ true
      → HasSeed m cache raw
      → m.decoders.trades raw ≡ some trades
      → ((run_command m (some flags) cache).error ≡ none)
        × ((html : Str) × ((run_command m (some flags) cache).report ≡ some html))
  offline_run-reports flags cache root raw trades r l dir file live offline has decodes =
      let x = import_seed_fixture m.json m.sha m.world.put_fails m.unreadable m.fixture cache in
      let (i, stored) = imported m cache raw has in
      let c = start_client flags m.unreadable x.0 in
      let way =
        run_command-set_up flags cache root r i l
        ∙ after_setup-offline root flags (start_pipeline flags) c live offline in
      subst (λ (x : Exit). (x.error ≡ none) × ((html : Str) × (x.report ≡ some html))) (sym way)
        (execute-report root [] (start_pipeline flags) c raw trades
          (ap (lookup (seed_key m)) (start_client-cache flags m.unreadable x.0) ∙ stored) decodes
          dir file)
