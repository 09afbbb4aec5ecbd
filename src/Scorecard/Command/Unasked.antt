-- ===== src/Scorecard/Command/Unasked.antt =====
-- cmd/scorecard/main.go: when a run of the command sends nothing.
use mathlib.Core.Option.{some-injective}
use smart_money_falsifier.Base.{
  ◌≡◌, ◌⊎◌, refl, ap, subst, arith, any, str_eq, List, str_key, ◌∙◌, inl, inr, Bool-cases, true,
  false, Option-cases, some, [], Str, Dict, pos, ltb_ℤ,
}
use smart_money_falsifier.Float.{Float64}
use smart_money_falsifier.Nansen.Client.{Client}
use smart_money_falsifier.Nansen.Client.Quiet.{Quiet, do_call-Quiet, Outcome-cases}
use smart_money_falsifier.Pipeline.Run.{Result}
use smart_money_falsifier.Pipeline.Run.Offline.{run-Quiet}
use smart_money_falsifier.Pipeline.Plan.Free.{plan-free, plan-client}
use smart_money_falsifier.Pipeline.Api.{
  api_call, request_key, Settings, api_requests, seed_call, ohlcv_call, import_seed_fixture,
}
use smart_money_falsifier.Scorecard.Format.{FloatText}
use smart_money_falsifier.Scorecard.Command.{
  Flags, Machine, new_client, seed_credits_remaining, start_client, start_pipeline, confirm,
  make_plan, make_run, publish, execute, ask, stop, dry_run, confirmed_run, after_setup,
  run_command,
}
use smart_money_falsifier.Scorecard.Command.Reports.{seed_key}

-- The flags ask for no spending, or the prompt is not answered by a yes; and online, the file of the seed
-- can be read if it is in the cache.
abbrev pub IsUnasked : {W : Type 0} → Machine W → Flags W → Type 0
IsUnasked m flags =
    (flags.offline ≡ true)
    ⊎ ((any (str_eq (seed_key m)) m.unreadable ≡ false)
        × ((flags.dry_run ≡ true) ⊎ ((flags.yes ≡ false) × (confirm m.answer ≡ false))))

module _ {W : Type 0} ⦃f : Float64 W⦄ ⦃t : FloatText W⦄ (m : Machine W) where
  -- Online, the seed's file can be read if it is in the cache.
  abbrev IsReadable : Client → Type 0
  IsReadable c = (c.offline ≡ true) ⊎ (any (str_eq (seed_key m)) c.unreadable ≡ false)

  make_plan-offline :
      (p : Settings W) (c : Client) → c.offline ≡ true → (make_plan m p c).0.sent ≡ c.sent
  unfolding make_plan
  make_plan-offline p c off =
      let call = seed_call m.json m.sha m.decoders p.date_from p.date_to in
      let quiet =
        do_call-Quiet m.world call {n = c.sent} {b = c.balance} {m = c.cache} c
          (off, refl, refl, refl) in
      elim (plan-client m.order (api_requests m.json m.sha m.decoders p.date_from p.date_to)
        (ohlcv_call m.json m.sha m.decoders p.date_from p.date_to) m.world m.parse_time call
        p.max_wallets c) [ inl e ↦ ap (λ x. x.sent) e | inr e ↦ ap (λ x. x.sent) e ∙ quiet.1 ]

  make_plan-readable :
      (p : Settings W) (c : Client)
      → any (str_eq (seed_key m)) c.unreadable ≡ false
      → (make_plan m p c).0.sent ≡ c.sent
  unfolding make_plan seed_call api_call request_key
  make_plan-readable p c read =
      (plan-free m.order (api_requests m.json m.sha m.decoders p.date_from p.date_to)
        (ohlcv_call m.json m.sha m.decoders p.date_from p.date_to) m.world m.parse_time
        (seed_call m.json m.sha m.decoders p.date_from p.date_to) p.max_wallets c
        (λ key q. subst (λ k. any (str_eq k) c.unreadable ≡ false) (some-injective _ key q) read)).1

  make_plan-sent : (p : Settings W) (c : Client) → IsReadable c → (make_plan m p c).0.sent ≡ c.sent
  make_plan-sent p c (inl off) = make_plan-offline p c off
  make_plan-sent p c (inr read) = make_plan-readable p c read

  publish-client :
      (root printed : Str) (c : Client) (r : Result W) → (publish m root printed c r).client ≡ c
  unfolding publish
  publish-client root printed c r = elim (Bool-cases m.out_dir_fails) [
    | inl a ↦ rw (publish, a) refl
    | inr a ↦ elim (Bool-cases m.report_fails) [
      | inl b ↦ rw (publish, a, b) refl
      | inr b ↦ rw (publish, a, b) refl
    ]
  ]

  execute-sent :
      (root printed : Str) (p : Settings W) (c : Client)
      → c.offline ≡ true
      → (execute m root printed p c).client.sent ≡ c.sent
  unfolding execute
  execute-sent root printed p c off =
      let q : Quiet c.sent c.balance c.cache (make_run m p c).0 =
        unfold make_run in
        run-Quiet m.world (api_requests m.json m.sha m.decoders p.date_from p.date_to)
          (ohlcv_call m.json m.sha m.decoders p.date_from p.date_to) c.sent c.balance c.cache
          m.order m.parse_time (seed_call m.json m.sha m.decoders p.date_from p.date_to) m.cancelled
          p.max_wallets p.min_signal_usd c (off, refl, refl, refl) in
      elim (Outcome-cases (make_run m p c).1) [
        | inl (e, o) ↦ rw (execute, o) q.1
        | inr (hit, r, o) ↦ rw (execute, o, publish-client root printed (make_run m p c).0 r) q.1
      ]

  dry_run-sent : (p : Settings W) (c : Client) → IsReadable c → (dry_run m p c).client.sent ≡ c.sent
  unfolding dry_run stop
  dry_run-sent p c read = elim (Option-cases (make_plan m p c).1) [
    | inl o ↦ rw (dry_run, o) (make_plan-sent p c read)
    | inr (items, o) ↦ rw (dry_run, o) (make_plan-sent p c read)
  ]

  confirmed_run-sent :
      (root : Str) (p : Settings W) (c : Client)
      → IsReadable c
      → confirm m.answer ≡ false
      → (confirmed_run m root p c).client.sent ≡ c.sent
  unfolding confirmed_run stop ask
  confirmed_run-sent root p c read refusal = elim (Option-cases (make_plan m p c).1) [
    | inl o ↦ rw (confirmed_run, o) (make_plan-sent p c read)
    | inr (items, o) ↦ rw (confirmed_run, o, ask, refusal) (make_plan-sent p c read)
  ]

  start_client-sent :
      (flags : Flags W) (unread : List Str) (cache : Dict Str Str)
      → ((start_client flags unread cache).sent ≡ 0)
        × ((start_client flags unread cache).offline ≡ flags.offline)
        × ((start_client flags unread cache).unreadable ≡ unread)
  unfolding start_client seed_credits_remaining new_client
  start_client-sent flags unread cache = elim (Bool-cases (ltb_ℤ flags.credits_remaining (pos 0))) [
    | inl e ↦ rw e (refl, refl, refl)
    | inr e ↦ rw e (refl, refl, refl)
  ]

  setup-sent :
      (root : Str) (flags : Flags W) (p : Settings W) (c : Client)
      → c.offline ≡ flags.offline
      → c.unreadable ≡ m.unreadable
      → IsUnasked m flags
      → (after_setup m root flags p c).client.sent ≡ c.sent
  unfolding after_setup
  setup-sent root flags p c off same (inl offline) = elim (Bool-cases flags.dry_run) [
    | inl dry ↦ rw (after_setup, dry) (dry_run-sent p c (inl (off ∙ offline)))
    | inr live ↦ rw (after_setup, live, offline) (execute-sent root [] p c (off ∙ offline))
  ]
  setup-sent root flags p c off same (inr (read, h)) =
      let readable : IsReadable c = inr (ap (λ l. any (str_eq (seed_key m)) l) same ∙ read) in
      elim (Bool-cases flags.dry_run) [
        | inl dry ↦ rw (after_setup, dry) (dry_run-sent p c readable)
        | inr live ↦ elim h [
          | inl dry ↦ absurd (ground (arith, live, dry))
          | inr (unsure, refusal) ↦ elim (Bool-cases flags.offline) [
            | inl offline ↦
                rw (after_setup, live, offline) (execute-sent root [] p c (off ∙ offline))
            | inr online ↦
                rw (after_setup, live, online, unsure)
                  (confirmed_run-sent root p c readable refusal)
          ]
        ]
      ]

  -- The command sends no HTTP request where it is offline; nor where it is a dry run, or is not told to go
  -- ahead by the flag or at the prompt, unless the file of the seed's response is in the cache and
  -- cannot be read. This holds whatever else the cache holds, whatever the flags for credits say, and
  -- however the setup, the plan, the run or the writing of the report end.
  pub run_command-unasked :
      (flags : Flags W) (cache : Dict Str Str)
      → IsUnasked m flags
      → (run_command m (some flags) cache).client.sent ≡ 0
  unfolding run_command stop new_client
  run_command-unasked flags cache h = elim (Option-cases m.root) [
    | inl r ↦ rw (run_command, r) refl
    | inr (root, r) ↦
        let x = import_seed_fixture m.json m.sha m.world.put_fails m.unreadable m.fixture cache in
        elim (Bool-cases x.1) [
          | inr i ↦ rw (run_command, r, i) refl
          | inl i ↦ elim (Bool-cases m.log_opens) [
            | inr l ↦ rw (run_command, r, i, l) refl
            | inl l ↦
                let c = start_client-sent flags m.unreadable x.0 in
                rw (run_command, r, i, l)
                  (setup-sent root flags (start_pipeline flags)
                      (start_client flags m.unreadable x.0) c.1 c.2 h
                    ∙ c.0)
          ]
        ]
  ]
