-- ===== src/Pipeline/Api/Keys.antt =====
-- internal/pipeline and internal/nansen/cache.go: the cache keys of the requests of a run.
use smart_money_falsifier.Base.{
  ℕ, zero, suc, ◌≡◌, ◌≢◌, refl, ap, sym, ◌∙◌, List, [], ◌∷◌, ◌++◌, map, Str, str, str_eq, str_lt,
  str_key, join, lookup, sort_by, arith,
}
use smart_money_falsifier.Nansen.Cache.{
  array, JsonText, object_text, marshal_canonical, marshal_items, marshal_fields, cache_key,
}
use smart_money_falsifier.Nansen.Wire.{
  texts, pagination_json, date_range_json, dex_trades_json, pnl_summary_json, related_wallets_json,
  flow_intelligence_json, token_information_json, token_ohlcv_json,
}
use smart_money_falsifier.Pipeline.Api.{
  Request, seed, pnl, related, flow, info, ohlcv, seed_request, move_request, move_timeframe,
  move_date_from, move_date_to, path_of, body_of, request_key,
}
use smart_money_falsifier.Pipeline.Api.Kinds.{
  kind, first, second, build, build-parts, kind_of_path, kind-path, path-braceless, cut_path,
}
use smart_money_falsifier.Pipeline.Api.Cuts.{
  IsAscii, Cuts, Delimits, Cuts-same, Cuts-quote, quote-injective, member, AllCut, values_of,
  join-cut,
}

-- What a request asks about is ASCII.
abbrev pub AsksAscii : Request → Type 0
AsksAscii seed = Unit
AsksAscii (pnl a) = IsAscii a
AsksAscii (related a b) = IsAscii a × IsAscii b
AsksAscii (flow a b) = IsAscii a × IsAscii b
AsksAscii (info a b) = IsAscii a × IsAscii b
AsksAscii (ohlcv a b) = IsAscii a × IsAscii b

parts-IsAscii : (r : Request) → AsksAscii r → IsAscii (first r) × IsAscii (second r)
unfolding first second
parts-IsAscii seed p = (tt, tt)
parts-IsAscii (pnl a) p = (p, tt)
parts-IsAscii (related a b) p = p
parts-IsAscii (flow a b) p = p
parts-IsAscii (info a b) p = p
parts-IsAscii (ohlcv a b) p = p

module _ (j : JsonText) (from to : Str) where
  date_text : Str → Str → Str
  date_text a b = marshal_canonical j (date_range_json (record { from = a; to = b }))

  -- The members of the canonical body of a request, in order.
  rows : Request → List (Str × Str)
  rows seed =
      (str "chains", marshal_canonical j (array (texts seed_request.chains)))
      ∷ (str "pagination", marshal_canonical j (pagination_json seed_request.pagination))
      ∷ []
  rows (pnl a) =
      (str "address", j.quote a)
      ∷ (str "chain", j.quote (str "all"))
      ∷ (str "date", date_text from to)
      ∷ []
  rows (related a b) = (str "address", j.quote a) ∷ (str "chain", j.quote b) ∷ []
  rows (flow a b) =
      (str "chain", j.quote a)
      ∷ (str "timeframe", j.quote (str "1d"))
      ∷ (str "token_address", j.quote b)
      ∷ []
  rows (info a b) =
      (str "chain", j.quote a)
      ∷ (str "timeframe", j.quote (str "1d"))
      ∷ (str "token_address", j.quote b)
      ∷ []
  rows (ohlcv a b) =
      (str "chain", j.quote a)
      ∷ (str "date", date_text move_date_from move_date_to)
      ∷ (str "timeframe", j.quote move_timeframe)
      ∷ (str "token_address", j.quote b)
      ∷ []

  object_of : List (Str × Str) → Str
  object_of rs = b'{' ∷ join (b',' ∷ []) (map (member j) rs) ++ b'}' ∷ []

  body-rows : (r : Request) → marshal_canonical j (body_of from to r) ≡ object_of (rows r)
  unfolding marshal_canonical marshal_items marshal_fields object_text body_of rows object_of
      date_text dex_trades_json pnl_summary_json related_wallets_json flow_intelligence_json
      token_information_json token_ohlcv_json seed_request move_request date_range_json
      pagination_json sort_by str_lt str lookup str_eq
  body-rows seed = refl
  body-rows (pnl a) = refl
  body-rows (related a b) = refl
  body-rows (flow a b) = refl
  body-rows (info a b) = refl
  body-rows (ohlcv a b) = refl

  module _ (delimits : Delimits j) where
    quotes : (s t : Str) → IsAscii s → IsAscii t → Cuts (j.quote s) (j.quote t)
    quotes = Cuts-quote j delimits

    rows-AllCut :
        (k : ℕ) (a b c d : Str)
        → IsAscii a × IsAscii b
        → IsAscii c × IsAscii d
        → AllCut (rows (build k a b)) (rows (build k c d))
    unfolding rows build
    rows-AllCut zero a b c d p q = (refl, Cuts-same _, (refl, Cuts-same _, tt))
    rows-AllCut (suc zero) a b c d p q =
        (refl, quotes a c p.0 q.0, (refl, Cuts-same _, (refl, Cuts-same _, tt)))
    rows-AllCut (suc (suc zero)) a b c d p q =
        (refl, quotes a c p.0 q.0, (refl, quotes b d p.1 q.1, tt))
    rows-AllCut (suc (suc (suc zero))) a b c d p q =
        (refl, quotes a c p.0 q.0, (refl, Cuts-same _, (refl, quotes b d p.1 q.1, tt)))
    rows-AllCut (suc (suc (suc (suc zero)))) a b c d p q =
        (refl, quotes a c p.0 q.0, (refl, Cuts-same _, (refl, quotes b d p.1 q.1, tt)))
    rows-AllCut (suc (suc (suc (suc (suc k))))) a b c d p q = (
      refl,
      quotes a c p.0 q.0,
      (refl, Cuts-same _, (refl, Cuts-same _, (refl, quotes b d p.1 q.1, tt))),
    )

    same_one :
        (g : Str → Request) (a c : Str) → IsAscii a → IsAscii c → j.quote a ≡ j.quote c → g a ≡ g c
    same_one g a c p q h = ap g (quote-injective j delimits a c p q h)

    same_two :
        (g : Str → Str → Request) (a b c d : Str)
        → IsAscii a × IsAscii b
        → IsAscii c × IsAscii d
        → j.quote a ≡ j.quote c
        → j.quote b ≡ j.quote d
        → g a b ≡ g c d
    same_two g a b c d p q h k =
        rw (quote-injective j delimits a c p.0 q.0 h, quote-injective j delimits b d p.1 q.1 k) refl

    same_build :
        (k : ℕ) (a b c d : Str)
        → IsAscii a × IsAscii b
        → IsAscii c × IsAscii d
        → values_of (rows (build k a b)) ≡ values_of (rows (build k c d))
        → build k a b ≡ build k c d
    unfolding rows build
    same_build zero a b c d p q h = refl
    same_build (suc zero) a b c d p q h = same_one pnl a c p.0 q.0 (ground (arith, h))
    same_build (suc (suc zero)) a b c d p q h =
        same_two related a b c d p q (ground (arith, h)) (ground (arith, h))
    same_build (suc (suc (suc zero))) a b c d p q h =
        same_two flow a b c d p q (ground (arith, h)) (ground (arith, h))
    same_build (suc (suc (suc (suc zero)))) a b c d p q h =
        same_two info a b c d p q (ground (arith, h)) (ground (arith, h))
    same_build (suc (suc (suc (suc (suc k))))) a b c d p q h =
        same_two ohlcv a b c d p q (ground (arith, h)) (ground (arith, h))

    same_kind :
        (k : ℕ) (a b c d : Str)
        → IsAscii a × IsAscii b
        → IsAscii c × IsAscii d
        → object_of (rows (build k a b)) ≡ object_of (rows (build k c d))
        → build k a b ≡ build k c d
    unfolding object_of
    same_kind k a b c d p q h = same_build k a b c d p q (
        join-cut j (rows (build k a b)) (rows (build k c d)) (b'}' ∷ []) (b'}' ∷ [])
          (rows-AllCut k a b c d p q) (ground (arith, h)))

    request_key-injective :
        (sha : Str → Str) (r r' : Request)
        → ((s t : Str) → sha s ≡ sha t → s ≡ t)
        → AsksAscii r
        → AsksAscii r'
        → request_key j sha from to r ≡ request_key j sha from to r'
        → r ≡ r'
    unfolding request_key cache_key object_of
    request_key-injective sha r r' collision_free p q h =
        let texts_same =
          ap (λ x. path_of r ++ x) (sym (body-rows r))
          ∙ collision_free _ _ h
          ∙ ap (λ x. path_of r' ++ x) (body-rows r') in
        let (paths, bodies) =
          cut_path (path_of r) (path_of r') _ _ (path-braceless r) (path-braceless r') texts_same in
        let kinds : kind r ≡ kind r' = sym (kind-path r) ∙ ap kind_of_path paths ∙ kind-path r' in
        let here = build-parts r in
        let there : build (kind r) (first r') (second r') ≡ r' =
          ap (λ k. build k (first r') (second r')) kinds ∙ build-parts r' in
        let objects : object_of (rows (build (kind r) (first r) (second r)))
            ≡ object_of (rows (build (kind r) (first r') (second r'))) =
          ap (λ x. object_of (rows x)) here
          ∙ ap (λ x. b'{' ∷ x) bodies
          ∙ sym (ap (λ x. object_of (rows x)) there) in
        sym here
        ∙ same_kind (kind r) (first r) (second r) (first r') (second r') (parts-IsAscii r p)
            (parts-IsAscii r' q) objects
        ∙ there

    -- No two requests of a run share a cache entry: where they differ in the endpoint, or in the wallet,
    -- chain or token that they ask about, their keys differ. This takes a hash without collisions,
    -- requests about ASCII texts, and JSON strings of such texts that end at their closing quote and say
    -- what is in them.
    pub request_key-apart :
        (sha : Str → Str) (r r' : Request)
        → ((s t : Str) → sha s ≡ sha t → s ≡ t)
        → AsksAscii r
        → AsksAscii r'
        → r ≢ r'
        → request_key j sha from to r ≢ request_key j sha from to r'
    request_key-apart sha r r' collision_free p q differ h =
        differ (request_key-injective sha r r' collision_free p q h)
