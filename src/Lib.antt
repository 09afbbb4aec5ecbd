-- ===== src/Lib.antt =====
-- The scoring, the API client, the pipeline and the command of the smart-money falsifier.
--
-- The program takes one list of trades (the seed), asks an API about the wallets and tokens in it,
-- and gives each token a verdict: whether its buyers are independent of each other, by who funded
-- them first, and whether exchanges receive what they buy. The command prints the verdicts as a
-- table and writes them as an HTML page.
--
-- Base holds the lists, texts, maps, sorting and integers that the parts share, and Float the
-- interface of float64: an operation for each that the program uses, and the laws of its comparisons
-- as a record that a theorem takes where it needs them. Float/Whole is a carrier that meets the
-- laws, for the tests, and Float/Descending the order of a slice that is sorted by a float64 and
-- then by a text. A Go map is a list of entries without a second entry for a key; where the program
-- ranges over one, the order is a parameter, MapOrder, which permutes the entries as it likes.
--
-- Score (internal/score):
--   Verdict is Distributing and DecideVerdict of verdict.go, and Verdict/Table the table of
--   docs/DESIGN.md as a relation.
--   UnionFind is the closures find and union inside Cluster of cluster.go. find takes the number of
--   slots as fuel; Forest and Union show that a chain of parents is always shorter, and Joined that
--   the structure stands for the components of the pairs that were united.
--   Cluster is Cluster of cluster.go, step by step. Links says when two buyers are linked with no
--   reference to the code; Owners, Parents, Groups and Counts lead from the loops to Result, which
--   has the counts N, M and Covered, and Members, which has the clusters themselves. Ends is about
--   the fuel of find on the parents that Cluster builds.
--   Census is ComputeFunderCensus of cluster.go, Census/Counts its map of counts and Census/Listed
--   the list that it gives. Move is EntryPrice and ComputeMove of move.go, with the peak in
--   Move/Peak. Wallets is ScoreWallets of score.go, with its bounds in Wallets/Bounds.
--
-- Nansen (internal/nansen):
--   Endpoints is the paths and credit costs of types.go, and Wire the bodies of the requests with
--   the JSON that their tags give them. Cache is cache.go: marshalCanonical and the key, with
--   Cache/Canonical on the order of an object's fields, and Has, Get and Put on files, with
--   Cache/Disk the store of bodies that they stand for. Headers is what client.go reads from a
--   response's headers and how long it waits. Budget is reserveCredits and its companions of
--   client.go, each one step under the mutex, and Budget/Guard every interleaving of such steps.
--   Client is PlanCall, Do and doHTTP of client.go, on a state with the balance, the settings, the
--   log, the cache with the files in it that cannot be read, and two counters, and on a World that answers. The loop of doHTTP is recursion on
--   the rounds that are left, so that no fuel is chosen. Attempts is what the loop does, Steps and
--   Ways the branches of Do, Calls what a call sends, stores and pays, Quiet and Served when a call
--   sends nothing and when it ends with the server's answer, and Unread a call whose responses break
--   off.
--   CallLog is calllog.go, on the text of the log's file, and CallLog/Lines that text read line by
--   line.
--   RateLimit is the token buckets of ratelimit.go; a Wait takes the times at which its rounds run.
--
-- Pipeline (internal/pipeline):
--   Universe is deriveUniverse, limitUniverse, SeedMaxTimestamp and seedBuys of pipeline.go; Ranking
--   is the ranking of limitUniverse as an order, Kept what its loop leaves, and Limit and Top which
--   wallets those are. Workers is runPool and the calls of Run: the steps of the workers happen one
--   at a time, in an order that the MapOrder picks. Api is the requests of Run and Plan, the keys
--   that they are cached under (Api/Keys, from the shapes of their texts in Api/Kinds and Api/Cuts),
--   the settings of New, and ImportSeedFixture of seed_import.go. Assemble is the second half of
--   Run, from the answers to the reports, and Assemble/Judged the verdict of a token against the
--   links between its buyers, with Assemble/Reported the list of the reports. Floor is
--   decideWithFloor and verdictSeverity. Run is attachMoves and Run itself. Plan is Plan of plan.go.
--
-- Scorecard (cmd/scorecard):
--   Format is what the printing uses of package fmt; the digits of a float64 are an interface,
--   FloatText, and those of an integer are written out on fuel, which Format/Digits shows is enough.
--   Labels is the words, colours and classes of table.go and report.go. Headline is censusHeadline
--   of table.go, and Headline/Shared whom it names. Table is printPlan and printTable of table.go,
--   to the byte.
--   Report is the data that writeReport of report.go makes, and Report/Rows what a row claims. Page
--   is the template from `<body>` on, as html/template executes it; Html is the escaping of what it
--   prints, and Html/Safe and Page/Masked what a printed value can do to the page.
--   Command is run of main.go: the flags, the fixture, the plan, the prompt, the pipeline, the table
--   and the report, in that order, on a Machine that has the answers of the operating system and of
--   the user.
--
-- Integers are Go's ints, which stay far from 2^63 here; where a product may wrap, the wrap is
-- written out. Parameters, since they are not code of the repository or only call the standard
-- library, are: the server, its timers and the context; decoding a response; sha256 and the JSON of
-- a string and a number; the digits of a float64; parsing the flags, the times and the template; and
-- the template's text before `<body>`, which prints nothing.
-- Not modelled are the response types that only the decoder fills.
pub mod Base
pub mod Float
pub mod Score
pub mod Nansen
pub mod Pipeline
pub mod Scorecard
