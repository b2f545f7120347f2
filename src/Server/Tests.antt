-- ===== src/Server/Tests.antt =====
-- The theorems of server/ at concrete inputs.
use Prim.Native.String.{String}
use lockfree_matching_engine.Prelude.{
  ◌+◌, ◌≡◌, arith, List, [], ◌∷◌, ◌++◌, ℕ, Bool, refl, true, false, update,
}
use lockfree_matching_engine.Server.DashboardHub.{FillRow, blank_row, new_tape, publish_rows}
use lockfree_matching_engine.Core.OrderBook.{OrderBook, empty_book}
use lockfree_matching_engine.Server.DashboardHub.{DashboardHub, publish_book}
use lockfree_matching_engine.Server.DashboardHub.Levels.{ShowsBook, publish_book_lem}
use lockfree_matching_engine.Server.DashboardHub.Json.{Conversions, snapshot_json}
use lockfree_matching_engine.Server.DashboardHub.Json.Whole.{frame_text, snapshot_json_lem}
use lockfree_matching_engine.Server.DashboardServer.{
  DashboardServer, new_server, start, accept_ends, handle, accepted_one, Run, started, turn, At,
  handshake,
}
use lockfree_matching_engine.Server.DashboardServer.Runs.{IsServer, Run-IsServer}
use lockfree_matching_engine.Server.DashboardServer.Broadcast.{
  Receives, ticks, frames_of, ticks-Receives,
}
use lockfree_matching_engine.Server.DashboardServer.Stop.{
  HangsOn, stopped_then_shaken, stopped_while_shaking,
}

abbrev two_rows : List FillRow
two_rows = record blank_row { seq = 1 } ∷ record blank_row { seq = 2 } ∷ []

abbrev hub : DashboardHub
hub = record {
  book_wanted = true;
  mode = "live";
  product = "BTC-USD";
  bids = [];
  asks = [];
  total_bids = 0;
  total_asks = 0;
  tape = new_tape;
  stats = record {
    match_p50 = 0;
    match_p95 = 0;
    match_p99 = 0;
    order_p50 = 0;
    order_p99 = 0;
    processed = 0;
    fills = 0;
    pool_free = 0;
    pool_capacity = 0;
    dropped = 0;
    clients = 0;
  };
}

abbrev one_bid : OrderBook
one_bid = record empty_book {
  levels =
      update empty_book.levels 100
        (record { head = 1; tail = 1; total_quantity = 5; order_count = 1 });
  best_bid = 100;
  bid_count = 1;
}

publish_book_lem_example :
    ShowsBook one_bid (publish_book true one_bid hub) × (publish_book false one_bid hub ≡ hub)
publish_book_lem_example = publish_book_lem one_bid hub (omega arith)

-- A server that one browser has connected to.
abbrev one_session : DashboardServer
one_session = handle (accepted_one false) (start true new_server).1

one_session-Run : Run one_session
unfolding start
one_session-Run = turn (accepted_one false) _ started refl

Run-IsServer_example : IsServer one_session
Run-IsServer_example = Run-IsServer one_session-Run

abbrev two_ticks : List (String × (ℕ → Bool))
two_ticks = ("a", λ i. true) ∷ ("b", λ i. false) ∷ []

one_session-going : one_session.stopping ≡ false
unfolding handle accept_ends start
one_session-going = refl

one_session-Receives : At (Receives [] (2 + 62)) 0 one_session.made
unfolding handle accept_ends start
one_session-Receives = record { member = refl; given = refl; room = omega arith }

ticks-Receives_example :
    At (Receives ([] ++ frames_of two_ticks) 62) 0 (ticks two_ticks one_session).made
    × ((ticks two_ticks one_session).snapshots ≡ one_session.snapshots + 2)
ticks-Receives_example =
    ticks-Receives two_ticks [] 62 0 one_session one_session-going one_session-Receives

one_session-joinable : one_session.joinable ≡ true
unfolding handle accept_ends start
one_session-joinable = refl

one_session-shakes : At (λ s. s.pending ≡ handshake) 0 one_session.made
unfolding handle accept_ends start
one_session-shakes = refl

stopped_while_shaking_example : HangsOn 0 (stopped_then_shaken (λ i. false) 0 one_session)
stopped_while_shaking_example =
    stopped_while_shaking (λ i. false) 0 one_session one_session-Run one_session-joinable
      one_session-shakes

-- Conversions by which every number is printed in one character.
abbrev one_digit : Conversions
one_digit = record { digits = λ n. "7"; signed = λ z. "7" }

abbrev shown_hub : DashboardHub
shown_hub = record hub { tape = publish_rows two_rows new_tape }

snapshot_json_lem_example :
    snapshot_json one_digit 5 shown_hub ≡ frame_text one_digit 5 shown_hub two_rows
snapshot_json_lem_example =
    snapshot_json_lem one_digit 5 shown_hub two_rows
      (record { digits = λ n. omega arith; signed = λ z. omega arith })
      (record { head = omega arith; latencies = omega arith; counters = omega arith }) refl
