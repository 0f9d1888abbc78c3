-- ===== src/Broker/Sessions/Delivery.antt =====
-- From the lines that a publisher types to the messages that a subscriber prints, through the
-- sessions of the broker and the box's file.
use so.Prelude.{ℕ, suc, true, List, length}
use so.Prelude.Int.{ℤ, pos}
use so.Prelude.Run.{◌>>=◌}
use so.Prelude.Returns
use so.Prelude.Returns.{Returns, returns}
use so.Broker.{Broker, BrokerCmd}
use so.Broker.Sessions.{Reading, Served, recieve_loop, serve_loop}
use so.Client.{Client}

-- The two loops in a row, on one box: the publisher's, over all that came through its pipe, and the
-- subscriber's. The result is what is written to the subscriber's pipe.
unfoldable pub relay :
    ℤ → ℤ → List ℕ → ℕ → List ℕ → Reading → ℕ → List ℕ → BrokerCmd (List ℕ × Served)
relay publisher subscriber name i buffer r fuel pipe = do
  left_at ← recieve_loop (suc (length pipe)) publisher name (pos i) buffer pipe
  serve_loop fuel true subscriber name r
