-- ===== src/Checkout/Tests.antt =====
-- The quote API of labs/prometheus on concrete requests.
use mock_lab.Common.{◌≡◌, refl, List, [], ◌∷◌, ◌++◌, none, some, map}
use mock_lab.Common.Text.{Bytes, codes, text_eq}
use mock_lab.Common.Dict.{lookup}
use mock_lab.Checkout.{
  ConnEvent, get_conn, got_conn, not_called, conn_waits, handler, Metrics, QuoteRequest, catalog,
  price_handler,
}
use mock_lab.Checkout.Recording.{run, sample_of, all_waits, reply_of, run_lem}
use mock_lab.Checkout.Handler.{IsAnswer, handler-IsAnswer}

abbrev sku : Bytes
sku = codes "SSC-4110"

-- The call waits for a connection from 5 to 45.
abbrev events : List ConnEvent
events = get_conn 5 ∷ got_conn 45 ∷ []

waited : conn_waits none events ≡ 40 ∷ []
unfolding conn_waits
waited = refl

known : lookup sku catalog ≡ some 1899
unfolding lookup catalog codes text_eq
known = refl

handler-IsAnswer_example :
    IsAnswer
      (price_handler events sku)
      sku
      (codes "3")
      (handler (price_handler events sku) sku (codes "3"))
handler-IsAnswer_example = handler-IsAnswer (price_handler events sku) sku (codes "3")

-- A quote, a failed call, and a bad SKU.
abbrev requests : List QuoteRequest
requests =
    record {
      method = codes "GET";
      sku = sku;
      qty = codes "3";
      call = price_handler events sku;
      started = 0;
      ended = 50;
    }
    ∷ record {
      method = codes "GET";
      sku = sku;
      qty = codes "4";
      call = not_called events (codes "timeout");
      started = 60;
      ended = 90;
    }
    ∷ record {
      method = codes "GET";
      sku = codes "x";
      qty = codes "4";
      call = not_called events (codes "timeout");
      started = 95;
      ended = 96;
    }
    ∷ []

abbrev empty : Metrics
empty = record { request_duration = []; conn_wait = [] }

run_lem_example :
    let (m', replies) = run requests empty in
    (m'.request_duration ≡ [] ++ map sample_of requests)
    × (m'.conn_wait ≡ [] ++ all_waits requests)
    × (replies ≡ map reply_of requests)
run_lem_example = run_lem requests empty
