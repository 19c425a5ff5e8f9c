-- ===== src/Shop/Postgres/Tests.antt =====
-- PGStore of tutorial/go/store.go over tables in memory.
use mock_lab.Common.{
  ◌-◌, ℕ, suc, ◌≡◌, ◌≢◌, ◌⊎◌, ◌<◌, refl, sym, ap, ◌∙◌, inl, inr, Bool, true, false, ◌&&◌, List, [],
  ◌∷◌, ◌++◌, Option, none, some, map, append_assoc, append-nil, ap₂, length, All, all, ltb, ◌==◌,
  if◌then◌else◌, Bool-cases, Option-cases, arith,
}
use mock_lab.Common.Text.{Bytes, codes, text_eq}
use mock_lab.Common.Hex.{IsBytes, IsBytes-of_all}
use mock_lab.Shop.{Line, App}
use mock_lab.Shop.Handlers.{list_orders}
use mock_lab.Shop.Reading.{IsStore}
use mock_lab.Shop.Postgres.{
  Value, uuid, text, int4, int8, timestamptz, Answer, not_answered, rows, Database, uuid_string,
  create_order, pg_store, sql_create_order, sql_create_order_line, sql_get_order,
  sql_get_order_lines, sql_list_recent, sql_list_recent_count, sql_order_status,
}
use mock_lab.Shop.Postgres.Uuid.{grouped, read_uuid, uuid_string_lem}
use mock_lab.Shop.Postgres.Atomic.{Untouched, Stored, create_order-IsAtomic}
use mock_lab.Shop.Postgres.Refine.{IsUuid, pg_store-IsStore}
use mock_lab.Shop.Postgres.Recent.{list_orders-pg_slow}
use mock_lab.Shop.Postgres.Newest.{Untied}
use mock_lab.Shop.Postgres.Tables.{newer}
use mock_lab.Shop.Postgres.Memory
use mock_lab.Shop.Postgres.Memory.{Entry, memory, memory-IsPostgres}

abbrev u : Bytes
u =
    0x6b ∷ 0xa7 ∷ 0xb8 ∷ 0x10 ∷ 0x9d ∷ 0xad ∷ 0x11 ∷ 0xd1 ∷ 0x80 ∷ 0xb4 ∷ 0 ∷ 0xc0 ∷ 0x4f ∷ 0xd4
    ∷ 0x30 ∷ 200 ∷ []

u_text : uuid_string u ≡ codes "6ba7b810-9dad-11d1-80b4-00c04fd430c8"
unfolding uuid_string mock_lab.Common.Hex.hex_digit codes
u_text = refl

uuid_string_lem_example :
    (uuid_string u ≡ grouped u)
    × (length (uuid_string u) ≡ 36)
    × (read_uuid (uuid_string u) ≡ some u)
uuid_string_lem_example = uuid_string_lem u refl (IsBytes-of_all u refl)

abbrev line : Line
line = record {
  project_id = codes "helm";
  name = codes "Helm";
  quantity = 2;
  unit_price_cents = 1200;
}

create_order-IsAtomic_example :
    let r = create_order memory (uuid_string u) (codes "ada") 2400 (line ∷ []) [] in
    Untouched memory memory-IsPostgres [] r
    ⊎ Stored memory memory-IsPostgres (uuid_string u) (codes "ada") 2400 (line ∷ []) [] r
create_order-IsAtomic_example =
    create_order-IsAtomic memory memory-IsPostgres (uuid_string u) (codes "ada") 2400 (line ∷ []) []

-- A second order under the same ID is refused, and nothing is stored.
refused_twice :
    let s = (create_order memory (uuid_string u) (codes "ada") 2400 (line ∷ []) []).0 in
    (create_order memory (uuid_string u) (codes "bob") 2400 (line ∷ []) s).0 ≡ s
unfolding create_order mock_lab.Shop.Postgres.scan_row mock_lab.Shop.Postgres.scan_time uuid_string
    mock_lab.Common.Hex.hex_digit read_uuid mock_lab.Common.Hex.hex_value codes text_eq
refused_twice = refl

pg_store-IsStore_example : IsStore IsUuid (pg_store memory)
pg_store-IsStore_example = pg_store-IsStore memory memory-IsPostgres

abbrev u_rest : Bytes
u_rest =
    0xa7 ∷ 0xb8 ∷ 0x10 ∷ 0x9d ∷ 0xad ∷ 0x11 ∷ 0xd1 ∷ 0x80 ∷ 0xb4 ∷ 0 ∷ 0xc0 ∷ 0x4f ∷ 0xd4 ∷ 0x30
    ∷ 200 ∷ []

abbrev stored : List Entry
stored =
    (
      record {
        id = u;
        customer = codes "ada";
        status = codes "placed";
        total_cents = 2400;
        created_at = 3_600_000_000_007;
      },
      line ∷ [],
    )
    ∷ (
      record {
        id = 0 ∷ u_rest;
        customer = codes "bob";
        status = codes "placed";
        total_cents = 2400;
        created_at = 3_600_000_000_008;
      },
      line ∷ [],
    )
    ∷ []

abbrev app : App
app = record {
  version = codes "v1";
  slow = false;
  now = λ k. 3_600_000_000_009;
  format_time = λ t. codes "time";
}

stored-Untied : Untied (newer (app.now 0 - 3_600_000_000_000) (Memory.tables stored).orders)
stored-Untied t = ground arith

list_orders-pg_slow_example :
    list_orders (pg_store memory) (record app { slow = true }) stored
    ≡ list_orders (pg_store memory) (record app { slow = false }) stored
list_orders-pg_slow_example =
    list_orders-pg_slow memory memory-IsPostgres stored app (refl, (refl, tt)) stored-Untied
