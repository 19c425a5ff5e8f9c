-- ===== src/Shop/Postgres/Memory.antt =====
-- Tables in memory as a Postgres database, for runs of tutorial/go/store.go.
use mock_lab.Common.{
  ℕ, ◌≡◌, refl, sym, ap, ◌∙◌, inl, inr, Bool, true, false, List, [], ◌∷◌, ◌++◌, Option, none, some,
  map, append_assoc, append-nil, ap₂, if◌then◌else◌, Bool-cases, arith,
}
use mathlib.Core.List.{map-append}
use mock_lab.Common.Text.{Bytes, codes, text_eq, text_eq_iff}
use mock_lab.Shop.{Line}
use mock_lab.Shop.Postgres.{
  Value, text, int4, timestamptz, Answer, not_answered, rows, Database, sql_get_order,
  sql_get_order_lines, sql_list_recent, sql_list_recent_count, sql_order_status,
}
use mock_lab.Shop.Postgres.Uuid.{read_uuid, uuid_string_lem}
use mock_lab.Shop.Postgres.Arrange.{recent, recent-IsRecent}
use mock_lab.Shop.Postgres.Tables.{
  OrderRecord, ItemRecord, Tables, IsPostgres, orders_of, items_of, orders_of-append,
  items_of-append, order_columns, counted_columns, item_columns, status_columns, with_order,
  with_item,
}

-- The orders with their items, the last first.
abbrev pub Entry : Type 0
Entry = OrderRecord × List Line

abbrev pub item : OrderRecord → Line → ItemRecord
item r l = record {
  order_id = r.id;
  project_id = l.project_id;
  name = l.name;
  quantity = l.quantity;
  unit_price_cents = l.unit_price_cents;
}

abbrev pub tables : List Entry → Tables
tables [] = record { orders = []; items = [] }
tables (e ∷ s) = record {
  orders = (tables s).orders ++ e.0 ∷ [];
  items = (tables s).items ++ map (item e.0) e.1;
}

abbrev pub refused : {A : Type 0} → A → A × Answer
refused t = (t, not_answered (codes "refused"))

abbrev pub is_nil : List OrderRecord → Bool
is_nil [] = true
is_nil (_ ∷ _) = false

-- Every order is created at 7.
abbrev pub insert_order : Option Bytes → Bytes → ℕ → List Entry → List Entry × Answer
insert_order none customer total t = refused t
insert_order (some u) customer total t =
    if is_nil (orders_of u (tables t).orders)
    then (
      (
        record {
          id = u;
          customer = customer;
          status = codes "placed";
          total_cents = total;
          created_at = 7;
        },
        [],
      )
          ∷ t,
      rows ((timestamptz 7 ∷ []) ∷ []) none,
    )
    else refused t

-- A line is taken for the last order only.
abbrev pub insert_item : Option Bytes → Line → List Entry → List Entry × Option Bytes
insert_item (some u) l (e ∷ t) =
    if text_eq e.0.id u then ((e.0, e.1 ++ l ∷ []) ∷ t, none) else (e ∷ t, some (codes "refused"))
insert_item _ l t = (t, some (codes "refused"))

abbrev pub select : {A : Type 0} → (A → List Value) → (Bytes → List A) → Option Bytes → Answer
select columns of none = not_answered (codes "no UUID")
select columns of (some u) = rows (map columns (of u)) none

abbrev pub tx_query : Bytes → List Value → List Entry → List Entry × Answer
tx_query sql (text id ∷ text customer ∷ int4 total ∷ []) t =
    insert_order (read_uuid id) customer total t
tx_query sql _ t = refused t

abbrev pub tx_exec : Bytes → List Value → List Entry → List Entry × Option Bytes
tx_exec sql (text id ∷ text project_id ∷ text name ∷ int4 q ∷ int4 unt ∷ []) t =
    insert_item (read_uuid id)
      (record { project_id = project_id; name = name; quantity = q; unit_price_cents = unt }) t
tx_exec sql _ t = (t, some (codes "refused"))

unfoldable pub query : Bytes → List Value → List Entry → Answer
query sql (text id ∷ []) s =
    if text_eq sql sql_get_order
    then select order_columns (λ u. orders_of u (tables s).orders) (read_uuid id)
    else if text_eq sql sql_order_status
    then select status_columns (λ u. orders_of u (tables s).orders) (read_uuid id)
    else select item_columns (λ u. items_of u (tables s).items) (read_uuid id)
query sql (timestamptz cutoff ∷ []) s =
    if text_eq sql sql_list_recent
    then rows (map order_columns (recent cutoff (tables s).orders)) none
    else rows (map (counted_columns (tables s).items) (recent cutoff (tables s).orders)) none
query sql _ s = not_answered (codes "no statement")

abbrev pub memory : Database (List Entry) (List Entry)
memory = record {
  begin = λ s. inr s;
  tx_query = tx_query;
  tx_exec = tx_exec;
  commit = λ t s. (t, none);
  rollback = λ t s. s;
  query = query;
  scan_error = λ r. codes "cannot scan";
}

is_nil_sound : (rs : List OrderRecord) → is_nil rs ≡ true → rs ≡ []
is_nil_sound [] h = refl
is_nil_sound (r ∷ rs) h = cc

inserts_order :
    (o : Option Bytes) (customer : Bytes) (total c : ℕ) (more : List (List Value))
    (t t' : List Entry)
    → insert_order o customer total t ≡ (t', rows ((timestamptz c ∷ []) ∷ more) none)
    → (u : Bytes) × (o ≡ some u)
      × (orders_of u (tables t).orders ≡ [])
      × (tables t'
          ≡ with_order
              (record {
                id = u;
                customer = customer;
                status = codes "placed";
                total_cents = total;
                created_at = c;
              })
              (tables t))
inserts_order none customer total c more t t' h = absurd (cc)
inserts_order (some u) customer total c more t t' h =
    elim (Bool-cases (is_nil (orders_of u (tables t).orders))) [
      | inr taken ↦ absurd (ground (arith, h, taken))
      | inl fresh ↦
          let made : OrderRecord = record {
            id = u;
            customer = customer;
            status = codes "placed";
            total_cents = total;
            created_at = 7;
          } in
          let e : ◌≡◌ {A = List Entry × Answer}
              ((made, []) ∷ t, rows ((timestamptz 7 ∷ []) ∷ []) none)
              (t', rows ((timestamptz c ∷ []) ∷ more) none) =
            ground (arith, h, fresh) in
          let same : (made, []) ∷ t ≡ t' = cc e in
          let time : 7 ≡ c = cc e in
          (
            u,
            refl,
            is_nil_sound (orders_of u (tables t).orders) fresh,
            ap tables (sym same)
                ∙ ap (λ i. record { orders = (tables t).orders ++ made ∷ []; items = i })
                    (append-nil (tables t).items)
                ∙ ap (λ d. with_order (record made { created_at = d }) (tables t)) time,
          )
    ]

inserts_item :
    (o : Option Bytes) (l : Line) (t t' : List Entry)
    → insert_item o l t ≡ (t', none)
    → (u : Bytes) × (o ≡ some u)
      × (tables t'
          ≡ with_item
              (record {
                order_id = u;
                project_id = l.project_id;
                name = l.name;
                quantity = l.quantity;
                unit_price_cents = l.unit_price_cents;
              })
              (tables t))
inserts_item none l t t' h = absurd (cc)
inserts_item (some u) l [] t' h = absurd (cc)
inserts_item (some u) l ((r, ls) ∷ t) t' h = elim (Bool-cases (text_eq r.id u)) [
  | inr other ↦ absurd (ground (arith, h, other))
  | inl last ↦
      let key : r.id ≡ u = (text_eq_iff r.id u).0 last in
      let e : ◌≡◌ {A = List Entry × Option Bytes} ((r, ls ++ l ∷ []) ∷ t, none) (t', none) =
        ground (arith, h, last) in
      let same : (r, ls ++ l ∷ []) ∷ t ≡ t' = cc e in
      (
        u,
        refl,
        ap tables (sym same)
            ∙ ap (λ i. record { orders = (tables t).orders ++ r ∷ []; items = i })
                (ap (λ m. (tables t).items ++ m) (map-append (item r) ls (l ∷ []))
                  ∙ sym (append_assoc (tables t).items (map (item r) ls) (item r l ∷ [])))
            ∙ ap (λ k. with_item (record (item r l) { order_id = k }) (tables ((r, ls) ∷ t))) key,
      )
]

other_items :
    (u : Bytes) (r : OrderRecord) (ls : List Line)
    → text_eq r.id u ≡ false
    → items_of u (map (item r) ls) ≡ []
other_items u r [] h = refl
other_items u r (l ∷ ls) h = rw h (other_items u r ls h)

append-eq-nil : {A : Type 0} (xs ys : List A) → xs ++ ys ≡ [] → (xs ≡ []) × (ys ≡ [])
append-eq-nil [] ys h = (refl, h)
append-eq-nil (x ∷ xs) ys h = absurd (cc)

has_order :
    (t : List Entry) (u : Bytes)
    → orders_of u (tables t).orders ≡ []
    → items_of u (tables t).items ≡ []
has_order [] u h = refl
has_order ((r, ls) ∷ t) u h =
    let (before, this) =
      append-eq-nil (orders_of u (tables t).orders) (orders_of u (r ∷ []))
        (sym (orders_of-append u (tables t).orders (r ∷ [])) ∙ h) in
    elim (Bool-cases (text_eq r.id u)) [
      | inl same ↦ absurd (ground (arith, this, same))
      | inr other ↦
          items_of-append u (tables t).items (map (item r) ls)
          ∙ ap₂ ◌++◌ (has_order t u before) (other_items u r ls other)
    ]

pub memory-IsPostgres : IsPostgres memory tables tables read_uuid
unfolding query sql_get_order sql_order_status sql_get_order_lines sql_list_recent
    sql_list_recent_count codes text_eq
memory-IsPostgres = record {
  reads_uuid = λ u size bounds. (uuid_string_lem u size bounds).2;
  begins = λ s t e. let same : t ≡ s = cc e in ap tables same;
  inserts_order =
      λ id customer total c more t t' h. inserts_order (read_uuid id) customer total c more t t' h;
  inserts_item = λ id project_id name quantity price t t' h.
      inserts_item (read_uuid id)
        (record {
          project_id = project_id;
          name = name;
          quantity = quantity;
          unit_price_cents = price;
        })
        t t' h;
  has_order = has_order;
  commits = λ s s' t e. let same : s' ≡ t = cc e in ap tables same;
  commit_fails = λ s s' t err e. absurd (cc e);
  rolls_back = λ s t. refl;
  selects_order = λ id u s e. rw e refl;
  selects_status = λ id u s e. rw e refl;
  selects_items = λ id u s e. rw e refl;
  selects_recent =
      λ cutoff s. (recent cutoff (tables s).orders, recent-IsRecent cutoff (tables s).orders, refl);
  selects_recent_count =
      λ cutoff s. (recent cutoff (tables s).orders, recent-IsRecent cutoff (tables s).orders, refl);
}
