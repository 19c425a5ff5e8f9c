-- ===== src/Shop/Listing.antt =====
-- The two ways of listing orders.
use mock_lab.Common.{ℕ, ◌-◌, ◌≡◌, inr, refl, true, false, List, [], ◌∷◌, length}
use mock_lab.Shop.{Line, OrderRow, StoreOf, App, total_value}
use mock_lab.Shop.Handlers.{count_items, recent_orders, list_orders}

module _ {S : Type 0} (store : StoreOf S) (s : S) where
  -- A row with the count of the lines that the store has for it.
  pub record IsCounted (row counted : OrderRow) : Type 0 where
    pub lines : List Line
    pub found : store.get_lines row.id s ≡ inr lines
    pub same : counted ≡ (record row { item_count = length lines })

  abbrev pub AreCounted : List OrderRow → List OrderRow → Type 0
  AreCounted [] [] = Unit
  AreCounted (row ∷ rows) (counted ∷ more) = IsCounted row counted × AreCounted rows more
  AreCounted _ _ = ⊥

  -- What the two queries have to do with each other: the same orders in the same order, the second
  -- with the counts.
  pub record Agrees (cutoff : ℕ) : Type 0 where
    pub rows : List OrderRow
    pub counted : List OrderRow
    pub recent : store.list_recent cutoff s ≡ inr rows
    pub with_counts : store.list_recent_with_counts cutoff s ≡ inr counted
    pub counts : AreCounted rows counted

  count_items-AreCounted :
      (app : App) (rows counted : List OrderRow)
      → AreCounted rows counted
      → count_items store app rows s ≡ inr counted
  unfolding count_items
  count_items-AreCounted app [] [] h = refl
  count_items-AreCounted app (row ∷ rows) (counted ∷ more) (p, h) =
      rw (count_items, p.found, count_items-AreCounted app rows more h, p.same) refl
  count_items-AreCounted app [] (counted ∷ more) h = absurd h
  count_items-AreCounted app (row ∷ rows) [] h = absurd h

  -- Where the two queries of the store give the same orders, and the second the counts of their lines
  -- (`Agrees`), the slow listing, which asks for the lines of each order, answers exactly as the fast one, which
  -- has the database count them.
  pub list_orders-slow :
      (app : App)
      → Agrees (app.now 0 - 3_600_000_000_000)
      → list_orders store (record app { slow = true }) s
        ≡ list_orders store (record app { slow = false }) s
  unfolding list_orders recent_orders total_value
  list_orders-slow app h =
      rw
        (
          list_orders,
          recent_orders,
          h.recent,
          h.with_counts,
          count_items-AreCounted (record app { slow = true }) h.rows h.counted h.counts,
        )
        refl
