-- ===== src/Shelf/Prepared.antt =====
-- The prepared statement of `getProduct` in labs/sqlcommenter/main.go: which statements keep the
-- connections that the server remembers consistent with those that ran.
use mock_lab.Common.{
  ℕ, ◌+◌, ◌≡◌, refl, sym, ap, ◌∙◌, subst, inl, inr, Bool, true, false, List, [], ◌∷◌, ◌++◌, Option,
  none, some, All, append_assoc, append-nil, arith, Option-cases, Bool-cases, ◌==◌, if◌then◌else◌,
}
use mock_lab.Common.Text.{Bytes}
use mock_lab.Shelf.{DbError, Arg, Stmt, sql, prepare, run, Log, Db}
use mock_lab.Shelf.Orders.{has}

-- A preparation on connection `c` that succeeds, by what the statement brings back.
abbrev prepares : ℕ → Option DbError → Stmt → Bool
prepares c (some err) s = false
prepares c none (sql text args) = false
prepares c none (prepare d text) = d == c
prepares c none (run d args) = false

-- Statements of a transaction, which neither prepare nor run the prepared one.
unfoldable pub Plain : Stmt → Type 0
Plain (sql text args) = Unit
Plain (prepare c text) = ⊥
Plain (run c args) = ⊥

module _ (db : Db) where
  -- The preparations on connection `c` that succeed in `log`, which runs behind `before`.
  unfoldable pub preparations : ℕ → Log → Log → ℕ
  preparations c before [] = 0
  preparations c before (s ∷ log) =
      let rest = preparations c (before ++ s ∷ []) log in
      if prepares c (db.exec before s) s then 1 + rest else rest

  -- A connection runs the prepared statement only behind one preparation that succeeded, and prepares
  -- it only where none has.
  pub Ready : Log → Stmt → Type 0
  Ready before (sql text args) = Unit
  Ready before (prepare c text) = preparations c [] before ≡ 0
  Ready before (run c args) = preparations c [] before ≡ 1

  unfoldable pub AllReady : Log → Log → Type 0
  AllReady before [] = Unit
  AllReady before (s ∷ log) = Ready before s × AllReady (before ++ s ∷ []) log

  preparations-append :
      (c : ℕ) (before log more : Log)
      → preparations c before (log ++ more)
        ≡ preparations c before log + preparations c (before ++ log) more
  unfolding preparations
  preparations-append c before [] more =
      ap (λ b. preparations c b more) (sym (append-nil before)) ∙ omega arith
  preparations-append c before (s ∷ log) more =
      let rest =
        preparations-append c (before ++ s ∷ []) log more
        ∙ ap (λ b. preparations c (before ++ s ∷ []) log + preparations c b more)
            (append_assoc before (s ∷ []) log) in
      elim (Bool-cases (prepares c (db.exec before s) s)) [
        | inl made ↦ rw made (omega (arith, rest))
        | inr other ↦ rw other rest
      ]

  AllReady-append :
      (before log more : Log)
      → AllReady before log
      → AllReady (before ++ log) more
      → AllReady before (log ++ more)
  unfolding AllReady
  AllReady-append before [] more h g = subst (λ b. AllReady b more) (append-nil before) g
  AllReady-append before (s ∷ log) more h g = (
    h.0,
    AllReady-append (before ++ s ∷ []) log more h.1
        (subst (λ b. AllReady b more) (sym (append_assoc before (s ∷ []) log)) g),
  )

  abbrev expected : ℕ → List ℕ → ℕ
  expected c prepared = if has c prepared then 1 else 0

  -- The connections that the server remembers are those with a preparation that succeeded.
  pub record IsConsistent (prepared : List ℕ) (log : Log) : Type 0 where
    pub counted : (c : ℕ) → preparations c [] log ≡ expected c prepared
    pub ready : AllReady [] log

  -- One statement more.
  snoc :
      (prepared after : List ℕ) (log : Log) (s : Stmt)
      → IsConsistent prepared log
      → Ready log s
      → ((c : ℕ) → preparations c log (s ∷ []) + expected c prepared ≡ expected c after)
      → IsConsistent after (log ++ s ∷ [])
  unfolding AllReady
  snoc prepared after log s h r step = record {
    counted = λ c. omega (arith, preparations-append c [] log (s ∷ []), h.counted c, step c);
    ready = AllReady-append [] log (s ∷ []) h.ready (r, tt);
  }

  Plain-preparations : (c : ℕ) (before more : Log) → All Plain more → preparations c before more ≡ 0
  unfolding preparations Plain
  Plain-preparations c before [] h = refl
  Plain-preparations c before (sql text args ∷ more) h =
      let rest = Plain-preparations c (before ++ sql text args ∷ []) more h.1 in
      elim (Option-cases (db.exec before (sql text args))) [
        | inl e ↦ rw e rest
        | inr (err, e) ↦ rw e rest
      ]
  Plain-preparations c before (prepare d text ∷ more) h = absurd h.0
  Plain-preparations c before (run d args ∷ more) h = absurd h.0

  Plain-AllReady : (before more : Log) → All Plain more → AllReady before more
  unfolding AllReady Ready Plain
  Plain-AllReady before [] h = tt
  Plain-AllReady before (sql text args ∷ more) h = (tt, Plain-AllReady _ more h.1)
  Plain-AllReady before (prepare d text ∷ more) h = absurd h.0
  Plain-AllReady before (run d args ∷ more) h = absurd h.0

  pub plain :
      (prepared : List ℕ) (log more : Log)
      → IsConsistent prepared log
      → All Plain more
      → IsConsistent prepared (log ++ more)
  plain prepared log more h p = record {
    counted = λ c.
        omega
          (arith, preparations-append c [] log more, h.counted c, Plain-preparations c log more p);
    ready = AllReady-append [] log more h.ready (Plain-AllReady log more p);
  }

  run-preparations :
      (c d : ℕ) (log : Log) (args : List Arg) → preparations c log (run d args ∷ []) ≡ 0
  unfolding preparations
  run-preparations c d log args = elim (Option-cases (db.exec log (run d args))) [
    | inl e ↦ rw e refl
    | inr (err, e) ↦ rw e refl
  ]

  -- The prepared statement runs on a connection that the server remembers.
  pub runs :
      (c : ℕ) (prepared : List ℕ) (log : Log) (args : List Arg)
      → has c prepared ≡ true
      → IsConsistent prepared log
      → IsConsistent prepared (log ++ run c args ∷ [])
  unfolding Ready
  runs c prepared log args known h =
      snoc prepared prepared log (run c args) h (h.counted c ∙ rw known refl)
        (λ d. omega (arith, run-preparations d c log args))

  -- A preparation on a connection that the server does not remember.
  pub fails :
      (c : ℕ) (text : Bytes) (prepared : List ℕ) (log : Log) (err : DbError)
      → has c prepared ≡ false
      → db.exec log (prepare c text) ≡ some err
      → IsConsistent prepared log
      → IsConsistent prepared (log ++ prepare c text ∷ [])
  unfolding Ready preparations
  fails c text prepared log err new e h =
      snoc prepared prepared log (prepare c text) h (h.counted c ∙ rw new refl)
        (λ d. rw e (omega arith))

  pub succeeds :
      (c : ℕ) (text : Bytes) (prepared : List ℕ) (log : Log)
      → has c prepared ≡ false
      → db.exec log (prepare c text) ≡ none
      → IsConsistent prepared log
      → IsConsistent (c ∷ prepared) (log ++ prepare c text ∷ [])
  unfolding Ready preparations
  succeeds c text prepared log new e h =
      snoc prepared (c ∷ prepared) log (prepare c text) h (h.counted c ∙ rw new refl) counts
    where
      counts :
          (d : ℕ)
          → preparations d log (prepare c text ∷ []) + expected d prepared
            ≡ expected d (c ∷ prepared)
      counts d = elim (Bool-cases (c == d)) [
        | inr other ↦ rw (e, other) (omega arith)
        | inl same ↦
            let equal : c ≡ d = ground arith in
            rw (e, same, subst (λ x. has x prepared ≡ false) equal new) refl
      ]
