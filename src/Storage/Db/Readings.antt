-- ===== src/Storage/Db/Readings.antt =====
-- What a statement changes in what is read of the table.
use go_metrics.Common.{
  ℕ, ◌^◌, ◌<◌, String, ◌≡◌, refl, sym, ap, ◌∙◌, false, Option, none, some, add64, arith, eq_iff,
  eq_refl, Option-cases, Bool-cases, inl, inr, ◌==◌,
}
use go_metrics.Storage.{gauge, counter, ok}
use go_metrics.Storage.Updates.{
  Update, set_gauge, add_counter, gauge_after, counter_after, count_of,
}
use go_metrics.Storage.Db.Table.{
  Row, Table, Statement, upsert_gauge, upsert_counter, effect, put, gauge_row, counter_row,
  add_bigint, fits_name,
}
use go_metrics.Storage.Db.Specification.{
  gauge_in, counter_in, gauge_cell, counter_cell, IsCounter, IsValid,
}

add_bigint-add64 : (a b c : ℕ) → add_bigint a b ≡ some c → c ≡ add64 a b
unfolding add_bigint
add_bigint-add64 a b c e = ground arith

module _ {F : Type 0} where
  -- An int64.
  abbrev pub InRange : Update F → Type 0
  InRange (set_gauge n v) = Unit
  InRange (add_counter n d) = d < 2 ^ 64

  abbrev pub statement : Update F → Statement F
  statement (set_gauge n v) = upsert_gauge n v
  statement (add_counter n d) = upsert_counter n d

  pub effect-upsert_gauge :
      (k : String) (v : F) (t u : Table F)
      → effect (upsert_gauge k v) t ≡ some u
      → u ≡ put k gauge (gauge_row v (t k gauge)) t
  unfolding effect
  effect-upsert_gauge k v t u e = elim (Bool-cases (fits_name k)) [
    | inl fits ↦ let h = rw (effect, fits) at e in cc h
    | inr long ↦ let h = rw (effect, long) at e in cc h
  ]

  effect-upsert_counter :
      (k : String) (d : ℕ) (t u : Table F)
      → effect (upsert_counter k d) t ≡ some u
      → (r : Row F) × (counter_row d (t k counter) ≡ some r) × (u ≡ put k counter r t)
  unfolding effect
  effect-upsert_counter k d t u e = elim (Bool-cases (fits_name k)) [
    | inl fits ↦ elim (Option-cases (counter_row d (t k counter))) [
      | inl o ↦ let h = rw (effect, fits, o) at e in cc h
      | inr (r, o) ↦ let h = rw (effect, fits, o) at e in (r, o, cc h)
    ]
    | inr long ↦ let h = rw (effect, long) at e in cc h
  ]

  pub put_same : (k kind : String) (r : Row F) (t : Table F) → put k kind r t k kind ≡ some r
  put_same k kind r t = rw (eq_refl k, eq_refl kind) refl

  put_name :
      (k n kind other : String) (r : Row F) (t : Table F)
      → (k == n) ≡ false
      → put k kind r t n other ≡ t n other
  put_name k n kind other r t e = rw e refl

  put_kind :
      (k n kind other : String) (r : Row F) (t : Table F)
      → (kind == other) ≡ false
      → put k kind r t n other ≡ t n other
  put_kind k n kind other r t e = elim (Bool-cases (k == n)) [
    | inl same ↦ rw (same, e) refl
    | inr differ ↦ rw differ refl
  ]

  -- What a statement does to the two readings of a name.
  pub record Reads (u : Update F) (t t' : Table F) : Type 0 where
    pub gauges : (n : String) → gauge_in n t' ≡ gauge_after n u (gauge_in n t)
    pub counters : (n : String) → counter_in n t' ≡ counter_after n u (counter_in n t)
    pub valid : IsValid t'

  gauge_cell-gauge_row :
      (n : String) (v : F) (o : Option (Row F)) → gauge_cell n (some (gauge_row v o)) ≡ ok v
  gauge_cell-gauge_row n v none = refl
  gauge_cell-gauge_row n v (some r) = refl

  set_Reads :
      (k : String) (v : F) (t : Table F)
      → IsValid t
      → Reads (set_gauge k v) t (put k gauge (gauge_row v (t k gauge)) t)
  set_Reads k v t valid =
      let other : (n : String) → put k gauge (gauge_row v (t k gauge)) t n counter ≡ t n counter =
        λ n. put_kind k n gauge counter (gauge_row v (t k gauge)) t refl in
      record {
        gauges = λ n. elim (Bool-cases (k == n)) [
          | inl same ↦ rw same (gauge_cell-gauge_row n v (t k gauge))
          | inr differ ↦ rw differ refl
        ];
        counters = λ n. ap (counter_cell n) (other n);
        valid = λ n r e. valid n r (sym (other n) ∙ e);
      }

  -- The row that an addition leaves.
  record Added (n : String) (d : ℕ) (o : Option (Row F)) (r : Row F) : Type 0 where
    counted : counter_cell n (some r) ≡ ok (add64 (count_of (counter_cell n o)) d)
    is_counter : IsCounter r

  Added-of_delta :
      (n : String) (d s : ℕ) (o : Option (Row F)) (r : Row F)
      → r.delta ≡ some s
      → s ≡ add64 (count_of (counter_cell n o)) d
      → Added n d o r
  unfolding add64
  Added-of_delta n d s o r e sum = record {
    counted = rw (e, sum) refl;
    is_counter = (s, e, omega (arith, sum));
  }

  counter_row-Added :
      (n : String) (d : ℕ) (o : Option (Row F)) (r : Row F)
      → d < 2 ^ 64
      → ((q : Row F) → o ≡ some q → IsCounter q)
      → counter_row d o ≡ some r
      → Added n d o r
  unfolding add64
  counter_row-Added n d none r h valid e = Added-of_delta n d d none r (cc e) (omega (arith, h))
  counter_row-Added n d (some q) r h valid e =
      let (c, delta, below) = valid q refl in
      elim (Option-cases (add_bigint c d)) [
        | inl over ↦ let f = rw (delta, over) at e in cc f
        | inr (s, sum) ↦
            let f = rw (delta, sum) at e in
            Added-of_delta n d s (some q) r (cc f) (rw delta (add_bigint-add64 c d s sum))
      ]

  add_Reads :
      (k : String) (d : ℕ) (t : Table F) (r : Row F)
      → d < 2 ^ 64
      → IsValid t
      → counter_row d (t k counter) ≡ some r
      → Reads (add_counter k d) t (put k counter r t)
  add_Reads k d t r h valid e =
      let other : (n : String) → put k counter r t n gauge ≡ t n gauge =
        λ n. put_kind k n counter gauge r t refl in
      record {
        gauges = λ n. ap (gauge_cell n) (other n);
        counters = λ n. elim (Bool-cases (k == n)) [
          | inl same ↦
              let same_name : k ≡ n = (eq_iff k n).0 same in
              rw same
                (counter_row-Added n d (t n counter) r h (valid n) (rw same_name at e)).counted
          | inr differ ↦ rw differ refl
        ];
        valid = λ n q at. elim (Bool-cases (k == n)) [
          | inl same ↦
              let found : some r ≡ some q = rw same at at in
              let is_row : r ≡ q = cc found in
              rw (← is_row) (counter_row-Added k d (t k counter) r h (valid k) e).is_counter
          | inr differ ↦ valid n q (sym (put_name k n counter counter r t differ) ∙ at)
        ];
      }

  pub effect_Reads :
      (u : Update F) (t t' : Table F)
      → InRange u
      → IsValid t
      → effect (statement u) t ≡ some t'
      → Reads u t t'
  effect_Reads (set_gauge k v) t t' h valid e =
      rw (effect-upsert_gauge k v t t' e) (set_Reads k v t valid)
  effect_Reads (add_counter k d) t t' h valid e =
      let (r, row, same) = effect-upsert_counter k d t t' e in
      rw same (add_Reads k d t r h valid row)
