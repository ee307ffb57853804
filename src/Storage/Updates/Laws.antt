-- ===== src/Storage/Updates/Laws.antt =====
-- Updates of different targets commute, and two of one target combine.
use go_metrics.Models.{Metrics}
use go_metrics.Storage.{gauge, counter}
use go_metrics.Storage.Updates.{update_of}
use go_metrics.Common.{
  some, ◌⊎◌, All, sym, ap, ◌∙◌, ℕ, String, ◌≡◌, refl, List, [], ◌∷◌, arith, add64, add64_assoc,
  add64_comm, eq_iff,
}
use go_metrics.Storage.{Result}
use go_metrics.Storage.Updates.{
  Update, set_gauge, add_counter, gauge_after, gauge_after_all, counter_after, counter_after_all,
  count_of,
}

module _ {F : Type 0} where
  -- Two updates of one name and one kind.
  abbrev pub SameTarget : Update F → Update F → Type 0
  SameTarget (set_gauge k v) (set_gauge j w) = k ≡ j
  SameTarget (add_counter k c) (add_counter j d) = k ≡ j
  SameTarget _ _ = ⊥

  -- One update in place of two of the same target.
  abbrev pub combine : Update F → Update F → Update F
  combine (add_counter k c) (add_counter j d) = add_counter j (add64 c d)
  combine _ u = u

  pub gauge_after_comm :
      (n : String) (u w : Update F) (r : Result F)
      → ¬ SameTarget u w
      → gauge_after n u (gauge_after n w r) ≡ gauge_after n w (gauge_after n u r)
  gauge_after_comm n (set_gauge k v) (set_gauge j w) r h = ground (arith, eq_iff k n, eq_iff j n)
  gauge_after_comm n (set_gauge k v) (add_counter j d) r h = refl
  gauge_after_comm n (add_counter k c) u r h = refl

  pub counter_after_comm :
      (n : String) (u w : Update F) (r : Result ℕ)
      → counter_after n u (counter_after n w r) ≡ counter_after n w (counter_after n u r)
  counter_after_comm n (add_counter k c) (add_counter j d) r =
      ground (arith, add64_assoc (count_of r) c d, add64_assoc (count_of r) d c, add64_comm c d)
  counter_after_comm n (add_counter k c) (set_gauge j v) r = refl
  counter_after_comm n (set_gauge k v) u r = refl

  pub gauge_after-combine :
      (n : String) (u w : Update F) (r : Result F)
      → SameTarget u w
      → gauge_after n (combine u w) r ≡ gauge_after n w (gauge_after n u r)
  gauge_after-combine n (set_gauge k v) (set_gauge j w) r h = ground (arith, eq_iff k n, eq_iff j n)
  gauge_after-combine n (add_counter k c) (add_counter j d) r h = refl
  gauge_after-combine n (set_gauge k v) (add_counter j d) r h = absurd h
  gauge_after-combine n (add_counter k c) (set_gauge j v) r h = absurd h

  pub counter_after-combine :
      (n : String) (u w : Update F) (r : Result ℕ)
      → SameTarget u w
      → counter_after n (combine u w) r ≡ counter_after n w (counter_after n u r)
  counter_after-combine n (add_counter k c) (add_counter j d) r h =
      ground (arith, add64_assoc (count_of r) c d, eq_iff k n, eq_iff j n)
  counter_after-combine n (set_gauge k v) (set_gauge j w) r h = refl
  counter_after-combine n (set_gauge k v) (add_counter j d) r h = absurd h
  counter_after-combine n (add_counter k c) (set_gauge j v) r h = absurd h

  pub gauge_after_all_comm :
      (n : String) (u : Update F) (us : List (Update F)) (r : Result F)
      → All (λ w. ¬ SameTarget u w) us
      → gauge_after_all n us (gauge_after n u r) ≡ gauge_after n u (gauge_after_all n us r)
  gauge_after_all_comm n u [] r h = refl
  gauge_after_all_comm n u (w ∷ us) r (h, hs) =
      ap (gauge_after_all n us) (sym (gauge_after_comm n u w r h))
      ∙ gauge_after_all_comm n u us (gauge_after n w r) hs

  pub counter_after_all_comm :
      (n : String) (u : Update F) (us : List (Update F)) (r : Result ℕ)
      → counter_after_all n us (counter_after n u r) ≡ counter_after n u (counter_after_all n us r)
  counter_after_all_comm n u [] r = refl
  counter_after_all_comm n u (w ∷ us) r =
      ap (counter_after_all n us) (sym (counter_after_comm n u w r))
      ∙ counter_after_all_comm n u us (counter_after n w r)

  -- A metric with an update is a gauge that has its value or a counter that has its delta.
  pub update_of-cases :
      (m : Metrics F) (u : Update F)
      → update_of m ≡ some u
      → ((v : F) × (m.mtype ≡ gauge) × (m.value ≡ some v) × (u ≡ set_gauge m.id v))
        ⊎ ((d : ℕ) × (m.mtype ≡ counter) × (m.delta ≡ some d) × (u ≡ add_counter m.id d))
  unfolding update_of
  update_of-cases m u h = ground (arith, eq_iff m.mtype gauge, eq_iff m.mtype counter)

  pub update_of-gauge :
      (m : Metrics F) (v : F)
      → m.mtype ≡ gauge
      → m.value ≡ some v
      → update_of m ≡ some (set_gauge m.id v)
  unfolding update_of
  update_of-gauge m v t e = rw (t, e)

  pub update_of-counter :
      (m : Metrics F) (d : ℕ)
      → m.mtype ≡ counter
      → m.delta ≡ some d
      → update_of m ≡ some (add_counter m.id d)
  unfolding update_of
  update_of-counter m d t e = rw (t, e)
