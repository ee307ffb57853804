-- ===== src/Handlers/Updates/Grouping.antt =====
-- The map that UpdatesHandler builds has the effect of the metrics one after another.
pub mod Keys
use go_metrics.Common.{
  ℕ, String, ◌≡◌, ◌≢◌, refl, sym, ◌∙◌, ap, inl, inr, Option, none, some, List, [], ◌∷◌, Permᴰ, All,
  arith, eq_iff, Bool-cases, ◌==◌, if◌then◌else◌,
}
use mathlib.Core.Path.{subst, subst₂}
use go_metrics.GoMap.{Order, GoMap, index, assign, IsDistinct, values}
use go_metrics.GoMap.Laws.{
  index-none_cons, index_head, index_tail, assign_head, assign_tail, assign-IsDistinct, SameMap,
  perm-SameMap,
}
use go_metrics.Models.{Metrics}
use go_metrics.Storage.{Result}
use go_metrics.Storage.Updates.{
  Update, update_of, gauge_after, gauge_after_all, counter_after, counter_after_all, Asks, nothing,
  more,
}
use go_metrics.Storage.Updates.Laws.{
  SameTarget, combine, gauge_after_comm, counter_after_comm, gauge_after-combine,
  counter_after-combine, gauge_after_all_comm, counter_after_all_comm,
}
use go_metrics.Handlers.Updates.{group_key, merge, group_from}
use go_metrics.Handlers.Updates.Grouping.Keys.{group_key_iff, group_key-merge, update_of-merge}

module _ {F : Type 0} where
  -- Each entry stands under its metric's key, and `us` are the updates of the entries.
  pub data Grouped : GoMap (Metrics F) → List (Update F) → Type 0 where
    empty : Grouped [] []
    entry :
        {k : String} {m : Metrics F} {u : Update F} {acc : GoMap (Metrics F)} {us : List (Update F)}
        → k ≡ group_key m
        → update_of m ≡ some u
        → Grouped acc us
        → Grouped ((k, m) ∷ acc) (u ∷ us)

  -- Two lists of updates that no read tells apart.
  pub record SameEffect (us vs : List (Update F)) : Type 0 where
    pub gauges : (n : String) (r : Result F) → gauge_after_all n us r ≡ gauge_after_all n vs r
    pub counters : (n : String) (r : Result ℕ) → counter_after_all n us r ≡ counter_after_all n vs r

  pub Grouped-Asks :
      {acc : GoMap (Metrics F)} {us : List (Update F)} → Grouped acc us → Asks (values acc) us
  Grouped-Asks empty = nothing
  Grouped-Asks (entry _ e g) = more e (Grouped-Asks g)

  -- No entry has the target of a metric whose key is not there.
  fresh_target :
      (m : Metrics F) (u : Update F) {acc : GoMap (Metrics F)} {us : List (Update F)}
      → update_of m ≡ some u
      → index (group_key m) acc ≡ none
      → Grouped acc us
      → All (λ w. ¬ SameTarget u w) us
  fresh_target m u h f empty = tt
  fresh_target m u h f (entry {k} {m = e} {u = w} {acc} ke he g) =
      let (other, absent) = index-none_cons (group_key m) k e acc f in
      ((λ t. other (ke ∙ sym ((group_key_iff m e u w h he).1 t))), fresh_target m u h absent g)

  -- The entries after one metric: its update comes last, or is combined with an earlier one.
  record After (u : Update F) (us : List (Update F)) (acc : GoMap (Metrics F)) : Type 0 where
    list : List (Update F)
    grouped : Grouped acc list
    gauges :
        (n : String) (r : Result F)
        → gauge_after_all n list r ≡ gauge_after n u (gauge_after_all n us r)
    counters :
        (n : String) (r : Result ℕ)
        → counter_after_all n list r ≡ counter_after n u (counter_after_all n us r)

  abbrev put : Metrics F → GoMap (Metrics F) → GoMap (Metrics F)
  put m acc = assign (group_key m) (merge (index (group_key m) acc) m) acc

  put_first : (m : Metrics F) (u : Update F) → update_of m ≡ some u → After u [] (put m [])
  unfolding index assign merge
  put_first m u h = record {
    list = u ∷ [];
    grouped = entry refl h empty;
    gauges = λ n r. refl;
    counters = λ n r. refl;
  }

  put_same :
      (m e : Metrics F) (u w : Update F) {acc : GoMap (Metrics F)} {us : List (Update F)}
      → update_of m ≡ some u
      → update_of e ≡ some w
      → group_key e ≡ group_key m
      → index (group_key e) acc ≡ none
      → Grouped acc us
      → After u (w ∷ us) ((group_key e, merge (some e) m) ∷ acc)
  put_same m e u w {us} h he same absent g =
      let t = (group_key_iff e m w u he h).0 same in
      let others = fresh_target m u h (rw same at absent) g in
      record {
        list = combine w u ∷ us;
        grouped = entry (same ∙ sym (group_key-merge e m)) (update_of-merge e m w u he h t) g;
        gauges = λ n r.
            ap (gauge_after_all n us) (gauge_after-combine n w u r t)
            ∙ gauge_after_all_comm n u us (gauge_after n w r) others;
        counters = λ n r.
            ap (counter_after_all n us) (counter_after-combine n w u r t)
            ∙ counter_after_all_comm n u us (counter_after n w r);
      }

  put_lem :
      (m : Metrics F) (u : Update F) {acc : GoMap (Metrics F)} {us : List (Update F)}
      → update_of m ≡ some u
      → IsDistinct acc
      → Grouped acc us
      → After u us (put m acc)
  put_lem m u h d empty = put_first m u h
  put_lem m u h d (entry {k} {m = e} {u = w} {acc} {us} ke he g) =
      elim (Bool-cases (k == group_key m)) [
        | inl same ↦
            rw
              (
                index_head (group_key m) k e acc same,
                assign_head (group_key m) k (merge (some e) m) e acc same,
                ke,
              )
              (put_same m e u w h he (sym ke ∙ (eq_iff k (group_key m)).0 same) (rw ke at d.0) g)
        | inr other ↦
            let rest = put_lem m u h d.1 g in
            rw
              (
                index_tail (group_key m) k e acc other,
                assign_tail (group_key m) k (merge (index (group_key m) acc) m) e acc other,
              )
              (record {
                list = w ∷ rest.list;
                grouped = entry ke he rest.grouped;
                gauges = λ n r. rest.gauges n (gauge_after n w r);
                counters = λ n r. rest.counters n (counter_after n w r);
              })
      ]

  -- After the whole loop the entries have the effect of those before it and of all the metrics.
  record Joined (us vs : List (Update F)) (acc : GoMap (Metrics F)) : Type 0 where
    list : List (Update F)
    grouped : Grouped acc list
    distinct : IsDistinct acc
    gauges :
        (n : String) (r : Result F)
        → gauge_after_all n list r ≡ gauge_after_all n vs (gauge_after_all n us r)
    counters :
        (n : String) (r : Result ℕ)
        → counter_after_all n list r ≡ counter_after_all n vs (counter_after_all n us r)

  group_from_lem :
      {ms : List (Metrics F)} {vs : List (Update F)} (acc : GoMap (Metrics F))
      (us : List (Update F))
      → Asks ms vs
      → IsDistinct acc
      → Grouped acc us
      → Joined us vs (group_from acc ms)
  unfolding group_from
  group_from_lem acc us nothing d g = record {
    list = us;
    grouped = g;
    distinct = d;
    gauges = λ n r. refl;
    counters = λ n r. refl;
  }
  group_from_lem acc us (more {m} {u} {us = vs} e rest) d g =
      let one = put_lem m u e d g in
      let all =
        group_from_lem (put m acc) one.list rest (assign-IsDistinct (group_key m) _ acc d)
          one.grouped in
      record {
        list = all.list;
        grouped = all.grouped;
        distinct = all.distinct;
        gauges = λ n r. all.gauges n r ∙ ap (gauge_after_all n vs) (one.gauges n r);
        counters = λ n r. all.counters n r ∙ ap (counter_after_all n vs) (one.counters n r);
      }

  -- The grouped metrics, in the order of `acc`, and their effect.
  pub record Reordered (us : List (Update F)) (acc : GoMap (Metrics F)) : Type 0 where
    pub list : List (Update F)
    pub grouped : Grouped acc list
    pub effect : SameEffect list us

  SameEffect-refl : (us : List (Update F)) → SameEffect us us
  SameEffect-refl us = record { gauges = λ n r. refl; counters = λ n r. refl }

  swapped :
      (u w : Update F) (us : List (Update F))
      → ¬ SameTarget u w
      → SameEffect (w ∷ u ∷ us) (u ∷ w ∷ us)
  swapped u w us h = record {
    gauges = λ n r. ap (gauge_after_all n us) (gauge_after_comm n u w r h);
    counters = λ n r. ap (counter_after_all n us) (counter_after_comm n u w r);
  }

  behind_entry :
      (a : String × Metrics F) {l l' : GoMap (Metrics F)} {us : List (Update F)}
      → Grouped (a ∷ l) us
      → ((vs : List (Update F)) → Grouped l vs → Reordered vs l')
      → Reordered us (a ∷ l')
  behind_entry a (entry {u} {us} ke he g) rest =
      let r = rest us g in
      record {
        list = u ∷ r.list;
        grouped = entry ke he r.grouped;
        effect = record {
          gauges = λ n x. r.effect.gauges n (gauge_after n u x);
          counters = λ n x. r.effect.counters n (counter_after n u x);
        };
      }

  swapped_entries :
      (a b : String × Metrics F) {l : GoMap (Metrics F)} {us : List (Update F)}
      → IsDistinct (a ∷ b ∷ l)
      → Grouped (a ∷ b ∷ l) us
      → Reordered us (b ∷ a ∷ l)
  swapped_entries a b {l} d (entry {m} {u} ke he (entry {m = m'} {u = w} {us} kw hw g)) = record {
    list = w ∷ u ∷ us;
    grouped = entry kw hw (entry ke he g);
    effect = swapped u w us λ t.
        (index-none_cons a.0 b.0 b.1 l d.0).0
          (kw ∙ sym ((group_key_iff m m' u w he hw).1 t) ∙ sym ke);
  }

  -- Whatever order the entries are visited in, no read tells the difference.
  perm-Reordered :
      {acc acc' : GoMap (Metrics F)} (us : List (Update F))
      → Permᴰ acc acc'
      → IsDistinct acc
      → Grouped acc us
      → Reordered us acc'
  perm-Reordered us Permᴰ.nil d g = record { list = us; grouped = g; effect = SameEffect-refl us }
  perm-Reordered us (Permᴰ.cons {a} {l₁} {l₂} e p) d g =
      subst (λ b. Reordered us (b ∷ l₂)) e (behind_entry a g (λ vs. perm-Reordered vs p d.1))
  perm-Reordered us (Permᴰ.swap {a} {b} {l} e f) d g =
      subst₂ (λ x y. Reordered us (x ∷ y ∷ l)) f e (swapped_entries a b d g)
  perm-Reordered us (Permᴰ.trans p q) d g =
      let first = perm-Reordered us p d g in
      let second = perm-Reordered first.list q (perm-SameMap p d).distinct first.grouped in
      record {
        list = second.list;
        grouped = second.grouped;
        effect = record {
          gauges = λ n r. second.effect.gauges n r ∙ first.effect.gauges n r;
          counters = λ n r. second.effect.counters n r ∙ first.effect.counters n r;
        };
      }

  -- Grouped and then visited in any order, metrics that all have an update ask for updates with the
  -- effect of their own, one after another.
  pub grouped_effect :
      (order : Order (String × Metrics F)) (ms : List (Metrics F)) (vs : List (Update F))
      → Asks ms vs
      → (us : List (Update F)) × Asks (values (order.visit (group_from [] ms))) us
        × SameEffect us vs
  grouped_effect order ms vs h =
      let all = group_from_lem [] [] h tt empty in
      let r =
        perm-Reordered all.list (order.visit_perm (group_from [] ms)) all.distinct all.grouped in
      (
        r.list,
        Grouped-Asks r.grouped,
        record {
          gauges = λ n x. r.effect.gauges n x ∙ all.gauges n x;
          counters = λ n x. r.effect.counters n x ∙ all.counters n x;
        },
      )
