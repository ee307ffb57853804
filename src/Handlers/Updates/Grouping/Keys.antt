-- ===== src/Handlers/Updates/Grouping/Keys.antt =====
-- For gauges and counters the key of the grouping tells the same metric from another.
use Prim.Native.String.{◌++◌, count}
use mathlib.Core.Path.{subst₂}
use text.Mathlib.TextLemmas.{append_cancel_right, append_assoc, append_inj, length-append}
use go_metrics.Common.{
  ℕ, String, ◌≡◌, ◌≢◌, ◌↔◌, refl, sym, ◌∙◌, ap, inl, inr, some, arith, eq_iff, add64,
}
use go_metrics.Models.{Metrics}
use go_metrics.Storage.{gauge, counter}
use go_metrics.Storage.Updates.{Update, set_gauge, add_counter, update_of}
use go_metrics.Storage.Updates.Laws.{SameTarget, combine, update_of-cases, update_of-counter}
use go_metrics.Handlers.Updates.{group_key, merge}

last_differs : (s t : String) → s ++ "e" ≢ t ++ "r"
last_differs s t h =
    let counts : count (s ++ "e") ≡ count (t ++ "r") = ap count h in
    let same : count s ≡ count t =
      omega (arith, counts, length-append s "e", length-append t "r") in
    ground (arith, eq_iff "e" "r", (append_inj h same).1)

gauge-ne-counter : (a b : String) → (a ++ "_") ++ gauge ≢ (b ++ "_") ++ counter
gauge-ne-counter a b h =
    last_differs ((a ++ "_") ++ "gaug") ((b ++ "_") ++ "counte")
      (append_assoc (a ++ "_") "gaug" "e" ∙ h ∙ sym (append_assoc (b ++ "_") "counte" "r"))

same_id : (a b t : String) → (a ++ "_") ++ t ≡ (b ++ "_") ++ t → a ≡ b
same_id a b t h = append_cancel_right a b "_" (append_cancel_right (a ++ "_") (b ++ "_") t h)

module _ {F : Type 0} where
  key_of_type : (m : Metrics F) (t : String) → m.mtype ≡ t → group_key m ≡ (m.id ++ "_") ++ t
  unfolding group_key
  key_of_type m t e = ap (λ s. (m.id ++ "_") ++ s) e

  -- Metrics with updates have one key exactly if their updates have one target.
  pub group_key_iff :
      (m w : Metrics F) (u v : Update F)
      → update_of m ≡ some u
      → update_of w ≡ some v
      → (group_key m ≡ group_key w) ↔ SameTarget u v
  group_key_iff m w u v hm hw = elim (update_of-cases m u hm) [
    | inl (_, t, _, same) ↦ elim (update_of-cases w v hw) [
      | inl (_, t', _, same') ↦
          rw (same, same', key_of_type m gauge t, key_of_type w gauge t')
            (same_id m.id w.id gauge, λ h. ap (λ s. (s ++ "_") ++ gauge) h)
      | inr (_, t', _, same') ↦
          rw (same, same', key_of_type m gauge t, key_of_type w counter t')
            (gauge-ne-counter m.id w.id, λ h. absurd h)
    ]
    | inr (_, t, _, same) ↦ elim (update_of-cases w v hw) [
      | inl (_, t', _, same') ↦
          rw (same, same', key_of_type m counter t, key_of_type w gauge t')
            ((λ h. gauge-ne-counter w.id m.id (sym h)), λ h. absurd h)
      | inr (_, t', _, same') ↦
          rw (same, same', key_of_type m counter t, key_of_type w counter t')
            (same_id m.id w.id counter, λ h. ap (λ s. (s ++ "_") ++ counter) h)
    ]
  ]

  pub group_key-merge : (e m : Metrics F) → group_key (merge (some e) m) ≡ group_key m
  unfolding group_key merge
  group_key-merge e m = ground arith

  merge-gauge : (e m : Metrics F) → m.mtype ≡ gauge → merge (some e) m ≡ m
  unfolding merge
  merge-gauge e m t = rw t

  merge-counter :
      (e m : Metrics F) (c d : ℕ)
      → m.mtype ≡ counter
      → e.delta ≡ some c
      → m.delta ≡ some d
      → merge (some e) m ≡ record m { delta = some (add64 c d) }
  unfolding merge
  merge-counter e m c d t he hm = rw (t, he, hm)

  combine-set_gauge :
      (u : Update F) (k : String) (v : F) → combine u (set_gauge k v) ≡ set_gauge k v
  combine-set_gauge (set_gauge j w) k v = refl
  combine-set_gauge (add_counter j d) k v = refl

  -- A metric merged with an earlier one of its key asks for the two updates in one.
  pub update_of-merge :
      (e m : Metrics F) (u v : Update F)
      → update_of e ≡ some u
      → update_of m ≡ some v
      → SameTarget u v
      → update_of (merge (some e) m) ≡ some (combine u v)
  update_of-merge e m u v he hm h = elim (update_of-cases m v hm) [
    | inl (_, t, _, same) ↦ rw (merge-gauge e m t) (hm ∙ rw (same, combine-set_gauge))
    | inr (d, t, hd, same) ↦ elim (update_of-cases e u he) [
      | inl (_, _, _, same') ↦ absurd (subst₂ SameTarget same' same h)
      | inr (c, _, hc, same') ↦
          rw (same, same', merge-counter e m c d t hc hd)
            (update_of-counter (record m { delta = some (add64 c d) }) (add64 c d) t refl)
    ]
  ]
