-- ===== src/GoMap/Laws.antt =====
-- Reading a map after a write, and what does not depend on the order of its entries.
use go_metrics.Common.{
  ◌≢◌, true, false, String, ◌≡◌, refl, sym, ◌∙◌, Option, none, some, [], ◌∷◌, Permᴰ, arith, eq_iff,
  ◌==◌, if◌then◌else◌,
}
use mathlib.Core.Path.{subst, subst₂}
use go_metrics.GoMap.{GoMap, index, assign, assign_all, IsDistinct, Order, copy_map}

module _ {V : Type 0} where
  pub index-assign :
      (k j : String) (v : V) (m : GoMap V)
      → index j (assign k v m) ≡ (if k == j then some v else index j m)
  unfolding index assign
  index-assign k j v [] = refl
  index-assign k j v ((i, w) ∷ m) =
      ground (arith, eq_iff k j, eq_iff i k, eq_iff i j, index-assign k j v m)

  -- A key that is not there differs from the first, and is not among the rest.
  pub index-none_cons :
      (k j : String) (v : V) (m : GoMap V)
      → index k ((j, v) ∷ m) ≡ none
      → (j ≢ k) × (index k m ≡ none)
  unfolding index
  index-none_cons k j v m h = ground (arith, eq_iff j k)

  pub index_head :
      (k j : String) (v : V) (m : GoMap V) → (j == k) ≡ true → index k ((j, v) ∷ m) ≡ some v
  unfolding index
  index_head k j v m h = rw h

  pub index_tail :
      (k j : String) (v : V) (m : GoMap V) → (j == k) ≡ false → index k ((j, v) ∷ m) ≡ index k m
  unfolding index
  index_tail k j v m h = rw h

  pub assign_head :
      (k j : String) (v w : V) (m : GoMap V)
      → (j == k) ≡ true
      → assign k v ((j, w) ∷ m) ≡ (j, v) ∷ m
  unfolding assign
  assign_head k j v w m h = rw h

  pub assign_tail :
      (k j : String) (v w : V) (m : GoMap V)
      → (j == k) ≡ false
      → assign k v ((j, w) ∷ m) ≡ (j, w) ∷ assign k v m
  unfolding assign
  assign_tail k j v w m h = rw h

  pub assign-IsDistinct :
      (k : String) (v : V) (m : GoMap V) → IsDistinct m → IsDistinct (assign k v m)
  unfolding index assign
  assign-IsDistinct k v [] h = (refl, tt)
  assign-IsDistinct k v ((i, w) ∷ m) h =
      ground (arith, eq_iff k i, eq_iff i k, index-assign k i v m, assign-IsDistinct k v m h.1)

  -- A rearrangement of a map's entries is the same map.
  pub record SameMap (l m : GoMap V) : Type 0 where
    pub same : (k : String) → index k l ≡ index k m
    pub distinct : IsDistinct m

  pub SameMap-trans : {l m n : GoMap V} → SameMap l m → SameMap m n → SameMap l n
  SameMap-trans s t = record { same = λ k. s.same k ∙ t.same k; distinct = t.distinct }

  front-SameMap :
      (a : String × V) {l m : GoMap V} → index a.0 l ≡ none → SameMap l m → SameMap (a ∷ l) (a ∷ m)
  unfolding index
  front-SameMap (j, v) h s = record {
    same = λ k. ground (arith, s.same k);
    distinct = (sym (s.same j) ∙ h, s.distinct);
  }

  swap-SameMap :
      (a b : String × V) (l : GoMap V) → IsDistinct (a ∷ b ∷ l) → SameMap (a ∷ b ∷ l) (b ∷ a ∷ l)
  unfolding index
  swap-SameMap (j, v) (i, w) l h = record {
    same = λ k. ground (arith, eq_iff j k, eq_iff i k, eq_iff i j);
    distinct = ground (arith, eq_iff j i, eq_iff i j);
  }

  pub perm-SameMap : {l m : GoMap V} → Permᴰ l m → IsDistinct l → SameMap l m
  perm-SameMap Permᴰ.nil h = record { same = λ k. refl; distinct = tt }
  perm-SameMap (Permᴰ.cons {a} {l₁} {l₂} e p) h =
      subst (λ b. SameMap (a ∷ l₁) (b ∷ l₂)) e (front-SameMap a h.0 (perm-SameMap p h.1))
  perm-SameMap (Permᴰ.swap {a} {b} {l} e f) h =
      subst₂ (λ x y. SameMap (a ∷ b ∷ l) (x ∷ y ∷ l)) f e (swap-SameMap a b l h)
  perm-SameMap (Permᴰ.trans p q) h =
      let s = perm-SameMap p h in SameMap-trans s (perm-SameMap q s.distinct)

  or_index : Option V → Option V → Option V
  or_index none o = o
  or_index (some v) o = some v

  assign_all-IsDistinct : (m acc : GoMap V) → IsDistinct acc → IsDistinct (assign_all m acc)
  assign_all-IsDistinct [] acc h = h
  assign_all-IsDistinct ((k, v) ∷ m) acc h =
      assign_all-IsDistinct m (assign k v acc) (assign-IsDistinct k v acc h)

  index-assign_all :
      (k : String) (m acc : GoMap V)
      → IsDistinct m
      → index k (assign_all m acc) ≡ or_index (index k m) (index k acc)
  unfolding index or_index
  index-assign_all k [] acc h = refl
  index-assign_all k ((j, v) ∷ m) acc h =
      index-assign_all k m (assign j v acc) h.1
      ∙ ground (arith, index-assign j k v acc, eq_iff j k, h.0)

  or_index-none : (o : Option V) → or_index o none ≡ o
  unfolding or_index
  or_index-none none = refl
  or_index-none (some v) = refl

  -- A copy made by `range` holds the same entries, in whatever order they are visited.
  pub copy_map-SameMap :
      (o : Order (String × V)) (m : GoMap V) → IsDistinct m → SameMap m (copy_map o m)
  unfolding copy_map index
  copy_map-SameMap o m h =
      let s = perm-SameMap (o.visit_perm m) h in
      record {
        same = λ k.
            sym (index-assign_all k (o.visit m) [] s.distinct ∙ or_index-none _ ∙ sym (s.same k));
        distinct = assign_all-IsDistinct (o.visit m) [] tt;
      }

  -- A copy made by `range` has one entry for a key.
  pub copy_map-IsDistinct : (o : Order (String × V)) (m : GoMap V) → IsDistinct (copy_map o m)
  unfolding copy_map
  copy_map-IsDistinct o m = assign_all-IsDistinct (o.visit m) [] tt
