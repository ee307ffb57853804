-- ===== src/Storage/Db/Listing/Rows.antt =====
-- database.go, the loops over `rows.Next` in `GetAllGauges` and `GetAllCounters`.
use mathlib.Core.List.{Memᴰ}
use go_metrics.Common.{
  String, ◌≡◌, refl, ◌⊎◌, inl, inr, Option, none, some, List, [], ◌∷◌, All, Option-cases,
  Bool-cases, eq_iff, eq_refl, ◌==◌,
}
use go_metrics.GoMap.{GoMap, index, assign}
use go_metrics.GoMap.Laws.{index-assign}
use go_metrics.Storage.{Result, ok, err, Error}
use go_metrics.Storage.Mem.{found}
use go_metrics.Storage.Db.Reads.{assign_rows}

Result-cases : {A : Type 0} (r : Result A) → ((a : A) × (r ≡ ok a)) ⊎ ((e : Error) × (r ≡ err e))
Result-cases (ok a) = inl (a, refl)
Result-cases (err e) = inr (e, refl)

module _ {V : Type 0} (reading : String → Result V) where
  -- A row has the value that is read under its name; one that `Scan` refuses has none.
  abbrev pub IsRead : Option (String × V) → Type 0
  IsRead none = Unit
  IsRead (some (k, v)) = reading k ≡ ok v

  assign-fits :
      (j : String) (w : V) (k : String) (v : V) (m : GoMap V)
      → reading j ≡ ok w
      → ((i : String) (u : V) → index i m ≡ some u → reading i ≡ ok u)
      → index k (assign j w m) ≡ some v
      → reading k ≡ ok v
  assign-fits j w k v m row fits e = elim (Bool-cases (j == k)) [
    | inl same ↦
        let name : j ≡ k = (eq_iff j k).0 same in
        let f = rw (index-assign j k w m, same) at e in cc (f, row, name)
    | inr differ ↦ fits k v (rw (index-assign j k w m, differ) at e)
  ]

  assign_rows-fits :
      (rows : List (Option (String × V))) (m : GoMap V)
      → All IsRead rows
      → ((k : String) (v : V) → index k m ≡ some v → reading k ≡ ok v)
      → (k : String) (v : V) → index k (assign_rows rows m) ≡ some v
      → reading k ≡ ok v
  unfolding assign_rows
  assign_rows-fits [] m h fits = fits
  assign_rows-fits (none ∷ rows) m h fits = assign_rows-fits rows m h.1 fits
  assign_rows-fits (some (j, w) ∷ rows) m h fits =
      assign_rows-fits rows (assign j w m) h.1 (λ k v. assign-fits j w k v m h.0 fits)

  -- An entry stays, since the rows agree with it.
  assign-keeps :
      (j : String) (w : V) (k : String) (v : V) (m : GoMap V)
      → reading j ≡ ok w
      → reading k ≡ ok v
      → index k m ≡ some v
      → index k (assign j w m) ≡ some v
  assign-keeps j w k v m row e at = elim (Bool-cases (j == k)) [
    | inl same ↦
        let name : j ≡ k = (eq_iff j k).0 same in
        let both : ok w ≡ ok v = cc (row, e, name) in rw (index-assign j k w m, same) (cc both)
    | inr differ ↦ rw (index-assign j k w m, differ) at
  ]

  assign_rows-keeps :
      (rows : List (Option (String × V))) (m : GoMap V) (k : String) (v : V)
      → All IsRead rows
      → reading k ≡ ok v
      → index k m ≡ some v
      → index k (assign_rows rows m) ≡ some v
  unfolding assign_rows
  assign_rows-keeps [] m k v h e at = at
  assign_rows-keeps (none ∷ rows) m k v h e at = assign_rows-keeps rows m k v h.1 e at
  assign_rows-keeps (some (j, w) ∷ rows) m k v h e at =
      assign_rows-keeps rows (assign j w m) k v h.1 e (assign-keeps j w k v m h.0 e at)

  assign_rows-holds :
      (rows : List (Option (String × V))) (m : GoMap V) (k : String) (v : V)
      → All IsRead rows
      → reading k ≡ ok v
      → Memᴰ (some (k, v)) rows
      → index k (assign_rows rows m) ≡ some v
  unfolding assign_rows
  assign_rows-holds [] m k v h e x = elim x [ ]
  assign_rows-holds (none ∷ rows) m k v h e (Memᴰ.head at) = cc at
  assign_rows-holds (some (j, w) ∷ rows) m k v h e (Memᴰ.head at) =
      let name : k ≡ j = cc at in
      let value : v ≡ w = cc at in
      assign_rows-keeps rows (assign j w m) k v h.1 e
        (rw (name, value, index-assign j j w m, eq_refl j) refl)
  assign_rows-holds (none ∷ rows) m k v h e (Memᴰ.tail at) = assign_rows-holds rows m k v h.1 e at
  assign_rows-holds (some (j, w) ∷ rows) m k v h e (Memᴰ.tail at) =
      assign_rows-holds rows (assign j w m) k v h.1 e at

  nothing_in : (k : String) (v : V) → index k [] ≡ some v → reading k ≡ ok v
  unfolding index
  nothing_in k v e = cc e

  -- The rows are what is read, all of it.
  pub record IsListing (rows : List (Option (String × V))) : Type 0 where
    pub read : All IsRead rows
    pub whole : (k : String) (v : V) → reading k ≡ ok v → Memᴰ (some (k, v)) rows

  -- The map that the rows are assigned to then has the values that are read.
  pub found-assign_rows :
      (missing : String → Error) (rows : List (Option (String × V))) (k : String)
      → IsListing rows
      → ((e : Error) → reading k ≡ err e → e ≡ missing k)
      → found (missing k) (index k (assign_rows rows [])) ≡ reading k
  found-assign_rows missing rows k listing misses = elim (Result-cases (reading k)) [
    | inl (v, e) ↦ rw (assign_rows-holds rows [] k v listing.read e (listing.whole k v e), e) refl
    | inr (x, e) ↦ elim (Option-cases (index k (assign_rows rows []))) [
      | inl o ↦ rw (o, e, misses x e) refl
      | inr (v, o) ↦
          let f = assign_rows-fits rows [] listing.read (λ i u at. nothing_in i u at) k v o in
          cc (f, e)
    ]
  ]
