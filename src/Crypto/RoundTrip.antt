-- ===== src/Crypto/RoundTrip.antt =====
-- What is encrypted in blocks is decrypted to the same bytes.
use go_metrics.Common.{
  ℕ, zero, suc, ◌+◌, ◌*◌, ◌-◌, ◌%◌, ◌≤◌, ◌<◌, ◌≡◌, refl, sym, ◌∙◌, ap, inl, inr, some, List, [],
  ◌∷◌, ◌++◌, length, leb, arith, Bool-cases,
}
use native.Mathlib.Nat.{mul-add-mod_self_right, zero-mod, add-zero}
use mathlib.Core.Path.{transport}
use go_metrics.Crypto.{
  Rsa, bind, block_size, encrypt_data, encrypt_blocks, encrypt_large_data, decrypt_blocks,
  decrypt_large_data,
}
use go_metrics.Crypto.Bytes.{
  take, drop, length-append, take-append, drop-append, append-take-drop, length-take, length-drop,
}

-- crypto/rsa, as documented: the key has room for the padding of PKCS #1 v1.5, a block that leaves
-- this room is encrypted to a block of the key's size, and that is decrypted to it.
pub record IsKeyPair (rsa : Rsa) : Type 0 where
  pub room : 11 < rsa.size
  pub encrypts :
      (n : ℕ) (block : List ℕ)
      → length block ≤ rsa.size - 11
      → (c : List ℕ) × (rsa.encrypt n block ≡ some c)
        × (length c ≡ rsa.size)
        × (rsa.decrypt c ≡ some block)

append-nil : (xs : List ℕ) → xs ++ [] ≡ xs
append-nil [] = refl
append-nil (x ∷ xs) = ap (λ l. x ∷ l) (append-nil xs)

mul_mod : (m n : ℕ) → (m * n) % n ≡ 0
mul_mod m n = ap (λ k. k % n) (sym (add-zero (m * n))) ∙ mul-add-mod_self_right m n 0 ∙ zero-mod n

module _ (rsa : Rsa) (k : IsKeyPair rsa) where
  -- Encrypted blocks: a whole number of them, and what they are decrypted to.
  record Encrypted (text c : List ℕ) : Type 0 where
    count : ℕ
    whole : length c ≡ count * rsa.size
    back : (fuel : ℕ) → length c ≤ fuel → decrypt_blocks rsa fuel c ≡ some text

  take_block : (c cs : List ℕ) → length c ≡ rsa.size → take rsa.size (c ++ cs) ≡ c
  take_block c cs l = ap (λ n. take n (c ++ cs)) (sym l) ∙ take-append c cs

  drop_block : (c cs : List ℕ) → length c ≡ rsa.size → drop rsa.size (c ++ cs) ≡ cs
  drop_block c cs l = ap (λ n. drop n (c ++ cs)) (sym l) ∙ drop-append c cs

  decrypt_step :
      (fuel : ℕ) (text : List ℕ)
      → 0 < length text
      → decrypt_blocks rsa (suc fuel) text
        ≡ bind
            (rsa.decrypt (take rsa.size text))
            (λ d. bind (decrypt_blocks rsa fuel (drop rsa.size text)) (λ ds. some (d ++ ds)))
  unfolding decrypt_blocks
  decrypt_step fuel [] p = absurd (omega (arith, p))
  decrypt_step fuel (x ∷ rest) p = refl

  decrypt_first :
      (fuel : ℕ) (c cs block : List ℕ)
      → length c ≡ rsa.size
      → rsa.decrypt c ≡ some block
      → decrypt_blocks rsa (suc fuel) (c ++ cs)
        ≡ bind (decrypt_blocks rsa fuel cs) (λ ds. some (block ++ ds))
  decrypt_first fuel c cs block l d = simp (
    decrypt_step fuel (c ++ cs) (omega (arith, length-append c cs, l, k.room)),
    take_block c cs l,
    drop_block c cs l,
    d,
  )

  Encrypted-cons :
      (text block c cs : List ℕ)
      → length c ≡ rsa.size
      → rsa.decrypt c ≡ some block
      → Encrypted text cs
      → Encrypted (block ++ text) (c ++ cs)
  Encrypted-cons text block c cs l d e = record {
    count = suc e.count;
    whole = grind (arith, e.whole, length-append c cs, l);
    back = elim [
      | zero ↦ λ p. absurd (omega (arith, p, length-append c cs, l, k.room))
      | suc fuel ↦ λ p.
          decrypt_first fuel c cs block l d
          ∙ ap (λ r. bind r (λ ds. some (block ++ ds)))
              (e.back fuel (omega (arith, p, length-append c cs, l, k.room)))
    ];
  }

  no_blocks : Encrypted [] []
  unfolding decrypt_blocks
  no_blocks = record { count = 0; whole = omega arith; back = λ fuel p. refl }

  encrypt_blocks-Encrypted :
      (fuel n : ℕ) (text : List ℕ)
      → length text ≤ fuel
      → (c : List ℕ) × (encrypt_blocks rsa fuel n text ≡ some c) × Encrypted text c
  unfolding encrypt_blocks
  encrypt_blocks-Encrypted fuel n [] p = ([], refl, no_blocks)
  encrypt_blocks-Encrypted zero n (x ∷ rest) p = absurd (omega (arith, p))
  encrypt_blocks-Encrypted (suc fuel) n (x ∷ rest) p =
      let text = x ∷ rest in
      let (c, made, size, back) =
        k.encrypts n (take (block_size rsa) text) (length-take (block_size rsa) text) in
      let (cs, others, e) =
        encrypt_blocks-Encrypted fuel (suc n) (drop (block_size rsa) text)
          (omega (arith, p, k.room, length-drop (block_size rsa) text)) in
      (
        c ++ cs,
        simp (made, others),
        transport (ap (λ t. Encrypted t (c ++ cs)) (append-take-drop (block_size rsa) text)) (
            Encrypted-cons (drop (block_size rsa) text) (take (block_size rsa) text) c cs size back
              e),
      )

  encrypt_data-Encrypted :
      (n : ℕ) (text : List ℕ)
      → length text + 11 ≤ rsa.size
      → (c : List ℕ) × (encrypt_data rsa n text ≡ some c) × Encrypted text c
  unfolding encrypt_data
  encrypt_data-Encrypted n text p =
      let (c, made, size, back) = k.encrypts n text (omega (arith, p)) in
      (
        c,
        made,
        transport (λ i. Encrypted (append-nil text i) (append-nil c i))
            (Encrypted-cons [] text c [] size back no_blocks),
      )

  decrypt_large_data-Encrypted :
      (text c : List ℕ) → Encrypted text c → decrypt_large_data rsa c ≡ some text
  unfolding decrypt_large_data
  decrypt_large_data-Encrypted text c e =
      simp
        (ap (λ n. n % rsa.size) e.whole ∙ mul_mod e.count rsa.size, e.back (length c) (omega arith))

  -- With a key pair, data of any size is encrypted, and the result is decrypted to the same bytes.
  pub decrypt_large_data-encrypt_large_data :
      (text : List ℕ)
      → (c : List ℕ) × (encrypt_large_data rsa text ≡ some c)
        × (decrypt_large_data rsa c ≡ some text)
  unfolding encrypt_large_data
  decrypt_large_data-encrypt_large_data text = elim (Bool-cases (leb (length text + 11) rsa.size)) [
    | inl small ↦
        let (c, made, e) = encrypt_data-Encrypted 0 text (ground arith) in
        (c, simp (small, made), decrypt_large_data-Encrypted text c e)
    | inr large ↦
        let (c, made, e) = encrypt_blocks-Encrypted (length text) 0 text (omega arith) in
        (c, simp (large, made), decrypt_large_data-Encrypted text c e)
  ]
