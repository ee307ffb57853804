-- ===== src/Tests/Keys.antt =====
-- A toy key of 12 bytes, which leaves room for one byte of data.
use go_metrics.Common.{
  ℕ, zero, suc, ◌≤◌, ◌≡◌, refl, Option, none, some, List, [], ◌∷◌, length, arith,
}
use go_metrics.Crypto.{Rsa, encrypt_large_data, decrypt_large_data}
use go_metrics.Crypto.RoundTrip.{IsKeyPair, decrypt_large_data-encrypt_large_data}

-- A block is its length, its byte and padding.
abbrev pad : ℕ → ℕ → List ℕ
pad n b = n ∷ b ∷ 0 ∷ 0 ∷ 0 ∷ 0 ∷ 0 ∷ 0 ∷ 0 ∷ 0 ∷ 0 ∷ 0 ∷ []

abbrev encrypt_one : List ℕ → Option (List ℕ)
encrypt_one [] = some (pad 0 0)
encrypt_one (b ∷ []) = some (pad 1 b)
encrypt_one (b ∷ c ∷ l) = none

abbrev decrypt_one : List ℕ → Option (List ℕ)
decrypt_one (zero ∷ b ∷ l) = some []
decrypt_one (suc zero ∷ b ∷ l) = some (b ∷ [])
decrypt_one l = none

abbrev pub toy : Rsa
toy = record { size = 12; encrypt = λ n. encrypt_one; decrypt = decrypt_one }

toy_encrypts :
    (block : List ℕ)
    → length block ≤ 1
    → (c : List ℕ) × (encrypt_one block ≡ some c) × (length c ≡ 12) × (decrypt_one c ≡ some block)
toy_encrypts [] p = (pad 0 0, refl, refl, refl)
toy_encrypts (b ∷ []) p = (pad 1 b, refl, refl, refl)
toy_encrypts (b ∷ c ∷ l) p = absurd (omega (arith, p))

pub toy-IsKeyPair : IsKeyPair toy
toy-IsKeyPair = record { room = omega arith; encrypts = λ n block p. toy_encrypts block p }

decrypt_large_data-encrypt_large_data_example :
    (c : List ℕ) × (encrypt_large_data toy (7 ∷ 8 ∷ 9 ∷ []) ≡ some c)
    × (decrypt_large_data toy c ≡ some (7 ∷ 8 ∷ 9 ∷ []))
decrypt_large_data-encrypt_large_data_example =
    decrypt_large_data-encrypt_large_data toy toy-IsKeyPair (7 ∷ 8 ∷ 9 ∷ [])
