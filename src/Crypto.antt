-- ===== src/Crypto.antt =====
-- internal/crypto: encryption of data of any size in RSA blocks (utils.go, rsa.go). A byte is a
-- number.
pub mod Bytes
pub mod RoundTrip
pub mod Keys
use go_metrics.Common.{
  ℕ, zero, suc, ◌+◌, ◌-◌, ◌%◌, Bool, Option, none, some, List, [], ◌∷◌, ◌++◌, length, leb, eqb,
  if◌then◌else◌,
}
use go_metrics.Crypto.Bytes.{take, drop}

-- A key pair, and crypto/rsa on it: `encrypt n` is EncryptPKCS1v15 with the random bytes of the n-th
-- call, `decrypt` is DecryptPKCS1v15, and `size` is the size of the key in bytes.
pub record Rsa : Type 0 where
  pub size : ℕ
  pub encrypt : ℕ → List ℕ → Option (List ℕ)
  pub decrypt : List ℕ → Option (List ℕ)

abbrev pub bind : {A B : Type 0} → Option A → (A → Option B) → Option B
bind none f = none
bind (some a) f = f a

module _ (rsa : Rsa) where
  -- EncryptData and DecryptData.
  unfoldable pub encrypt_data : ℕ → List ℕ → Option (List ℕ)
  encrypt_data n block = rsa.encrypt n block

  unfoldable pub decrypt_data : List ℕ → Option (List ℕ)
  decrypt_data block = rsa.decrypt block

  abbrev pub block_size : ℕ
  block_size = rsa.size - 11

  -- The loop over the blocks. A round takes at least one byte, so the length of the data is fuel
  -- enough if the key has more than 11 bytes. With fewer there is no block: the loop of the code
  -- panics or does not end, and here the fuel runs out.
  unfoldable pub encrypt_blocks : ℕ → ℕ → List ℕ → Option (List ℕ)
  unfolding encrypt_data
  encrypt_blocks fuel n [] = some []
  encrypt_blocks zero n (x ∷ rest) = none
  encrypt_blocks (suc fuel) n (x ∷ rest) =
      bind (encrypt_data n (take block_size (x ∷ rest)))
        λ c. bind (encrypt_blocks fuel (suc n) (drop block_size (x ∷ rest))) λ cs. some (c ++ cs)

  -- The first test is len(data) <= keySize - 11, which is false of a key of fewer than 11 bytes.
  unfoldable pub encrypt_large_data : List ℕ → Option (List ℕ)
  unfolding encrypt_data
  encrypt_large_data text =
      if leb (length text + 11) rsa.size
      then encrypt_data 0 text
      else encrypt_blocks (length text) 0 text

  unfoldable pub decrypt_blocks : ℕ → List ℕ → Option (List ℕ)
  unfolding decrypt_data
  decrypt_blocks fuel [] = some []
  decrypt_blocks zero (x ∷ rest) = none
  decrypt_blocks (suc fuel) (x ∷ rest) =
      bind (decrypt_data (take rsa.size (x ∷ rest)))
        λ d. bind (decrypt_blocks fuel (drop rsa.size (x ∷ rest))) λ ds. some (d ++ ds)

  unfoldable pub decrypt_large_data : List ℕ → Option (List ℕ)
  decrypt_large_data text =
      if eqb (length text % rsa.size) 0 then decrypt_blocks (length text) text else none
