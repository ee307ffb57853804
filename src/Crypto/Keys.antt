-- ===== src/Crypto/Keys.antt =====
-- internal/crypto/rsa.go and utils.go: RSA keys in PEM files, and cmd/keygen/main.go, which makes a
-- pair of them.
pub mod Laws
use go_metrics.Common.{ℕ, String, Bool, Option, none, some, List, ◌==◌, if◌then◌else◌}

-- What x509.ParsePKIXPublicKey and x509.ParsePKCS8PrivateKey return: an error, an RSA key, or one of
-- another kind.
pub data Parsed (K : Type 0) : Type 0 where
  unreadable : Parsed K
  rsa_key : K → Parsed K
  other_key : Parsed K

-- pem.Decode and pem.Encode on a block without headers, given by its type and bytes; crypto/x509 on
-- private keys `K` and public keys `P`; and rsa.GenerateKey of a number of bits.
pub record KeyCodecs (K P : Type 0) : Type 0 where
  pub pem_decode : List ℕ → Option (String × List ℕ)
  pub pem_encode : String → List ℕ → List ℕ
  pub parse_pkix_public_key : List ℕ → Parsed P
  pub parse_pkcs1_public_key : List ℕ → Option P
  pub parse_pkcs8_private_key : List ℕ → Parsed K
  pub parse_pkcs1_private_key : List ℕ → Option K
  pub marshal_pkcs1_private_key : K → List ℕ
  pub marshal_pkix_public_key : P → Option (List ℕ)
  pub public_key : K → P
  pub generate_key : ℕ → Option K

-- The files: their bytes, where os.Create and the writes of pem.Encode succeed, and what a write that
-- fails leaves.
pub record KeyFiles : Type 0 where
  pub contents : String → Option (List ℕ)
  pub can_create : String → Bool
  pub can_write : String → Bool
  pub cut_off : String → List ℕ

-- One constructor for each `fmt.Errorf`.
pub data KeyError : Type 0 where
  not_read no_block not_parsed not_rsa : KeyError
  unsupported_type : String → KeyError
  not_generated not_marshalled not_created not_written : KeyError

pub data Loaded (K : Type 0) : Type 0 where
  failed : KeyError → Loaded K
  loaded : K → Loaded K

abbrev of_parsed : {K : Type 0} → Parsed K → Loaded K
of_parsed unreadable = failed not_parsed
of_parsed (rsa_key k) = loaded k
of_parsed other_key = failed not_rsa

abbrev of_pkcs1 : {K : Type 0} → Option K → Loaded K
of_pkcs1 none = failed not_parsed
of_pkcs1 (some k) = loaded k

abbrev pub put_file : KeyFiles → String → List ℕ → KeyFiles
put_file fs name bytes = record fs {
  contents = λ f. if name == f then some bytes else fs.contents f;
}

module _ {K P : Type 0} (x : KeyCodecs K P) where
  unfoldable pub load_public_key : String → KeyFiles → Loaded P
  load_public_key filename fs = elim (fs.contents filename) [
    | none ↦ failed not_read
    | some text ↦ elim (x.pem_decode text) [
      | none ↦ failed no_block
      | some (type, bytes) ↦
          if type == "PUBLIC KEY"
          then of_parsed (x.parse_pkix_public_key bytes)
          else if type == "RSA PUBLIC KEY"
          then of_pkcs1 (x.parse_pkcs1_public_key bytes)
          else failed (unsupported_type type)
    ]
  ]

  unfoldable pub load_private_key : String → KeyFiles → Loaded K
  load_private_key filename fs = elim (fs.contents filename) [
    | none ↦ failed not_read
    | some text ↦ elim (x.pem_decode text) [
      | none ↦ failed no_block
      | some (type, bytes) ↦
          if type == "PRIVATE KEY"
          then of_parsed (x.parse_pkcs8_private_key bytes)
          else if type == "RSA PRIVATE KEY"
          then of_pkcs1 (x.parse_pkcs1_private_key bytes)
          else failed (unsupported_type type)
    ]
  ]

  unfoldable pub generate_key_pair : ℕ → Loaded (K × P)
  generate_key_pair bits = elim (x.generate_key bits) [
    | none ↦ failed not_generated
    | some k ↦ loaded (k, x.public_key k)
  ]

  -- os.Create, which empties the file, and pem.Encode.
  unfoldable pub write_pem : String → String → List ℕ → KeyFiles → Option KeyError × KeyFiles
  write_pem filename type bytes fs =
      if fs.can_create filename
      then if fs.can_write filename
        then (none, put_file fs filename (x.pem_encode type bytes))
        else (some not_written, put_file fs filename (fs.cut_off filename))
      else (some not_created, fs)

  unfoldable pub save_private_key_to_file : String → K → KeyFiles → Option KeyError × KeyFiles
  unfolding write_pem
  save_private_key_to_file filename k fs =
      write_pem filename "RSA PRIVATE KEY" (x.marshal_pkcs1_private_key k) fs

  unfoldable pub save_public_key_to_file : String → P → KeyFiles → Option KeyError × KeyFiles
  unfolding write_pem
  save_public_key_to_file filename p fs = elim (x.marshal_pkix_public_key p) [
    | none ↦ (some not_marshalled, fs)
    | some bytes ↦ write_pem filename "PUBLIC KEY" bytes fs
  ]

  -- main of cmd/keygen, of the flags -private, -public and -size. An error ends it with log.Fatalf.
  unfoldable pub keygen : String → String → ℕ → KeyFiles → Option KeyError × KeyFiles
  unfolding generate_key_pair save_private_key_to_file save_public_key_to_file
  keygen private_file public_file size fs = elim (generate_key_pair size) [
    | failed e ↦ (some e, fs)
    | loaded (k, p) ↦
        let (e, gs) = save_private_key_to_file private_file k fs in
        elim e [
          | some problem ↦ (some problem, gs)
          | none ↦ save_public_key_to_file public_file p gs
        ]
  ]
