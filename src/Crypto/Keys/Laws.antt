-- ===== src/Crypto/Keys/Laws.antt =====
-- A pair of key files, written and read back.
use go_metrics.Common.{
  ℕ, String, ◌≡◌, ◌≢◌, refl, sym, ◌∙◌, Option, none, some, List, inl, inr, eq_refl, str_ne,
  Option-cases, Bool-cases,
}
use go_metrics.Crypto.Keys.{
  rsa_key, KeyCodecs, KeyFiles, KeyError, unsupported_type, failed, loaded, load_public_key,
  load_private_key, save_private_key_to_file, save_public_key_to_file, write_pem, generate_key_pair,
  keygen, put_file,
}

-- What the two packages promise of what they have written themselves, for generated keys.
pub record ReadsBack {K P : Type 0} (x : KeyCodecs K P) : Type 0 where
  pub pem_private :
      (bytes : List ℕ)
      → x.pem_decode (x.pem_encode "RSA PRIVATE KEY" bytes) ≡ some ("RSA PRIVATE KEY", bytes)
  pub pem_public :
      (bytes : List ℕ) → x.pem_decode (x.pem_encode "PUBLIC KEY" bytes) ≡ some ("PUBLIC KEY", bytes)
  pub pkcs1 :
      (bits : ℕ) (k : K)
      → x.generate_key bits ≡ some k
      → x.parse_pkcs1_private_key (x.marshal_pkcs1_private_key k) ≡ some k
  pub pkix :
      (bits : ℕ) (k : K) (bytes : List ℕ)
      → x.generate_key bits ≡ some k
      → x.marshal_pkix_public_key (x.public_key k) ≡ some bytes
      → x.parse_pkix_public_key bytes ≡ rsa_key (x.public_key k)

module _ {K P : Type 0} (x : KeyCodecs K P) (laws : ReadsBack x) where
  -- A write that succeeds leaves its block in its file, and the other files as they were.
  record Wrote (filename type : String) (bytes : List ℕ) (fs gs : KeyFiles) : Type 0 where
    in_file : gs.contents filename ≡ some (x.pem_encode type bytes)
    elsewhere : (f : String) → f ≢ filename → gs.contents f ≡ fs.contents f

  put_file-Wrote :
      (filename type : String) (bytes : List ℕ) (fs : KeyFiles)
      → Wrote filename type bytes fs (put_file fs filename (x.pem_encode type bytes))
  put_file-Wrote filename type bytes fs = record {
    in_file = rw (eq_refl filename) refl;
    elsewhere = λ f h. rw (str_ne (λ e. h (sym e))) refl;
  }

  write_pem-Wrote :
      (filename type : String) (bytes : List ℕ) (fs : KeyFiles)
      → (write_pem x filename type bytes fs).0 ≡ none
      → Wrote filename type bytes fs (write_pem x filename type bytes fs).1
  unfolding write_pem
  write_pem-Wrote filename type bytes fs h = elim (Bool-cases (fs.can_create filename)) [
    | inr cannot ↦ let f = rw (write_pem, cannot) at h in cc f
    | inl created ↦ elim (Bool-cases (fs.can_write filename)) [
      | inr cannot ↦ let f = rw (write_pem, created, cannot) at h in cc f
      | inl written ↦ rw (write_pem, created, written) (put_file-Wrote filename type bytes fs)
    ]
  ]

  load_private_key-written :
      (bits : ℕ) (k : K) (filename : String) (fs : KeyFiles)
      → x.generate_key bits ≡ some k
      → fs.contents filename ≡ some (x.pem_encode "RSA PRIVATE KEY" (x.marshal_pkcs1_private_key k))
      → load_private_key x filename fs ≡ loaded k
  unfolding load_private_key
  load_private_key-written bits k filename fs g e =
      rw
        (load_private_key, e, laws.pem_private (x.marshal_pkcs1_private_key k), laws.pkcs1 bits k g)
        refl

  load_public_key-written :
      (bits : ℕ) (k : K) (filename : String) (bytes : List ℕ) (fs : KeyFiles)
      → x.generate_key bits ≡ some k
      → x.marshal_pkix_public_key (x.public_key k) ≡ some bytes
      → fs.contents filename ≡ some (x.pem_encode "PUBLIC KEY" bytes)
      → load_public_key x filename fs ≡ loaded (x.public_key k)
  unfolding load_public_key
  load_public_key-written bits k filename bytes fs g m e =
      rw (load_public_key, e, laws.pem_public bytes, laws.pkix bits k bytes g m) refl

  load_private_key-public :
      (filename : String) (bytes : List ℕ) (fs : KeyFiles)
      → fs.contents filename ≡ some (x.pem_encode "PUBLIC KEY" bytes)
      → load_private_key x filename fs ≡ failed (unsupported_type "PUBLIC KEY")
  unfolding load_private_key
  load_private_key-public filename bytes fs e = rw (load_private_key, e, laws.pem_public bytes) refl

  -- What a keygen that ends without an error has written: first the private key, then the public one.
  record Made (private_file public_file : String) (size : ℕ) (fs gs : KeyFiles) : Type 0 where
    key : K
    bytes : List ℕ
    between : KeyFiles
    generated : x.generate_key size ≡ some key
    marshalled : x.marshal_pkix_public_key (x.public_key key) ≡ some bytes
    first : Wrote private_file "RSA PRIVATE KEY" (x.marshal_pkcs1_private_key key) fs between
    second : Wrote public_file "PUBLIC KEY" bytes between gs

  module _ (private_file public_file : String) (size : ℕ) (fs : KeyFiles) (k : K)
      (generated : x.generate_key size ≡ some k) where
    abbrev saved : Option KeyError × KeyFiles
    saved = save_private_key_to_file x private_file k fs

    abbrev made : Option KeyError × KeyFiles
    made = keygen x private_file public_file size fs

    keygen-first_failed : (e : KeyError) → saved.0 ≡ some e → made.0 ≡ some e
    unfolding keygen generate_key_pair
    keygen-first_failed e h = rw (keygen, generate_key_pair, generated, h) refl

    keygen-first_saved :
        saved.0 ≡ none → made ≡ save_public_key_to_file x public_file (x.public_key k) saved.1
    unfolding keygen generate_key_pair
    keygen-first_saved h = rw (keygen, generate_key_pair, generated, h) refl

    first-Wrote :
        saved.0 ≡ none
        → Wrote private_file "RSA PRIVATE KEY" (x.marshal_pkcs1_private_key k) fs saved.1
    unfolding save_private_key_to_file
    first-Wrote h =
        write_pem-Wrote private_file "RSA PRIVATE KEY" (x.marshal_pkcs1_private_key k) fs h

  save_public_key-Wrote :
      (p : P) (filename : String) (fs : KeyFiles)
      → (save_public_key_to_file x filename p fs).0 ≡ none
      → (bytes : List ℕ) × (x.marshal_pkix_public_key p ≡ some bytes)
        × Wrote filename "PUBLIC KEY" bytes fs (save_public_key_to_file x filename p fs).1
  unfolding save_public_key_to_file
  save_public_key-Wrote p filename fs h = elim (Option-cases (x.marshal_pkix_public_key p)) [
    | inl cannot ↦ let f = rw (save_public_key_to_file, cannot) at h in cc f
    | inr (bytes, m) ↦
        let written = rw (save_public_key_to_file, m) at h in
        (
          bytes,
          m,
          rw (save_public_key_to_file, m) (write_pem-Wrote filename "PUBLIC KEY" bytes fs written),
        )
  ]

  keygen-Made :
      (private_file public_file : String) (size : ℕ) (fs : KeyFiles)
      → (keygen x private_file public_file size fs).0 ≡ none
      → Made private_file public_file size fs (keygen x private_file public_file size fs).1
  unfolding keygen generate_key_pair
  keygen-Made private_file public_file size fs h = elim (Option-cases (x.generate_key size)) [
    | inl cannot ↦ let f = rw (keygen, generate_key_pair, cannot) at h in cc f
    | inr (k, generated) ↦ elim (Option-cases (save_private_key_to_file x private_file k fs).0) [
      | inr (e, failed_first) ↦
          cc (h, keygen-first_failed private_file public_file size fs k generated e failed_first)
      | inl ok ↦
          let same = keygen-first_saved private_file public_file size fs k generated ok in
          let (bytes, m, wrote) =
            save_public_key-Wrote (x.public_key k) public_file _ (rw same at h) in
          record {
            key = k;
            bytes = bytes;
            between = (save_private_key_to_file x private_file k fs).1;
            generated = generated;
            marshalled = m;
            first = first-Wrote private_file public_file size fs k generated ok;
            second = rw same wrote;
          }
    ]
  ]

  -- A keygen that ends without an error, with two different files, has written a pair of keys that can
  -- be loaded: the generated private key, and its public key.
  pub keygen-load_keys :
      (private_file public_file : String) (size : ℕ) (fs : KeyFiles)
      → private_file ≢ public_file
      → (keygen x private_file public_file size fs).0 ≡ none
      → (k : K) × (x.generate_key size ≡ some k)
        × (load_private_key x private_file (keygen x private_file public_file size fs).1 ≡ loaded k)
        × (load_public_key x public_file (keygen x private_file public_file size fs).1
            ≡ loaded (x.public_key k))
  keygen-load_keys private_file public_file size fs differ h =
      let made = keygen-Made private_file public_file size fs h in
      (
        made.key,
        made.generated,
        load_private_key-written size made.key private_file _ made.generated
            (made.second.elsewhere private_file differ ∙ made.first.in_file),
        load_public_key-written size made.key public_file made.bytes _ made.generated
            made.marshalled made.second.in_file,
      )

  -- With one file for both keys, a keygen that ends without an error has overwritten the private key
  -- with the public one: the file loads as the public key, and no longer as a private key.
  pub keygen-load_one_file :
      (file : String) (size : ℕ) (fs : KeyFiles)
      → (keygen x file file size fs).0 ≡ none
      → (k : K) × (x.generate_key size ≡ some k)
        × (load_public_key x file (keygen x file file size fs).1 ≡ loaded (x.public_key k))
        × (load_private_key x file (keygen x file file size fs).1
            ≡ failed (unsupported_type "PUBLIC KEY"))
  keygen-load_one_file file size fs h =
      let made = keygen-Made file file size fs h in
      (
        made.key,
        made.generated,
        load_public_key-written size made.key file made.bytes _ made.generated made.marshalled
            made.second.in_file,
        load_private_key-public file made.bytes _ made.second.in_file,
      )
