-- ===== src/Tests/KeyFiles.antt =====
-- Key files with numbers for keys; a private key is its public key, and the first byte is the type.
use go_metrics.Common.{
  ℕ, ◌+◌, zero, suc, String, ◌≡◌, ◌≢◌, refl, true, Option, none, some, List, [], ◌∷◌, ◌==◌, eq_iff,
  if◌then◌else◌,
}
use go_metrics.Crypto.Keys.{
  Parsed, unreadable, rsa_key, KeyCodecs, KeyFiles, loaded, load_private_key, load_public_key,
  keygen, generate_key_pair, save_private_key_to_file, save_public_key_to_file, write_pem,
}
use go_metrics.Crypto.Keys.Laws.{ReadsBack, keygen-load_keys}

abbrev first_byte : List ℕ → Option ℕ
first_byte [] = none
first_byte (k ∷ _) = some k

abbrev parsed : List ℕ → Parsed ℕ
parsed [] = unreadable
parsed (k ∷ _) = rsa_key k

abbrev decode : List ℕ → Option (String × List ℕ)
decode [] = none
decode (zero ∷ bytes) = some ("RSA PRIVATE KEY", bytes)
decode (suc n ∷ bytes) = some ("PUBLIC KEY", bytes)

abbrev numbers : KeyCodecs ℕ ℕ
numbers = record {
  pem_decode = decode;
  pem_encode = λ type bytes. (if type == "PUBLIC KEY" then 1 else 0) ∷ bytes;
  parse_pkix_public_key = parsed;
  parse_pkcs1_public_key = first_byte;
  parse_pkcs8_private_key = parsed;
  parse_pkcs1_private_key = first_byte;
  marshal_pkcs1_private_key = λ k. k ∷ [];
  marshal_pkix_public_key = λ p. some (p ∷ []);
  public_key = λ k. k + 1;
  generate_key = λ bits. some bits;
}

numbers-ReadsBack : ReadsBack numbers
numbers-ReadsBack = record {
  pem_private = λ bytes. refl;
  pem_public = λ bytes. refl;
  pkcs1 = λ bits k g. refl;
  pkix = λ bits k bytes g e. let same : (k + 1) ∷ [] ≡ bytes = cc e in rw (← same) refl;
}

abbrev disk : KeyFiles
disk = record {
  contents = λ f. none;
  can_create = λ f. true;
  can_write = λ f. true;
  cut_off = λ f. [];
}

two_files : (keygen numbers "private.pem" "public.pem" 2048 disk).0 ≡ none
unfolding keygen generate_key_pair save_private_key_to_file save_public_key_to_file write_pem
two_files = refl

one_file : (keygen numbers "key.pem" "key.pem" 2048 disk).0 ≡ none
unfolding keygen generate_key_pair save_private_key_to_file save_public_key_to_file write_pem
one_file = refl

abbrev private_pem : String
private_pem = "private.pem"

different : private_pem ≢ "public.pem"
different e = let f = (eq_iff private_pem "public.pem").1 e in cc f

keygen-load_keys_example :
    (k : ℕ) × (some 2048 ≡ some k)
    × (load_private_key numbers "private.pem"
          (keygen numbers "private.pem" "public.pem" 2048 disk).1
        ≡ loaded k)
    × (load_public_key numbers "public.pem" (keygen numbers "private.pem" "public.pem" 2048 disk).1
        ≡ loaded (k + 1))
keygen-load_keys_example =
    keygen-load_keys numbers numbers-ReadsBack "private.pem" "public.pem" 2048 disk different
      two_files
