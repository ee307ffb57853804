-- ===== src/Hash.antt =====
-- internal/utils/hash.go. Bytes are texts here, and `hmac text key` is the hex text of the
-- HMAC-SHA256 of `text` under `key` (crypto/hmac, crypto/sha256, encoding/hex).
use go_metrics.Common.{String, Bool, true, ◌||◌, ◌==◌, if◌then◌else◌}

module _ (hmac : String → String → String) where
  unfoldable pub calculate_hash : String → String → String
  calculate_hash text key = if key == "" then "" else hmac text key

  -- `hmac.Equal` compares all bytes.
  unfoldable pub verify_hash : String → String → String → Bool
  unfolding calculate_hash
  verify_hash text key expected =
      if key == "" || expected == "" then true else calculate_hash text key == expected
