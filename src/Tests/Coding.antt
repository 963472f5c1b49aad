-- ===== src/Tests/Coding.antt =====
-- Payloads under toy libraries that are inverse to each other.
use mcp_persist.Prelude.{
  ℕ, zero, suc, after_prefix, after_prefix_append, ◌==◌, ◌≡◌, ◌≢◌, refl, ap, arith, true, List, [],
  ◌∷◌, ◌++◌, Option, none, some, Text, codes, Bool-cases, inl, inr,
}
use mcp_persist.Sqlite.State.{IsFaithful}
use mcp_persist.Payload.Library.{Bytes, Library, IsInverse, IsAuthentic}
use mcp_persist.Payload.Compression.{gzip}
use mcp_persist.Payload.Encryption.{KeyRing, key_ring, event_context}
use mcp_persist.Payload.Coding.{Settings, encode_payload, decode_payload}
use mcp_persist.Payload.RoundTrip.{IsUsable}
use mcp_persist.Payload.Binding.{decode_payload_elsewhere, key_ring-IsUsable}
use mcp_persist.Payload.Codec.{Json, IsJson, payload_codec, payload_codec-IsFaithful}

-- The associated data in front of a text, so that no two share a beginning.
abbrev mark : Bytes → Bytes
mark [] = 0 ∷ []
mark (c ∷ a) = 1 ∷ c ∷ mark a

abbrev tag : Option Bytes → Bytes
tag none = 0 ∷ []
tag (some aad) = 1 ∷ mark aad

after_prefix-mark : (a b p : Bytes) → a ≢ b → after_prefix (mark b) (mark a ++ p) ≡ none
after_prefix-mark [] [] p ne = absurd (ne refl)
after_prefix-mark [] (d ∷ b) p ne = refl
after_prefix-mark (c ∷ a) [] p ne = refl
after_prefix-mark (c ∷ a) (d ∷ b) p ne = elim (Bool-cases (d == c)) [
  | inl e ↦ rw e (after_prefix-mark a b p (λ same. ne (ground (arith, e, same))))
  | inr e ↦ rw e
]

after_prefix-tag :
    (a b : Option Bytes) (p : Bytes) → a ≢ b → after_prefix (tag b) (tag a ++ p) ≡ none
after_prefix-tag none none p ne = absurd (ne refl)
after_prefix-tag none (some b) p ne = refl
after_prefix-tag (some a) none p ne = refl
after_prefix-tag (some a) (some b) p ne = after_prefix-mark a b p (λ e. ne (ap some e))

abbrev toy : Library
toy = record {
  utf8 = λ t. t;
  utf8_decode = λ b. some b;
  b64encode = λ b. b;
  b64decode = λ t. some t;
  gzip = λ b. b;
  gunzip = λ b. some b;
  zstd = λ b. b;
  unzstd = λ b. some b;
  aes_encrypt = λ key nonce plain aad. tag aad ++ plain;
  aes_decrypt = λ key nonce cipher aad. after_prefix (tag aad) cipher;
}

toy-IsInverse : IsInverse toy
toy-IsInverse = record {
  utf8_back = λ t. refl;
  b64_back = λ b. refl;
  gzip_back = λ b. refl;
  zstd_back = λ b. refl;
  aes_back = λ key nonce plain aad. after_prefix_append (tag aad) plain;
}

toy-IsAuthentic : IsAuthentic toy
toy-IsAuthentic = record {
  utf8_injective = λ s t e. e;
  aes_refuses = λ key nonce plain aad other ne. after_prefix-tag aad other plain ne;
}

abbrev zeros : ℕ → Bytes
zeros zero = []
zeros (suc n) = 0 ∷ zeros n

abbrev keys : List (Text × Bytes)
keys = (codes "k1", zeros 32) ∷ []

abbrev ring : KeyRing
ring = record { keys = keys; active_key_id = codes "k1"; bind_context = true }

abbrev settings : Settings
settings = record { compression = some gzip; compress_min_bytes = 2; keyring = some ring }

decode_payload_elsewhere_example :
    (t : Text) × (encode_payload toy settings
        (zeros 12)
        (codes "{}")
        (some (event_context (codes "a")))
      ≡ some t)
    × (decode_payload toy settings t (some (event_context (codes "b"))) ≡ none)
decode_payload_elsewhere_example =
    decode_payload_elsewhere toy toy-IsInverse toy-IsAuthentic settings keys (codes "k1") ring
      (zeros 12) b'{' (codes "}") (codes "a") (codes "b") (unfold key_ring in refl) refl refl
      (λ e. ground arith)

-- One message, "{}".
abbrev json : Json (Unit {0})
json = record { dump = λ m. codes "{}"; validate = λ t. some tt }

json-IsJson : IsJson toy json
json-IsJson = record {
  plain = λ m. (refl, refl, refl, refl);
  full = λ m e. ground (arith, e);
  size = λ m. omega arith;
  back = λ m. refl;
}

ring-IsUsable : IsUsable ring
ring-IsUsable = key_ring-IsUsable keys (codes "k1") true ring (unfold key_ring in refl)

payload_codec-IsFaithful_example : IsFaithful (payload_codec toy settings json (zeros 12))
payload_codec-IsFaithful_example =
    payload_codec-IsFaithful toy settings json (zeros 12) toy-IsInverse json-IsJson ring-IsUsable
      refl
