-- ===== src/Serializers/Wrappers.antt =====
-- `GZipSerializer`, `FernetSerializer` and `HMACSerializer` (walnats/serializers/_wrappers.py). Bytes are
-- lists of numbers; compression, encryption and digests are parameters.
pub mod Laws
pub mod Stacks
use walnats.Prelude.{
  ℕ, Bool, true, false, List, [], ◌∷◌, ◌++◌, take, drop, nat_beq, if◌then◌else◌, ◌&&◌,
}
use walnats.Exceptions.{Result, ok, raise, exception, ◌>>=◌}
use walnats.Serializers.Base.{Serializer}

abbrev pub Bytes : Type 0
Bytes = List ℕ

-- `gzip.compress(data, compresslevel)` and `gzip.decompress(data)`.
pub record GZip : Type 0 where
  pub compress : ℕ → Bytes → Result Bytes
  pub decompress : Bytes → Result Bytes

-- `Fernet(key).encrypt(data)`, with the moment and the random IV that it takes, and `decrypt`.
pub record Fernet (Key Seed : Type 0) : Type 0 where
  pub encrypt : Key → Seed → Bytes → Result Bytes
  pub decrypt : Key → Bytes → Result Bytes

-- `hmac.digest(key, msg, name)`, and the size of the digests of an algorithm.
pub record Hmac (Key Algorithm : Type 0) : Type 0 where
  pub digest : Key → Algorithm → Bytes → Bytes
  pub digest_size : Algorithm → ℕ

-- `hmac.compare_digest`
abbrev pub compare_digest : Bytes → Bytes → Bool
compare_digest [] [] = true
compare_digest (x ∷ xs) (y ∷ ys) = nat_beq x y && compare_digest xs ys
compare_digest _ _ = false

module _ {M : Type 0} (inner : Serializer M Bytes) where
  unfoldable pub gzip : GZip → ℕ → Serializer M Bytes
  gzip z level = record {
    encode = λ message. inner.encode message >>= λ content. z.compress level content;
    decode = λ payload. z.decompress payload >>= λ content. inner.decode content;
  }

  unfoldable pub fernet : {Key Seed : Type 0} → Fernet Key Seed → Key → Seed → Serializer M Bytes
  fernet f key seed = record {
    encode = λ message. inner.encode message >>= λ content. f.encrypt key seed content;
    decode = λ payload. f.decrypt key payload >>= λ content. inner.decode content;
  }

  module _ {Key Algorithm : Type 0} (h : Hmac Key Algorithm) (key : Key) (a : Algorithm) where
    unfoldable pub hmac_encode : M → Result Bytes
    hmac_encode message = inner.encode message >>= λ content. ok (h.digest key a content ++ content)

    unfoldable pub hmac_decode : Bytes → Result M
    hmac_decode payload =
        let actual_digest = take (h.digest_size a) payload in
        let content = drop (h.digest_size a) payload in
        if compare_digest actual_digest (h.digest key a content)
        then inner.decode content
        else raise (exception "ValueError")

    unfoldable pub hmac : Serializer M Bytes
    unfolding hmac_encode hmac_decode
    hmac = record { encode = hmac_encode; decode = hmac_decode }
