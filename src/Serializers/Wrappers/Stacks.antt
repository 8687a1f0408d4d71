-- ===== src/Serializers/Wrappers/Stacks.antt =====
-- Serializers that are wrapped several times.
use walnats.Prelude.{ℕ, ◌≡◌, List, [], ◌∷◌, length}
use walnats.Exceptions.{ok}
use walnats.Serializers.Base.{Serializer, RoundTrips}
use walnats.Serializers.Wrappers.{Bytes, GZip, Fernet, Hmac, gzip, fernet, hmac}
use walnats.Serializers.Wrappers.Laws.{gzip_round_trip, fernet_round_trip, hmac_round_trip}

-- The packages that the wrappers call.
pub record Packages (Key Seed Algorithm : Type 0) : Type 0 where
  pub zip : GZip
  pub cipher : Fernet Key Seed
  pub mac : Hmac Key Algorithm

-- What the wrappers rely on: decompression and decryption undo what was done, and digests have the size of
-- their algorithm.
pub record IsSound {Key Seed Algorithm : Type 0} (p : Packages Key Seed Algorithm) : Type 0 where
  pub decompresses :
      (level : ℕ) (b c : Bytes) → p.zip.compress level b ≡ ok c → p.zip.decompress c ≡ ok b
  pub decrypts :
      (key : Key) (seed : Seed) (b c : Bytes)
      → p.cipher.encrypt key seed b ≡ ok c
      → p.cipher.decrypt key c ≡ ok b
  pub sized :
      (key : Key) (a : Algorithm) (b : Bytes) → length (p.mac.digest key a b) ≡ p.mac.digest_size a

pub data Wrapper (Key Seed Algorithm : Type 0) : Type 0 where
  compressed : ℕ → Wrapper Key Seed Algorithm
  encrypted : Key → Seed → Wrapper Key Seed Algorithm
  signed : Key → Algorithm → Wrapper Key Seed Algorithm

module _ {M Key Seed Algorithm : Type 0} (p : Packages Key Seed Algorithm)
    (inner : Serializer M Bytes) where
  -- The outermost wrapper stands first.
  abbrev pub wrap : List (Wrapper Key Seed Algorithm) → Serializer M Bytes
  wrap [] = inner
  wrap (compressed level ∷ ws) = gzip (wrap ws) p.zip level
  wrap (encrypted key seed ∷ ws) = fernet (wrap ws) p.cipher key seed
  wrap (signed key a ∷ ws) = hmac (wrap ws) p.mac key a

  -- However often and in whatever order a serializer is wrapped for compression, encryption and signatures,
  -- what the whole encodes it decodes to the same message, if the serializer itself does and the packages
  -- undo what they did.
  pub wrap-RoundTrips :
      IsSound p → RoundTrips inner → (ws : List (Wrapper Key Seed Algorithm)) → RoundTrips (wrap ws)
  wrap-RoundTrips sound trip [] = trip
  wrap-RoundTrips sound trip (compressed level ∷ ws) =
      gzip_round_trip (wrap ws) (wrap-RoundTrips sound trip ws) p.zip level
        (sound.decompresses level)
  wrap-RoundTrips sound trip (encrypted key seed ∷ ws) =
      fernet_round_trip (wrap ws) (wrap-RoundTrips sound trip ws) p.cipher key seed
        (sound.decrypts key seed)
  wrap-RoundTrips sound trip (signed key a ∷ ws) =
      hmac_round_trip (wrap ws) p.mac key a (sound.sized key a) (wrap-RoundTrips sound trip ws)
