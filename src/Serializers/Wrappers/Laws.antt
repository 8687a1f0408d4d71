-- ===== src/Serializers/Wrappers/Laws.antt =====
-- Round trips of the wrapping serializers, and what a signature excludes.
use walnats.Prelude.{
  ℕ, ◌≡◌, ◌∙◌, sym, ap, subst, refl, true, inl, inr, [], ◌∷◌, ◌++◌, arith, length, take, drop,
  take-append, drop-append, take-append-drop, Bool-cases,
}
use walnats.Exceptions.{ok, >>=-eq-ok, ok-injective}
use walnats.Serializers.Base.{Serializer, RoundTrips}
use walnats.Serializers.Wrappers.{
  Bytes, GZip, Fernet, Hmac, compare_digest, gzip, fernet, hmac_decode, hmac,
}

compare_digest_self : (xs : Bytes) → compare_digest xs xs ≡ true
compare_digest_self [] = refl
compare_digest_self (x ∷ xs) = ground (arith, compare_digest_self xs)

compare_digest_eq : (xs ys : Bytes) → compare_digest xs ys ≡ true → xs ≡ ys
compare_digest_eq [] [] h = refl
compare_digest_eq [] (y ∷ ys) h = absurd (cc h)
compare_digest_eq (x ∷ xs) [] h = absurd (cc h)
compare_digest_eq (x ∷ xs) (y ∷ ys) h = ground (arith, compare_digest_eq xs ys)

module _ {M : Type 0} (inner : Serializer M Bytes) (trip : RoundTrips inner) where
  -- A compressed serializer round-trips if the wrapped one does and decompression undoes compression.
  pub gzip_round_trip :
      (z : GZip) (level : ℕ)
      → ((b c : Bytes) → z.compress level b ≡ ok c → z.decompress c ≡ ok b)
      → (m : M) (b : Bytes) → (gzip inner z level).encode m ≡ ok b
      → (gzip inner z level).decode b ≡ ok m
  unfolding gzip
  gzip_round_trip z level undo m b h =
      let (c, encoded, compressed) = >>=-eq-ok (inner.encode m) (z.compress level) h in
      rw (undo c b compressed) (trip m c encoded)

  -- An encrypting serializer round-trips if the wrapped one does and decryption undoes encryption with
  -- the key.
  pub fernet_round_trip :
      {Key Seed : Type 0} (f : Fernet Key Seed) (key : Key) (seed : Seed)
      → ((b c : Bytes) → f.encrypt key seed b ≡ ok c → f.decrypt key c ≡ ok b)
      → (m : M) (b : Bytes) → (fernet inner f key seed).encode m ≡ ok b
      → (fernet inner f key seed).decode b ≡ ok m
  unfolding fernet
  fernet_round_trip f key seed undo m b h =
      let (c, encoded, encrypted) = >>=-eq-ok (inner.encode m) (f.encrypt key seed) h in
      rw (undo c b encrypted) (trip m c encoded)

module _ {M Key Algorithm : Type 0} (inner : Serializer M Bytes) (k : Hmac Key Algorithm)
    (key : Key) (a : Algorithm) where
  decode_signed :
      ((b : Bytes) → length (k.digest key a b) ≡ k.digest_size a)
      → (c : Bytes) → hmac_decode inner k key a (k.digest key a c ++ c) ≡ inner.decode c
  unfolding hmac_decode
  decode_signed sized c =
      let d = k.digest key a c in
      let front : take (k.digest_size a) (d ++ c) ≡ d =
        ap (λ n. take n (d ++ c)) (sym (sized c)) ∙ take-append d c in
      let back : drop (k.digest_size a) (d ++ c) ≡ c =
        ap (λ n. drop n (d ++ c)) (sym (sized c)) ∙ drop-append d c in
      rw (front, back) (rw (compare_digest_self d) refl)

  -- A signing serializer round-trips if the wrapped one does and digests have the size of the algorithm.
  pub hmac_round_trip :
      ((b : Bytes) → length (k.digest key a b) ≡ k.digest_size a)
      → RoundTrips inner
      → (m : M) (b : Bytes) → (hmac inner k key a).encode m ≡ ok b
      → (hmac inner k key a).decode b ≡ ok m
  unfolding hmac
  hmac_round_trip sized trip m b h =
      let (c, encoded, signed) =
        >>=-eq-ok (inner.encode m) (λ content. ok (k.digest key a content ++ content)) h in
      subst (λ x. hmac_decode inner k key a x ≡ ok m) (ok-injective signed)
        (decode_signed sized c ∙ trip m c encoded)

  -- What a signing serializer accepts is a digest of some content under the key, with that content behind
  -- it, and the message is what the wrapped serializer reads from the content. All else is refused.
  pub hmac_authentic :
      (payload : Bytes) (m : M)
      → hmac_decode inner k key a payload ≡ ok m
      → (content : Bytes) × (payload ≡ k.digest key a content ++ content)
        × (inner.decode content ≡ ok m)
  unfolding hmac_decode
  hmac_authentic payload m h =
      let n = k.digest_size a in
      let content = drop n payload in
      elim (Bool-cases (compare_digest (take n payload) (k.digest key a content))) [
        | inl same ↦ (
          content,
          sym (take-append-drop n payload) ∙ ap (λ d. d ++ content) (compare_digest_eq _ _ same),
          ground (arith, same),
        )
        | inr differ ↦ ground (arith, differ)
      ]
