-- ===== src/Tests/Serializers.antt =====
-- The theorems about walnats/serializers at concrete data.
use walnats.Prelude.{
  String, Bool, ◌==◌, string_eq, if◌then◌else◌, ◌∙◌, ℕ, ◌≡◌, refl, ap, sym, true, false, List, [],
  ◌∷◌, ◌++◌,
}
use walnats.Exceptions.{Result, ok, raise, exception, ok-injective}
use walnats.Serializers.Base.{Serializer, RoundTrips}
use walnats.Serializers.Wrappers.{Bytes, GZip, Fernet, Hmac, hmac_decode, gzip, fernet, hmac}
use walnats.Serializers.Wrappers.Laws.{hmac_authentic}
use walnats.Serializers.Registry.{Class, class, Installed, Kind, primitive, get_serializer}
use walnats.Serializers.Registry.Choice.{supports}
use walnats.Serializers.Instances as Instances
use walnats.Serializers.Instances.{ReadsBack, instance_of, get_serializer-RoundTrips}
use walnats.Serializers.Wrappers.Stacks.{
  Packages, IsSound, Wrapper, compressed, encrypted, signed, wrap, wrap-RoundTrips,
}

-- `BytesSerializer`, a compression that marks its output, and a digest of one byte.
abbrev raw : Serializer Bytes Bytes
raw = record { encode = λ m. ok m; decode = λ b. ok b }

raw_trip : RoundTrips raw
raw_trip m b e = ap ok (sym (ok-injective e))

unmark : Bytes → Result Bytes
unmark [] = raise (exception "BadGzipFile")
unmark (x ∷ xs) = ok xs

abbrev marking : GZip
marking = record { compress = λ level b. ok (31 ∷ b); decompress = unmark }

abbrev sealing : Fernet ℕ ℕ
sealing = record { encrypt = λ key seed b. ok (seed ∷ b); decrypt = λ key b. unmark b }

abbrev sum_digest : Hmac ℕ ℕ
sum_digest = record { digest = λ key a b. key ∷ []; digest_size = λ a. 1 }

abbrev payload : Bytes
payload = 1 ∷ 2 ∷ []

unmark_marked : (x : ℕ) (b c : Bytes) → ok (x ∷ b) ≡ ok c → unmark c ≡ ok b
unfolding unmark
unmark_marked x b c e = rw (sym (ok-injective e)) refl

hmac_authentic_example :
    (content : Bytes) × (8 ∷ payload ≡ (8 ∷ []) ++ content) × (raw.decode content ≡ ok payload)
unfolding hmac_decode
hmac_authentic_example = hmac_authentic raw sum_digest 8 0 (8 ∷ payload) payload refl

altered : hmac_decode raw sum_digest 8 0 (9 ∷ payload) ≡ raise (exception "ValueError")
unfolding hmac_decode
altered = refl

abbrev nothing_installed : Installed
nothing_installed = record { pydantic = false; protobuf = false; marshmallow = false }

abbrev int_class : Class
int_class = record {
  is_pydantic = false;
  is_protobuf = false;
  is_dataclass = false;
  is_bytes = false;
  is_datetime = false;
  is_builtin = true;
  is_none_type = false;
  is_marshmallow = false;
}

abbrev packages : Packages ℕ ℕ ℕ
packages = record { zip = marking; cipher = sealing; mac = sum_digest }

sound : IsSound packages
sound = record {
  decompresses = λ level b c e. unmark_marked 31 b c e;
  decrypts = λ key seed b c e. unmark_marked seed b c e;
  sized = λ key a b. refl;
}

-- Signed after it was encrypted, after it was compressed.
abbrev stack : List (Wrapper ℕ ℕ ℕ)
stack = signed 8 0 ∷ encrypted 5 6 ∷ compressed 9 ∷ []

stacked : (wrap packages raw stack).encode payload ≡ ok (8 ∷ 6 ∷ 31 ∷ payload)
unfolding hmac fernet gzip
stacked = refl

wrap-RoundTrips_example : (wrap packages raw stack).decode (8 ∷ 6 ∷ 31 ∷ payload) ≡ ok payload
wrap-RoundTrips_example =
    wrap-RoundTrips packages raw sound raw_trip stack payload (8 ∷ 6 ∷ 31 ∷ payload) stacked

-- Objects that are two values, which every package writes as one of two texts.
abbrev text_of : Bool → String
text_of true = "true"
text_of false = "false"

abbrev value_of : String → Result Bool
value_of t =
    if t == "true"
    then ok true
    else if t == "false"
    then ok false
    else raise (exception "JSONDecodeError")

value_of-text_of : (v : Bool) → value_of (text_of v) ≡ ok v
value_of-text_of true = refl
value_of-text_of false = refl

reads_text : (v : Bool) (t : String) → ok (text_of v) ≡ ok t → value_of t ≡ ok v
reads_text v t h = rw (sym (ok-injective h)) (value_of-text_of v)

abbrev libraries : Instances.Packages String Bool (λ k. Bool)
libraries = record {
  utf8 = record { encode = λ t. ok t; decode = λ b. ok b };
  json = record { dumps = λ v. ok (text_of v); loads = value_of };
  models = record { json = λ m. ok (text_of m); parse_raw = value_of };
  protos = record { serialize = λ m. ok (text_of m); from_string = value_of };
  data_objects = record { asdict = λ m. ok m; construct = λ v. ok v };
  dates = record { isoformat = text_of; fromisoformat = value_of };
  documents = record { dumps = λ m. ok (text_of m); loads = value_of };
}

libraries-ReadsBack : ReadsBack libraries
libraries-ReadsBack = record {
  texts = λ t b h. sym h;
  values = λ v t b h e. reads_text v b (h ∙ e);
  models = λ m t b h e. reads_text m b (h ∙ e);
  protos = reads_text;
  data_objects = λ m v h. sym h;
  dates = value_of-text_of;
  documents = reads_text;
}

-- The schema `int` of an event.
get_serializer-RoundTrips_example :
    (found : Kind) × (get_serializer nothing_installed (class int_class) ≡ ok found)
    × (supports nothing_installed found int_class ≡ true)
    × RoundTrips (instance_of libraries found)
get_serializer-RoundTrips_example =
    get_serializer-RoundTrips libraries libraries-ReadsBack nothing_installed int_class primitive
      refl
