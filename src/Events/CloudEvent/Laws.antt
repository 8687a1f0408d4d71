-- ===== src/Events/CloudEvent/Laws.antt =====
-- The headers of a `CloudEvent`.
use mathlib.Core.Option
use text.Mathlib.TextLemmas.{append_cancel_left}
use walnats.Prelude.{
  String, ◌<>◌, ◌≡◌, ◌≢◌, refl, Option, none, some, [], ◌∷◌, arith, ◌==◌, string_eq, if◌then◌else◌,
  eq_iff, false, Option-cases, inl, inr,
}
use walnats.Prelude.Dict.{Dict, lookup, lookup-insert}
use walnats.Events.CloudEvent.{
  CloudEvent, Attribute, string, Printing, asdict, present, as_dict, str, prefixed, as_headers,
}

abbrev or_else {ℓ} : {A : Type ℓ} → Option A → Option A → Option A
or_else none b = b
or_else (some a) b = some a

module _ {Time : Type 0} (p : Printing Time) where
  lookup-present :
      (k j : String) (o : Option (Attribute Time)) (d : Dict (Option (Attribute Time)))
      → lookup k (present ((j, o) ∷ d))
        ≡ (if j == k then or_else o (lookup k (present d)) else lookup k (present d))
  unfolding present lookup
  lookup-present k j none d = ground arith
  lookup-present k j (some v) d = ground arith

  lookup-prefixed :
      (k : String) (d : Dict (Attribute Time))
      → lookup ("ce-" <> k) (prefixed p d) ≡ Option.map (str p) (lookup k d)
  unfolding prefixed lookup
  lookup-prefixed k [] = refl
  lookup-prefixed k ((j, v) ∷ d) = ground (
    arith,
    lookup-prefixed k d,
    eq_iff j k,
    eq_iff ("ce-" <> j) ("ce-" <> k),
    append_cancel_left "ce-" j k,
  )

  module _ (e : CloudEvent Time) where
    -- The header of an attribute other than the time is the text of its field.
    header_of :
        (k : String)
        → ("time" == k) ≡ false
        → lookup ("ce-" <> k) (as_headers p e) ≡ Option.map (str p) (lookup k (present (asdict e)))
    unfolding as_headers as_dict
    header_of k other = elim (Option-cases e.time) [
      | inl absent ↦ rw (lookup-prefixed, absent) refl
      | inr (t, timed) ↦ rw lookup-prefixed (
          ground (
            arith,
            timed,
            other,
            lookup-insert "time" k (string (p.isoformat t <> "Z")) (present (asdict e)),
          ))
    ]

    abbrev pub header : String → Option String
    header k = lookup ("ce-" <> k) (as_headers p e)

    header_time : header "time" ≡ Option.map (λ t. p.isoformat t <> "Z") e.time
    unfolding as_headers as_dict
    header_time = elim (Option-cases e.time) [
      | inl absent ↦ rw lookup-prefixed (unfold asdict present lookup in ground (arith, absent))
      | inr (t, timed) ↦ rw lookup-prefixed (
          ground (
            arith,
            timed,
            lookup-insert "time" "time" (string (p.isoformat t <> "Z")) (present (asdict e)),
          ))
    ]

    -- The values of headers, by the names of the attributes: each attribute that is set has its text, one
    -- that is `None` has none, the time is in ISO format with a Z behind it, and the sampled rate is
    -- printed.
    abbrev pub HasAttributes : (String → Option String) → Type 0
    HasAttributes value =
        (value "id" ≡ some e.id)
        × (value "source" ≡ some e.source)
        × (value "type" ≡ some e.kind)
        × (value "specversion" ≡ some e.specversion)
        × (value "datacontenttype" ≡ e.datacontenttype)
        × (value "dataschema" ≡ e.dataschema)
        × (value "subject" ≡ e.subject)
        × (value "time" ≡ Option.map (λ t. p.isoformat t <> "Z") e.time)
        × (value "dataref" ≡ e.dataref)
        × (value "partitionkey" ≡ e.partitionkey)
        × (value "sampledrate" ≡ Option.map p.str_int e.sampledrate)
        × (value "sequence" ≡ e.sequence)
        × (value "traceparent" ≡ e.traceparent)
        × (value "tracestate" ≡ e.tracestate)

    pub header_values : HasAttributes header
    unfolding asdict present lookup
    header_values = (
      header_of "id" refl,
      header_of "source" refl,
      header_of "type" refl,
      header_of "specversion" refl,
      ground (arith, header_of "datacontenttype" refl),
      ground (arith, header_of "dataschema" refl),
      ground (arith, header_of "subject" refl),
      header_time,
      ground (arith, header_of "dataref" refl),
      ground (arith, header_of "partitionkey" refl),
      ground (arith, header_of "sampledrate" refl),
      ground (arith, header_of "sequence" refl),
      ground (arith, header_of "traceparent" refl),
      ground (arith, header_of "tracestate" refl),
    )

  -- No header of an event has a name that does not begin as they do.
  lookup-unprefixed :
      (n : String) (d : Dict (Attribute Time))
      → ((k : String) → ("ce-" <> k) ≢ n)
      → lookup n (prefixed p d) ≡ none
  unfolding prefixed lookup
  lookup-unprefixed n [] apart = refl
  lookup-unprefixed n ((j, v) ∷ d) apart =
      ground (arith, lookup-unprefixed n d apart, eq_iff ("ce-" <> j) n, apart j)

  pub no_header :
      (e : CloudEvent Time) (n : String)
      → ((k : String) → ("ce-" <> k) ≢ n)
      → lookup n (as_headers p e) ≡ none
  unfolding as_headers
  no_header e n apart = lookup-unprefixed n (as_dict p e) apart
