-- ===== src/Events/CloudEvent.antt =====
-- `CloudEvent` of walnats/_events/_cloud_event.py. `datetime` is the type `Time` with its
-- `isoformat()` and `str()`, and `str()` of an int is a parameter too.
pub mod Laws
use walnats.Prelude.{ℕ, String, ◌<>◌, Option, none, some, List, [], ◌∷◌}
use walnats.Prelude.Dict.{Dict, insert}

pub record CloudEvent (Time : Type 0) : Type 0 where
  pub id : String
  pub source : String
  pub kind : String
  pub specversion : String
  pub datacontenttype : Option String
  pub dataschema : Option String
  pub subject : Option String
  pub time : Option Time
  pub dataref : Option String
  pub partitionkey : Option String
  pub sampledrate : Option ℕ
  pub sequence : Option String
  pub traceparent : Option String
  pub tracestate : Option String

-- A value of `asdict(self)` that is not `None`.
pub data Attribute (Time : Type 0) : Type 0 where
  string : String → Attribute Time
  number : ℕ → Attribute Time
  moment : Time → Attribute Time

pub record Printing (Time : Type 0) : Type 0 where
  pub isoformat : Time → String
  pub str_time : Time → String
  pub str_int : ℕ → String

module _ {Time : Type 0} where
  abbrev opt_text : Option String → Option (Attribute Time)
  opt_text none = none
  opt_text (some s) = some (string s)

  abbrev opt_number : Option ℕ → Option (Attribute Time)
  opt_number none = none
  opt_number (some n) = some (number n)

  abbrev opt_moment : Option Time → Option (Attribute Time)
  opt_moment none = none
  opt_moment (some t) = some (moment t)

  -- `asdict(self)`; the field `kind` is called `type` in the source.
  asdict : CloudEvent Time → Dict (Option (Attribute Time))
  asdict e =
      ("id", some (string e.id))
      ∷ ("source", some (string e.source))
      ∷ ("type", some (string e.kind))
      ∷ ("specversion", some (string e.specversion))
      ∷ ("datacontenttype", opt_text e.datacontenttype)
      ∷ ("dataschema", opt_text e.dataschema)
      ∷ ("subject", opt_text e.subject)
      ∷ ("time", opt_moment e.time)
      ∷ ("dataref", opt_text e.dataref)
      ∷ ("partitionkey", opt_text e.partitionkey)
      ∷ ("sampledrate", opt_number e.sampledrate)
      ∷ ("sequence", opt_text e.sequence)
      ∷ ("traceparent", opt_text e.traceparent)
      ∷ ("tracestate", opt_text e.tracestate)
      ∷ []

  -- `{k: v for k, v in ... if v is not None}`
  present : Dict (Option (Attribute Time)) → Dict (Attribute Time)
  present [] = []
  present ((k, none) ∷ d) = present d
  present ((k, some v) ∷ d) = (k, v) ∷ present d

  module _ (p : Printing Time) where
    unfoldable pub as_dict : CloudEvent Time → Dict (Attribute Time)
    unfolding asdict present
    as_dict e =
        let result = present (asdict e) in
        elim e.time [
          | none ↦ result
          | some t ↦ insert "time" (string (p.isoformat t <> "Z")) result
        ]

    abbrev pub str : Attribute Time → String
    str (string s) = s
    str (number n) = p.str_int n
    str (moment t) = p.str_time t

    prefixed : Dict (Attribute Time) → Dict String
    prefixed [] = []
    prefixed ((k, v) ∷ d) = ("ce-" <> k, str v) ∷ prefixed d

    unfoldable pub as_headers : CloudEvent Time → Dict String
    unfolding prefixed
    as_headers e = prefixed (as_dict e)
