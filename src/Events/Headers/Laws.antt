-- ===== src/Events/Headers/Laws.antt =====
-- What stands in the headers of an emitted message.
use walnats.Prelude.{ℕ, String, ◌≡◌, refl, Bool, Option, none, some, ◌==◌, string_eq, if◌then◌else◌}
use walnats.Prelude.Dict.{Dict, lookup, lookup-insert}
use walnats.Context.{header_delay, header_trace, header_reply}
use walnats.Events.Headers.{Platform, Meta, set_if, meta_headers, id_of, until, make_headers}

-- The value of a key, if one is set, and else what the headers had.
abbrev pub given : Bool → Option String → Option String → Option String
given same value old = elim value [ none ↦ old | some v ↦ if same then some v else old ]

lookup-set_if :
    (k j : String) (v : Option String) (d : Dict String)
    → lookup j (set_if k v d) ≡ given (k == j) v (lookup j d)
lookup-set_if k j none d = refl
lookup-set_if k j (some v) d = lookup-insert k j v d

module _ {Time : Type 0} (p : Platform Time) where
  -- The value of every header: the inbox, the delay, the trace and the ID take precedence in this
  -- order, each if it is given; the ID of a CloudEvent serves where no other is given; every other
  -- header is that of `meta`.
  pub lookup-make_headers :
      (uid trace_id : Option String) (delay : Option ℕ) (m : Meta Time) (reply : Option String)
      (k : String)
      → lookup k (make_headers p uid trace_id delay m reply)
        ≡ given (header_reply == k) reply (
            given (header_delay == k) (until p delay) (
              given
                (header_trace == k)
                trace_id
                (given (p.header_id == k) (id_of p uid m) (lookup k (meta_headers p m)))))
  unfolding make_headers
  lookup-make_headers uid trace_id delay m reply k = simp lookup-set_if
