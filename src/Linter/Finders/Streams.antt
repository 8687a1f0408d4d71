-- ===== src/Linter/Finders/Streams.antt =====
-- Events whose names the linter accepts (walnats/_linter/_finders.py), and their streams.
use walnats.Prelude.{ℕ, ◌≡◌, ◌≢◌, ◌∙◌, sym, List, [], ◌∷◌, All}
use walnats.Exceptions.{ok, ok-injective}
use walnats.Events.Event.{BaseEvent, stream_name, subject_name}
use walnats.Events.Sync.Register.{DistinctStreams}
use walnats.Linter.Tree.{Expr}
use walnats.Linter.Finders.{check_name}
use walnats.Linter.Finders.Names.{stream_name_clean}

module _ {Schema Ser : Type 0} (base : ℕ) (e : Expr) where
  -- The name of the event has no violation.
  abbrev pub IsClean : BaseEvent Schema Ser → Type 0
  IsClean v = check_name base e v.name ≡ []

  -- No two events have one name.
  abbrev pub DistinctNames : List (BaseEvent Schema Ser) → Type 0
  DistinctNames [] = Unit
  DistinctNames (v ∷ vs) = All (λ u. u.name ≢ v.name) vs × DistinctNames vs

  apart :
      (v : BaseEvent Schema Ser) (us : List (BaseEvent Schema Ser))
      → IsClean v
      → All IsClean us
      → All (λ u. u.name ≢ v.name) us
      → All (λ u. stream_name u ≢ stream_name v) us
  apart v [] clean all differ = tt
  apart v (u ∷ us) clean all differ = (
    λ same. differ.0 (
        ok-injective
          (sym (stream_name_clean base e u all.0) ∙ (same ∙ stream_name_clean base e v clean))),
    apart v us clean all.1 differ.1,
  )

  -- Events whose names have no violation, no two of them with one name, have streams that are called as
  -- their subjects, no two of them with one stream.
  pub clean-DistinctStreams :
      (events : List (BaseEvent Schema Ser))
      → All IsClean events
      → DistinctNames events
      → DistinctStreams events × All (λ v. stream_name v ≡ ok (subject_name v)) events
  clean-DistinctStreams [] all names = (tt, tt)
  clean-DistinctStreams (v ∷ vs) all names =
      let (streams, called) = clean-DistinctStreams vs all.1 names.1 in
      ((apart v vs all.0 all.1 names.0, streams), (stream_name_clean base e v all.0, called))
