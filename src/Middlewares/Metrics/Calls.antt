-- ===== src/Middlewares/Metrics/Calls.antt =====
-- The metrics that calls of Prometheus register, and what they say.
use walnats.Prelude.{
  ℕ, ◌≡◌, ◌≤◌, ◌+◌, ◌∙◌, sym, refl, ap, inl, inr, Bool, true, false, String, List, [], ◌∷◌, ◌++◌,
  arith, count_if, count_if-append, contains, string_eq, ◌==◌, eq_iff, Bool-cases, if◌then◌else◌,
}
use walnats.Exceptions.{ok, raise, ok-injective}
use walnats.Effects.{Act, ◌>>=◌}
use walnats.Context.{ActorNames}
use walnats.Middlewares.Metrics.{
  StatsdCall, increment, histogram, statsd_key, PrometheusCall, counter_made, histogram_made, inc,
  observe, Metrics, get_counter, get_histogram, count_up,
}

abbrev pub no_metrics : Metrics
no_metrics = record { counters = []; histograms = [] }

abbrev names_of : (event agent : String) → ActorNames
names_of event agent = record { name = agent; event_name = event }

-- The name that Statsd has for a counter of Prometheus.
abbrev kind_of : String → String
kind_of name =
    if name == "walnats_handler_started"
    then "started"
    else if name == "walnats_handler_failed"
    then "failed"
    else "processed"

-- The Statsd calls that say what calls of Prometheus say.
abbrev pub in_statsd : List PrometheusCall → List StatsdCall
in_statsd [] = []
in_statsd (inc name e a ∷ t) = increment (statsd_key (names_of e a) (kind_of name)) ∷ in_statsd t
in_statsd (observe name e a d ∷ t) =
    histogram (statsd_key (names_of e a) "duration") d ∷ in_statsd t
in_statsd (counter_made n ∷ t) = in_statsd t
in_statsd (histogram_made n ∷ t) = in_statsd t

in_statsd-append : (t u : List PrometheusCall) → in_statsd (t ++ u) ≡ in_statsd t ++ in_statsd u
in_statsd-append [] u = refl
in_statsd-append (inc n e a ∷ t) u = rw (in_statsd-append t u) refl
in_statsd-append (observe n e a d ∷ t) u = rw (in_statsd-append t u) refl
in_statsd-append (counter_made n ∷ t) u = in_statsd-append t u
in_statsd-append (histogram_made n ∷ t) u = in_statsd-append t u

-- A metric of this name is registered.
abbrev pub is_made : String → PrometheusCall → Bool
is_made n (counter_made k) = k == n
is_made n (histogram_made k) = k == n
is_made n _ = false

abbrev pub the_histogram : String
the_histogram = "walnats_handler_duration"

abbrev pub held : String → Metrics → ℕ
held n m =
    (elim (contains m.counters n) [ true ↦ 1 | false ↦ 0 ])
    + (elim (contains m.histograms n) [ true ↦ 1 | false ↦ 0 ])

-- No counter has the name of the histogram, and no histogram has another.
pub record Apart (m : Metrics) : Type 0 where
  pub no_counter : contains m.counters the_histogram ≡ false
  pub no_histogram : (n : String) → contains m.histograms n ≡ true → n ≡ the_histogram

-- Calls that give a state, register what the state has more, and say a list of Statsd calls.
pub record Does (said : List StatsdCall) (m : Metrics) (act : Act PrometheusCall Metrics)
    : Type 0 where
  pub result : Metrics
  pub returns : act.0 ≡ ok result
  pub apart : Apart result
  pub registers : (n : String) → count_if (is_made n) act.1 + held n m ≡ held n result
  pub says : in_statsd act.1 ≡ said

get_counter-Does :
    (name : String) (m : Metrics)
    → ((name == the_histogram) ≡ false)
    → Apart m
    → Does [] m (get_counter true name m)
unfolding get_counter
get_counter-Does name m other a = elim (Bool-cases (contains m.counters name)) [
  | inl hit ↦
      rw hit (record {
        result = m;
        returns = refl;
        apart = a;
        registers = λ n. omega arith;
        says = refl;
      })
  | inr miss ↦ rw miss (record {
    result = record m { counters = name ∷ m.counters };
    returns = refl;
    apart = record { no_counter = rw (other, a.no_counter) refl; no_histogram = a.no_histogram };
    registers = λ n. elim (Bool-cases (name == n)) [
      | inl same ↦ ground (arith, same, (eq_iff name n).0 same, miss)
      | inr differ ↦ ground (arith, differ)
    ];
    says = refl;
  })
]

pub get_histogram-Does : (m : Metrics) → Apart m → Does [] m (get_histogram true the_histogram m)
unfolding get_histogram
get_histogram-Does m a = elim (Bool-cases (contains m.histograms the_histogram)) [
  | inl hit ↦
      rw hit (record {
        result = m;
        returns = refl;
        apart = a;
        registers = λ n. omega arith;
        says = refl;
      })
  | inr miss ↦ rw miss (record {
    result = record m { histograms = the_histogram ∷ m.histograms };
    returns = refl;
    apart = record {
      no_counter = a.no_counter;
      no_histogram = λ n h. elim (Bool-cases (the_histogram == n)) [
        | inl same ↦ sym ((eq_iff the_histogram n).0 same)
        | inr differ ↦ a.no_histogram n (ground (arith, h, differ))
      ];
    };
    registers = λ n. elim (Bool-cases (the_histogram == n)) [
      | inl same ↦ ground (arith, same, (eq_iff the_histogram n).0 same, miss)
      | inr differ ↦ ground (arith, differ)
    ];
    says = refl;
  })
]

pub Does-bind :
    (said rest : List StatsdCall) (m : Metrics) (act : Act PrometheusCall Metrics)
    (f : Metrics → Act PrometheusCall Metrics)
    → Does said m act
    → ((m' : Metrics) → Apart m' → Does rest m' (f m'))
    → Does (said ++ rest) m (act >>= f)
Does-bind said rest m (raise e, t) f d g = absurd (cc d.returns)
Does-bind said rest m (ok r, t) f d g =
    let same : r ≡ d.result = ok-injective d.returns in
    let next = g r (rw same d.apart) in
    record {
      result = next.result;
      returns = next.returns;
      apart = next.apart;
      registers = λ n. omega (
        arith,
        count_if-append (is_made n) t (f r).1,
        d.registers n,
        next.registers n,
        ap (held n) same,
      );
      says =
          in_statsd-append t (f r).1
          ∙ (ap (λ l. l ++ in_statsd (f r).1) d.says ∙ ap (λ l. said ++ l) next.says);
    }

-- A call that registers nothing.
pub Does-plain :
    (c : PrometheusCall) (m : Metrics)
    → ((n : String) → is_made n c ≡ false)
    → Apart m
    → Does (in_statsd (c ∷ [])) m (ok m, c ∷ [])
Does-plain c m quiet a = record {
  result = m;
  returns = refl;
  apart = a;
  registers = λ n. rw (quiet n) (omega arith);
  says = refl;
}

pub count_up-Does :
    (name : String) (a : ActorNames) (m : Metrics)
    → ((name == the_histogram) ≡ false)
    → Apart m
    → Does (increment (statsd_key a (kind_of name)) ∷ []) m (count_up true name a m)
unfolding count_up
count_up-Does name a m other apart =
    Does-bind [] _ m (get_counter true name m) _ (get_counter-Does name m other apart)
      (λ m' apart'. Does-plain (inc name a.event_name a.name) m' (λ n. refl) apart')

pub none-Apart : Apart no_metrics
none-Apart = record { no_counter = refl; no_histogram = λ n h. cc }

pub held_once : (n : String) (m : Metrics) → Apart m → held n m ≤ 1
held_once n m a = elim (Bool-cases (contains m.histograms n)) [
  | inr absent ↦ ground (arith, absent)
  | inl there ↦ ground (arith, there, a.no_histogram n there, a.no_counter)
]
