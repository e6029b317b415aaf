-- ===== src/Metrics/Latency.antt =====
-- The latency histograms of internal/metrics/metrics.go against the list of what was observed.
use mathlib.Core.Path.{subst}
use high_performance_kv_stor.Prelude.{
  ℕ, suc, ◌+◌, ◌%◌, ◌^◌, ◌≤◌, ◌≡◌, refl, ◌∙◌, ap, List, [], ◌∷◌, map, some, leb, length, String,
  ◌==◌, if◌then◌else◌, Bool-cases, inl, inr, arith,
}
use high_performance_kv_stor.Prelude.Table.{lookup, lookup-insert}
use high_performance_kv_stor.Metrics.{
  HistogramKey, histogram_eq, BucketCounters, MetricsCollector, new_metrics_collector, get_or_else,
  add_uint64, no_latencies, latency_buckets, latency_labels, place, observe, record_latency, Line,
  count, seconds, bucket_line, histogram_line, bucket_lines, histogram_lines,
}

-- How many of the durations are at most a limit.
abbrev pub count_le : ℕ → List ℕ → ℕ
count_le limit [] = 0
count_le limit (d ∷ ds) = if leb d limit then suc (count_le limit ds) else count_le limit ds

abbrev pub sum_of : List ℕ → ℕ
sum_of [] = 0
sum_of (d ∷ ds) = d + sum_of ds

-- The sums that the lines of the buckets print, and the one that the last line prints.
abbrev running : ℕ → List ℕ → List ℕ
running acc [] = []
running acc (c ∷ counts) = add_uint64 acc c ∷ running (add_uint64 acc c) counts

abbrev final : ℕ → List ℕ → ℕ → ℕ
final acc [] inf = add_uint64 acc inf
final acc (c ∷ counts) inf = final (add_uint64 acc c) counts inf

abbrev IsAscending : ℕ → List ℕ → Type 0
IsAscending low [] = Unit
IsAscending low (l ∷ limits) = (low ≤ l) × IsAscending l limits

-- One more for each limit that the duration does not exceed.
abbrev raise : ℕ → List ℕ → List ℕ → List ℕ
raise d (l ∷ limits) (r ∷ rs) = (if leb d l then add_uint64 r 1 else r) ∷ raise d limits rs
raise d limits rs = rs

add_uint64-swap : (a b : ℕ) → add_uint64 (add_uint64 a 1) b ≡ add_uint64 (add_uint64 a b) 1
add_uint64-swap a b = omega arith

add_uint64-later : (a b : ℕ) → add_uint64 a (add_uint64 b 1) ≡ add_uint64 (add_uint64 a b) 1
add_uint64-later a b = omega arith

-- Above the limit that took it, every sum is one more.
running-shift :
    (d low : ℕ) (limits counts : List ℕ) (acc : ℕ)
    → d ≤ low
    → IsAscending low limits
    → length counts ≡ length limits
    → running (add_uint64 acc 1) counts ≡ raise d limits (running acc counts)
running-shift d low [] [] acc le up same = refl
running-shift d low (l ∷ limits) (c ∷ counts) acc le up same =
    ground (arith, add_uint64-swap acc c, running-shift d l limits counts (add_uint64 acc c))
running-shift d low limits counts acc le up same = absurd (omega arith)

final-shift :
    (counts : List ℕ) (acc inf : ℕ)
    → final (add_uint64 acc 1) counts inf ≡ add_uint64 (final acc counts inf) 1
final-shift [] acc inf = add_uint64-swap acc inf
final-shift (c ∷ counts) acc inf =
    ap (λ a. final a counts inf) (add_uint64-swap acc c) ∙ final-shift counts (add_uint64 acc c) inf

running-place :
    (d low : ℕ) (limits counts : List ℕ) (inf acc : ℕ)
    → IsAscending low limits
    → length counts ≡ length limits
    → running acc (place d limits counts inf).0 ≡ raise d limits (running acc counts)
unfolding place
running-place d low [] [] inf acc up same = refl
running-place d low (l ∷ limits) (c ∷ counts) inf acc up same = elim (Bool-cases (leb d l)) [
  | inl within ↦
      let shifted =
        running-shift d l limits counts (add_uint64 acc c) (ground arith) up.1 (omega arith) in
      rw (within, add_uint64-later acc c) (ap (λ rs. add_uint64 (add_uint64 acc c) 1 ∷ rs) shifted)
  | inr beyond ↦ rw beyond (
      ap (λ rs. add_uint64 acc c ∷ rs)
        (running-place d l limits counts inf (add_uint64 acc c) up.1 (omega arith)))
]
running-place d low limits counts inf acc up same = absurd (omega arith)

final-place :
    (d : ℕ) (limits counts : List ℕ) (inf acc : ℕ)
    → length counts ≡ length limits
    → final acc (place d limits counts inf).0 (place d limits counts inf).1
      ≡ add_uint64 (final acc counts inf) 1
unfolding place
final-place d [] [] inf acc same = add_uint64-later acc inf
final-place d (l ∷ limits) (c ∷ counts) inf acc same = elim (Bool-cases (leb d l)) [
  | inl within ↦ rw (within, add_uint64-later acc c) (final-shift counts (add_uint64 acc c) inf)
  | inr beyond ↦ rw beyond (final-place d limits counts inf (add_uint64 acc c) (omega arith))
]
final-place d limits counts inf acc same = absurd (omega arith)

length-place :
    (d : ℕ) (limits counts : List ℕ) (inf : ℕ)
    → length (place d limits counts inf).0 ≡ length counts
unfolding place
length-place d (l ∷ limits) (c ∷ counts) inf = ground (arith, length-place d limits counts inf)
length-place d limits counts inf = refl

raise-count_le :
    (d : ℕ) (ds limits : List ℕ)
    → raise d limits (map (λ l. count_le l ds % 2 ^ 64) limits)
      ≡ map (λ l. count_le l (d ∷ ds) % 2 ^ 64) limits
raise-count_le d ds [] = refl
raise-count_le d ds (l ∷ limits) = ground (arith, raise-count_le d ds limits)

-- What the counters of one histogram are after these durations.
pub record IsHistogramOf (ds : List ℕ) (hist : BucketCounters) : Type 0 where
  pub sized : length hist.counts ≡ 10
  pub within : running 0 hist.counts ≡ map (λ l. count_le l ds % 2 ^ 64) latency_buckets
  pub all : final 0 hist.counts hist.inf ≡ length ds % 2 ^ 64
  pub summed : hist.sum ≡ sum_of ds % 2 ^ 64
  pub counted : hist.count ≡ length ds % 2 ^ 64

observe-IsHistogramOf :
    (d : ℕ) (ds : List ℕ) (hist : BucketCounters)
    → IsHistogramOf ds hist
    → IsHistogramOf (d ∷ ds) (observe d hist)
unfolding observe
observe-IsHistogramOf d ds hist h =
    let ascending : IsAscending 0 latency_buckets = ground arith in
    record {
      sized = length-place d latency_buckets hist.counts hist.inf ∙ h.sized;
      within =
          running-place d 0 latency_buckets hist.counts hist.inf 0 ascending h.sized
          ∙ ap (raise d latency_buckets) h.within
          ∙ raise-count_le d ds latency_buckets;
      all = final-place d latency_buckets hist.counts hist.inf 0 h.sized ∙ omega (arith, h.all);
      summed = omega (arith, h.summed);
      counted = omega (arith, h.counted);
    }

no_latencies-IsHistogramOf : IsHistogramOf [] no_latencies
no_latencies-IsHistogramOf = record {
  sized = refl;
  within = refl;
  all = refl;
  summed = refl;
  counted = refl;
}

-- What was recorded: a key and a duration, the newest first.
abbrev pub recorded : List (HistogramKey × ℕ) → MetricsCollector
recorded [] = new_metrics_collector
recorded ((key, d) ∷ os) = record_latency key d (recorded os)

abbrev pub durations_of : HistogramKey → List (HistogramKey × ℕ) → List ℕ
durations_of key [] = []
durations_of key ((k, d) ∷ os) = if k == key then d ∷ durations_of key os else durations_of key os

abbrev histogram_at : HistogramKey → MetricsCollector → BucketCounters
histogram_at key mc = get_or_else no_latencies (lookup key mc.histograms)

histogram_at-new : (key : HistogramKey) → histogram_at key new_metrics_collector ≡ no_latencies
unfolding lookup
histogram_at-new key = refl

histogram_at-record_latency :
    (k key : HistogramKey) (d : ℕ) (mc : MetricsCollector)
    → histogram_at key (record_latency k d mc)
      ≡ (if k == key then observe d (histogram_at key mc) else histogram_at key mc)
unfolding record_latency
histogram_at-record_latency k key d mc =
    rw (lookup-insert k key (observe d (histogram_at k mc)) mc.histograms)
      (elim (Bool-cases (k == key)) [
        | inl same ↦
            rw same (ap (λ x. observe d (histogram_at x mc)) ((histogram_eq.same_iff k key).0 same))
        | inr other ↦ rw other refl
      ])

recorded-IsHistogramOf :
    (key : HistogramKey) (os : List (HistogramKey × ℕ))
    → IsHistogramOf (durations_of key os) (histogram_at key (recorded os))
recorded-IsHistogramOf key [] = rw (histogram_at-new key) no_latencies-IsHistogramOf
recorded-IsHistogramOf key ((k, d) ∷ os) =
    let before = recorded-IsHistogramOf key os in
    rw (histogram_at-record_latency k key d (recorded os)) (elim (Bool-cases (k == key)) [
      | inl same ↦
          rw same
            (observe-IsHistogramOf d (durations_of key os) (histogram_at key (recorded os)) before)
      | inr other ↦ rw other before
    ])

-- The lines of a histogram: its sums, the last of them, the total time and the count.
abbrev pub lines_of : HistogramKey → List String → List ℕ → ℕ → ℕ → ℕ → List Line
lines_of key (le ∷ labels) (r ∷ rs) last sum n =
    bucket_line key le r ∷ lines_of key labels rs last sum n
lines_of key labels rs last sum n =
    bucket_line key "+Inf" last
    ∷ histogram_line key "http_request_duration_seconds_sum" (seconds sum)
    ∷ histogram_line key "http_request_duration_seconds_count" (count n)
    ∷ []

bucket_lines-lines_of :
    (key : HistogramKey) (hist : BucketCounters) (labels : List String) (counts : List ℕ) (acc : ℕ)
    → length counts ≡ length labels
    → bucket_lines key hist labels counts acc
      ≡ lines_of key labels (running acc counts) (final acc counts hist.inf) hist.sum hist.count
unfolding bucket_lines
bucket_lines-lines_of key hist [] [] acc same = refl
bucket_lines-lines_of key hist (le ∷ labels) (c ∷ counts) acc same =
    ap (λ ls. bucket_line key le (add_uint64 acc c) ∷ ls)
      (bucket_lines-lines_of key hist labels counts (add_uint64 acc c) (omega arith))
bucket_lines-lines_of key hist labels counts acc same = absurd (omega arith)

-- What WritePrometheus should print of these durations.
abbrev pub expected_lines : HistogramKey → List ℕ → List Line
expected_lines key ds =
    lines_of key latency_labels (map (λ l. count_le l ds % 2 ^ 64) latency_buckets)
      (length ds % 2 ^ 64) (sum_of ds % 2 ^ 64) (length ds % 2 ^ 64)

-- After any sequence of recorded latencies, WritePrometheus prints for the histogram of a method
-- and a path exactly this: per bucket the number of its durations that are at most the bucket's
-- limit, for the last bucket and for the count their number, and their sum, each modulo 2 ^ 64.
pub histogram_lines-recorded :
    (key : HistogramKey) (os : List (HistogramKey × ℕ)) (hist : BucketCounters)
    → lookup key (recorded os).histograms ≡ some hist
    → histogram_lines (key, hist) ≡ expected_lines key (durations_of key os)
unfolding histogram_lines
histogram_lines-recorded key os hist found =
    let h : IsHistogramOf (durations_of key os) hist =
      subst (IsHistogramOf (durations_of key os)) (ap (get_or_else no_latencies) found)
        (recorded-IsHistogramOf key os) in
    bucket_lines-lines_of key hist latency_labels hist.counts 0 h.sized
    ∙ rw (h.within, h.all, h.summed, h.counted) refl
