-- ===== src/Control/Metrics/Histogram.antt =====
-- The cumulative buckets that a scrape prints, against a count of the requests.
use ferroxy.Prelude.{
  ℕ, zero, suc, ◌+◌, ◌≤◌, ◌<◌, ◌≡◌, refl, ◌∙◌, ◌&&◌, Bool, List, [], ◌∷◌, some, get_elem?, length,
  arith, u64_mod, leb, ◌==◌, if◌then◌else◌,
}
use ferroxy.Control.Metrics.{bucket_index, cumulate, latency_buckets}

-- The values at `i`, …, `i + k`.
unfoldable pub sum_upto : (ℕ → ℕ) → ℕ → ℕ → ℕ
sum_upto f i zero = f i
sum_upto f i (suc k) = f i + sum_upto f (i + 1) k

pub get_elem?-cumulate :
    (load : ℕ → ℕ) (les : List ℕ) (i acc k le : ℕ)
    → get_elem? les k ≡ some le
    → acc + sum_upto load i k < u64_mod
    → get_elem? (cumulate load i acc les) k ≡ some (acc + sum_upto load i k)
unfolding cumulate sum_upto
get_elem?-cumulate load [] i acc k le e h = cc
get_elem?-cumulate load (x ∷ les) i acc zero le e h = ground arith
get_elem?-cumulate load (x ∷ les) i acc (suc k) le e h =
    ground (arith, get_elem?-cumulate load les (i + 1) (acc + load i) k le e)

sum_upto-add :
    (f g : ℕ → ℕ) (i k : ℕ) → sum_upto (λ j. f j + g j) i k ≡ sum_upto f i k + sum_upto g i k
unfolding sum_upto
sum_upto-add f g i zero = refl
sum_upto-add f g i (suc k) = omega (arith, sum_upto-add f g (i + 1) k)

pub sum_upto-ext :
    (f g : ℕ → ℕ) (i k : ℕ) → ((j : ℕ) → j ≤ i + k → f j ≡ g j) → sum_upto f i k ≡ sum_upto g i k
unfolding sum_upto
sum_upto-ext f g i zero h = h i (omega arith)
sum_upto-ext f g i (suc k) h =
    omega (arith, h i (omega arith), sum_upto-ext f g (i + 1) k (λ j l. h j (omega arith)))

abbrev pub indicator : Bool → ℕ
indicator b = if b then 1 else 0

sum_upto-indicator :
    (n i k : ℕ) → sum_upto (λ j. indicator (n == j)) i k ≡ indicator (leb i n && leb n (i + k))
unfolding sum_upto
sum_upto-indicator n i zero = ground arith
sum_upto-indicator n i (suc k) = ground (arith, sum_upto-indicator n (i + 1) k)

sum_upto-zero : (i k : ℕ) → sum_upto (λ j. 0) i k ≡ 0
unfolding sum_upto
sum_upto-zero i zero = refl
sum_upto-zero i (suc k) = omega (arith, sum_upto-zero (i + 1) k)

-- How many of the numbers are `j`, and how many are at most `j`.
unfoldable pub hits : List ℕ → ℕ → ℕ
hits [] j = 0
hits (n ∷ ns) j = indicator (n == j) + hits ns j

unfoldable pub at_most : List ℕ → ℕ → ℕ
at_most [] j = 0
at_most (n ∷ ns) j = indicator (leb n j) + at_most ns j

pub hits-length : (ns : List ℕ) (j : ℕ) → hits ns j ≤ length ns
unfolding hits
hits-length [] j = omega arith
hits-length (n ∷ ns) j = ground (arith, hits-length ns j)

pub at_most-length : (ns : List ℕ) (j : ℕ) → at_most ns j ≤ length ns
unfolding at_most
at_most-length [] j = omega arith
at_most-length (n ∷ ns) j = ground (arith, at_most-length ns j)

pub sum_upto-hits : (ns : List ℕ) (k : ℕ) → sum_upto (hits ns) 0 k ≡ at_most ns k
unfolding hits at_most
sum_upto-hits [] k = sum_upto-ext (hits []) (λ j. 0) 0 k (λ j l. refl) ∙ sum_upto-zero 0 k
sum_upto-hits (n ∷ ns) k =
    sum_upto-ext (hits (n ∷ ns)) (λ j. indicator (n == j) + hits ns j) 0 k (λ j l. refl)
    ∙ sum_upto-add (λ j. indicator (n == j)) (hits ns) 0 k
    ∙ ground (arith, sum_upto-indicator n 0 k, sum_upto-hits ns k)

unfoldable pub sorted_from : ℕ → List ℕ → Bool
sorted_from low [] = Bool.true
sorted_from low (x ∷ xs) = leb low x && sorted_from x xs

-- A duration falls into one of the buckets up to a bound exactly if it is at most the bound.
bucket_index-leb :
    (les : List ℕ) (low k le elapsed : ℕ)
    → sorted_from low les ≡ Bool.true
    → get_elem? les k ≡ some le
    → (leb (bucket_index les elapsed) k ≡ leb elapsed le) × (low ≤ le)
unfolding bucket_index sorted_from
bucket_index-leb [] low k le elapsed s e = cc
bucket_index-leb (x ∷ les) low zero le elapsed s e = let q : x ≡ le = cc in ground arith
bucket_index-leb (x ∷ les) low (suc k) le elapsed s e =
    ground (arith, bucket_index-leb les x k le elapsed)

latency-sorted : sorted_from 0 latency_buckets ≡ Bool.true
unfolding sorted_from
latency-sorted = refl

pub latency-leb :
    (k le elapsed : ℕ)
    → get_elem? latency_buckets k ≡ some le
    → leb (bucket_index latency_buckets elapsed) k ≡ leb elapsed le
latency-leb k le elapsed e = (bucket_index-leb latency_buckets 0 k le elapsed latency-sorted e).0
