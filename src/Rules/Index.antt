-- ===== src/Rules/Index.antt =====
-- The catalogue index of a rule pointer.
use turmite_linux.Prelude.{ℕ, zero, suc, ◌+◌, ◌≤◌, ◌<◌, ◌≡◌, refl, leb, if◌then◌else◌, arith}
use turmite_linux.Rules.Types.{rule_index_runtime}
use turmite_linux.Rules.{catalogue, runtime, rules_count, rules_get, index_loop, rules_index_of}

index_loop-catalogue :
    (k i n : ℕ) → i ≤ k → k < i + n → i + n ≤ rules_count → index_loop (catalogue k) i n ≡ k
unfolding index_loop
index_loop-catalogue k i zero le lt all = absurd (omega arith)
index_loop-catalogue k i (suc n) le lt all = ground (arith, index_loop-catalogue k (suc i) n)

index_loop-runtime : (k i n : ℕ) → index_loop (runtime k) i n ≡ rule_index_runtime
unfolding index_loop
index_loop-runtime k i zero = refl
index_loop-runtime k i (suc n) = ground (arith, index_loop-runtime k (suc i) n)

-- Pointer identity recovers the index: `rules_index_of` undoes `rules_get` on the whole catalogue,
-- and gives the runtime marker for a private table and for what `rules_get` returns out of range.
pub rules_index_of-rules_get :
    (i k : ℕ)
    → (rules_index_of (rules_get i) ≡ (if leb rules_count i then rule_index_runtime else i))
      × (rules_index_of (runtime k) ≡ rule_index_runtime)
unfolding rules_get rules_index_of
rules_index_of-rules_get i k =
    (ground (arith, index_loop-catalogue i 0 rules_count), index_loop-runtime k 0 rules_count)
