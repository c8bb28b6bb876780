-- ===== src/Trace/Report/Laws.antt =====
-- The counts in a report of trace/tracker.py.
use fusion_code_modelization.Common.{
  Bool, true, ℕ, suc, ◌+◌, ◌≤◌, String, Option, none, some, ◌≡◌, refl, List, [], ◌∷◌, filter,
  length, ◌==◌, eq_iff, arith, ap, length-filter-le,
}
use fusion_code_modelization.Common.Dict
use fusion_code_modelization.Common.Dict.{Dict, get-set}
use fusion_code_modelization.Trace.Store.{TraceStore}
use fusion_code_modelization.Trace.Report.{
  Filters, TraceReport, or_zero, keep_value, tally, type_of, relationship_of, generate_report,
}

abbrev pub sum : Dict ℕ → ℕ
sum [] = 0
sum ((k, n) ∷ m) = n + sum m

module _ {A : Type 0} (key_of : A → String) where
  abbrev pub number_of : String → List A → ℕ
  number_of k xs = length (filter (λ x. key_of x == k) xs)

  pub or_zero-tally :
      (xs : List A) (counts : Dict ℕ) (k : String)
      → or_zero (Dict.get (tally key_of counts xs) k) ≡ or_zero (Dict.get counts k) + number_of k xs
  unfolding tally
  or_zero-tally [] counts k = omega arith
  or_zero-tally (x ∷ xs) counts k =
      let n = or_zero (Dict.get counts (key_of x)) + 1 in
      ground (
        arith,
        or_zero-tally xs (Dict.set counts (key_of x) n) k,
        get-set counts (key_of x) k n,
        eq_iff (key_of x) k,
      )

  sum-set : (m : Dict ℕ) (k : String) → sum (Dict.set m k (or_zero (Dict.get m k) + 1)) ≡ sum m + 1
  unfolding Dict.set Dict.get
  sum-set [] k = omega arith
  sum-set ((j, n) ∷ m) k = ground (arith, sum-set m k)

  pub sum-tally :
      (xs : List A) (counts : Dict ℕ) → sum (tally key_of counts xs) ≡ sum counts + length xs
  unfolding tally
  sum-tally [] counts = omega arith
  sum-tally (x ∷ xs) counts =
      let n = or_zero (Dict.get counts (key_of x)) + 1 in
      omega (arith, sum-tally xs (Dict.set counts (key_of x) n), sum-set counts (key_of x))

-- A filter that is not given lets all pass, and one that is given only its own value.
abbrev pub passes : Option String → String → Bool
passes none value = true
passes (some wanted) value = value == wanted

module _ {A : Type 0} (key_of : A → String) where
  abbrev pub passing : Option String → List A → List A
  passing o xs = filter (λ x. passes o (key_of x)) xs

  keep_value-passing : (o : Option String) (xs : List A) → keep_value key_of o xs ≡ passing o xs
  keep_value-passing none [] = refl
  keep_value-passing none (x ∷ xs) = ap (◌∷◌ x) (keep_value-passing none xs)
  keep_value-passing (some wanted) xs = refl

-- The numbers of a report agree with each other and with the store.
pub record IsTrue (s : TraceStore) (filters : Filters) (r : TraceReport) : Type 0 where
  pub types :
      (k : String)
      → or_zero (Dict.get r.artifact_type_counts k)
        ≡ number_of type_of k (passing type_of filters.artifact_type (Dict.values s.nodes))
  pub relationships :
      (k : String)
      → or_zero (Dict.get r.relationship_counts k)
        ≡ number_of relationship_of k
            (passing relationship_of filters.relationship (Dict.values s.edges))
  pub total_nodes :
      r.total_nodes ≡ length (passing type_of filters.artifact_type (Dict.values s.nodes))
  pub total_edges :
      r.total_edges ≡ length (passing relationship_of filters.relationship (Dict.values s.edges))
  pub all_nodes : sum r.artifact_type_counts ≡ r.total_nodes
  pub all_edges : sum r.relationship_counts ≡ r.total_edges
  pub bounded : r.total_nodes ≤ length s.nodes

length-values : {V : Type 0} (m : Dict V) → length (Dict.values m) ≡ length m
length-values [] = refl
length-values ((k, v) ∷ m) = ap suc (length-values m)

length-kept-le :
    {A : Type 0} (key_of : A → String) (o : Option String) (xs : List A)
    → length (keep_value key_of o xs) ≤ length xs
length-kept-le key_of none xs = omega arith
length-kept-le key_of (some k) xs = length-filter-le (λ x. key_of x == k) xs

-- In a report, with filters or without, the count of each type is the number of nodes of it that pass
-- the filter, if one is given, and the count of each relationship the number of such edges; the totals
-- are the numbers of nodes and edges that pass, the counts add up to the totals, and no more nodes are
-- counted than are stored.
pub generate_report-IsTrue :
    (s : TraceStore) (filters : Filters) → IsTrue s filters (generate_report s filters)
unfolding generate_report Dict.get
generate_report-IsTrue s filters =
    let nodes = keep_value type_of filters.artifact_type (Dict.values s.nodes) in
    let edges = keep_value relationship_of filters.relationship (Dict.values s.edges) in
    let same_nodes = keep_value-passing type_of filters.artifact_type (Dict.values s.nodes) in
    let same_edges =
      keep_value-passing relationship_of filters.relationship (Dict.values s.edges) in
    record {
      types =
          λ k. omega (arith, or_zero-tally type_of nodes [] k, ap (number_of type_of k) same_nodes);
      relationships = λ k. omega (
        arith,
        or_zero-tally relationship_of edges [] k,
        ap (number_of relationship_of k) same_edges,
      );
      total_nodes = ap length same_nodes;
      total_edges = ap length same_edges;
      all_nodes = omega (arith, sum-tally type_of nodes []);
      all_edges = omega (arith, sum-tally relationship_of edges []);
      bounded = omega (
        arith,
        length-kept-le type_of filters.artifact_type (Dict.values s.nodes),
        length-values s.nodes,
      );
    }
