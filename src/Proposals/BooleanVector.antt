-- ===== src/Proposals/BooleanVector.antt =====
-- BooleanProposalVector: which nodes' proposals are available.
use skale_consensus.Prelude.{
  ℕ, zero, suc, ◌+◌, ◌≡◌, ◌≤◌, ◌<◌, Bool, true, false, Option, none, some, List, [], ◌∷◌, length,
  get_elem?, ltb, leb, ◌==◌, if◌then◌else◌, refl, ap, arith, ◌∙◌, subst,
}
use skale_consensus.Prelude.OrderedMap.{OrderedMap, contains}
use skale_consensus.Prelude.Results.{
  Result, ok, throw, check, check-true, and_then, invalid_argument, invalid_state, out_of_range,
}

-- The characters of a vector's string.
abbrev pub char_0 : ℕ
char_0 = 48

abbrev pub char_1 : ℕ
char_1 = 49

-- The first of the proposals is a dummy, for the index 0.
pub record BooleanProposalVector : Type 0 where
  pub node_count : ℕ
  pub proposals : List Bool
  pub true_count : ℕ

module _ {V : Type 0} where
  -- The entries of the nodes `i`, …, `i + k - 1`.
  unfoldable pub has_proofs : ℕ → ℕ → OrderedMap V → List Bool
  has_proofs i zero proofs = []
  has_proofs i (suc k) proofs = contains i proofs ∷ has_proofs (i + 1) k proofs

  -- The constructor from the map of the DA proofs that were received.
  unfoldable pub of_proofs : ℕ → OrderedMap V → BooleanProposalVector
  of_proofs n proofs =
      let proposals = false ∷ has_proofs 1 n proofs in
      record { node_count = n; proposals = proposals; true_count = length proposals }

abbrev pub read_bit : ℕ → Result Bool
read_bit c =
    if c == char_1 then ok true else if c == char_0 then ok false else throw invalid_argument

unfoldable pub read_bits : List ℕ → Result (List Bool)
read_bits [] = ok []
read_bits (c ∷ cs) = and_then (read_bit c) (λ b. and_then (read_bits cs) (λ bs. ok (b ∷ bs)))

unfoldable pub count_true : List Bool → ℕ
count_true [] = 0
count_true (true ∷ bs) = suc (count_true bs)
count_true (false ∷ bs) = count_true bs

-- The constructor from a string.
unfoldable pub of_string : ℕ → List ℕ → Result BooleanProposalVector
of_string n vector_str = check (ltb 0 (length vector_str)) invalid_argument (
    check (length vector_str == n) invalid_argument (
      and_then (read_bits vector_str)
        (λ bs. ok (record { node_count = n; proposals = false ∷ bs; true_count = count_true bs }))))

abbrev pub known_value : Option Bool → Result Bool
known_value none = throw out_of_range
known_value (some b) = ok b

unfoldable pub get_proposal_value : ℕ → BooleanProposalVector → Result Bool
get_proposal_value i v = check (length v.proposals == v.node_count + 1) invalid_state (
    check (leb i v.node_count) invalid_state
      (check (ltb 0 i) invalid_state (known_value (get_elem? v.proposals i))))

abbrev pub write_bit : Bool → ℕ
write_bit b = if b then char_1 else char_0

-- The characters of so many entries; `at` throws where there is none.
unfoldable pub write_bits : ℕ → List Bool → Result (List ℕ)
write_bits zero bs = ok []
write_bits (suc k) [] = throw out_of_range
write_bits (suc k) (b ∷ bs) = and_then (write_bits k bs) (λ cs. ok (write_bit b ∷ cs))

abbrev pub after_first : List Bool → List Bool
after_first [] = []
after_first (b ∷ bs) = bs

unfoldable pub to_string : BooleanProposalVector → Result (List ℕ)
to_string v = write_bits v.node_count (after_first v.proposals)

-- The characters of some entries.
abbrev characters : List Bool → List ℕ
characters [] = []
characters (b ∷ bs) = write_bit b ∷ characters bs

write_bits-full : (bs : List Bool) → write_bits (length bs) bs ≡ ok (characters bs)
unfolding write_bits
write_bits-full [] = refl
write_bits-full (b ∷ bs) = ap (λ r. and_then r (λ cs. ok (write_bit b ∷ cs))) (write_bits-full bs)

read_bits-characters : (bs : List Bool) → read_bits (characters bs) ≡ ok bs
unfolding read_bits
read_bits-characters [] = refl
read_bits-characters (true ∷ bs) =
    ap (λ r. and_then r (λ cs. ok (true ∷ cs))) (read_bits-characters bs)
read_bits-characters (false ∷ bs) =
    ap (λ r. and_then r (λ cs. ok (false ∷ cs))) (read_bits-characters bs)

length-characters : (bs : List Bool) → length (characters bs) ≡ length bs
length-characters [] = refl
length-characters (b ∷ bs) = omega (arith, length-characters bs)

length-has_proofs :
    {V : Type 0} (i k : ℕ) (proofs : OrderedMap V) → length (has_proofs i k proofs) ≡ k
unfolding has_proofs
length-has_proofs i zero proofs = refl
length-has_proofs i (suc k) proofs = omega (arith, length-has_proofs (i + 1) k proofs)

get_elem?-has_proofs :
    {V : Type 0} (i k j : ℕ) (proofs : OrderedMap V)
    → j < k
    → get_elem? (has_proofs i k proofs) j ≡ some (contains (i + j) proofs)
unfolding has_proofs
get_elem?-has_proofs i zero j proofs h = absurd (omega arith)
get_elem?-has_proofs i (suc k) zero proofs h = ap (λ x. some (contains x proofs)) here
  where
    here : i ≡ i + 0
    here = omega arith
get_elem?-has_proofs i (suc k) (suc j) proofs h =
    get_elem?-has_proofs (i + 1) k j proofs (omega arith) ∙ ap (λ x. some (contains x proofs)) here
  where
    here : i + 1 + j ≡ i + suc j
    here = omega arith

-- A vector says of each node of the chain whether its DA proof has been received.
pub get_proposal_value-of_proofs :
    {V : Type 0} (n i : ℕ) (proofs : OrderedMap V)
    → 1 ≤ i
    → i ≤ n
    → get_proposal_value i (of_proofs n proofs) ≡ ok (contains i proofs)
unfolding get_proposal_value of_proofs
get_proposal_value-of_proofs n zero proofs lo hi = absurd (omega arith)
get_proposal_value-of_proofs n (suc i) proofs lo hi =
    check-true (suc (length (has_proofs 1 n proofs)) == n + 1) invalid_state _
      (ground (arith, length-has_proofs 1 n proofs))
    ∙ check-true (leb (suc i) n) invalid_state _ (ground arith)
    ∙ check-true (ltb 0 (suc i)) invalid_state _ (ground arith)
    ∙ ap known_value (get_elem?-has_proofs 1 n i proofs (omega arith))
    ∙ ap (λ x. ok (contains x proofs)) next
  where
    next : 1 + i ≡ suc i
    next = omega arith

-- What toString writes of a vector of proofs, of one node at least, is read back with the same values; the count of true
-- entries is then the right one, where the vector of proofs has the number of its entries there.
pub of_string-to_string :
    {V : Type 0} (n : ℕ) (proofs : OrderedMap V)
    → 1 ≤ n
    → and_then (to_string (of_proofs n proofs)) (of_string n)
      ≡ ok (record (of_proofs n proofs) { true_count = count_true (has_proofs 1 n proofs) })
unfolding to_string of_proofs of_string
of_string-to_string n proofs pos =
    ap (λ r. and_then r (of_string n)) written
    ∙ check-true (ltb 0 (length (characters bits))) invalid_argument _ (ground (arith, len))
    ∙ check-true (length (characters bits) == n) invalid_argument _ (ground (arith, len))
    ∙ ap
        (λ r. and_then r (λ bs.
          ok (record { node_count = n; proposals = false ∷ bs; true_count = count_true bs })))
        (read_bits-characters bits)
  where
    bits : List Bool
    bits = has_proofs 1 n proofs

    len : length (characters bits) ≡ n
    len = length-characters bits ∙ length-has_proofs 1 n proofs

    written : write_bits n bits ≡ ok (characters bits)
    written =
        subst (λ k. write_bits k bits ≡ ok (characters bits)) (length-has_proofs 1 n proofs)
          (write_bits-full bits)
