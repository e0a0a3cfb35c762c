-- ===== src/Proposals/FragmentExamples.antt =====
-- A proposal of twelve bytes in three fragments.
use skale_consensus.Prelude.{ℕ, ◌≡◌, Bool, true, false, List, [], ◌∷◌, refl, arith, same_bytes}
use skale_consensus.Prelude.OrderedMap.{contains, emplace}
use skale_consensus.Prelude.Results.{ok, throw, invalid_argument}
use skale_consensus.Proposals.Fragment.{
  Fragment, Proposal, get_fragment, new_fragment, FragmentList, has_all, is_complete, is_member,
  erase_first, claim_block, add_fragment, serialize_fragments, check_proposal,
}
use skale_consensus.Proposals.Missing.{Inv, absent}
use skale_consensus.Proposals.Adding.{add_fragment-Succeeds}
use skale_consensus.Proposals.Reassembly.{serialize_fragments-get_fragment}

abbrev proposal : Proposal
proposal = record {
  proposal_id = 5;
  serialized = 1 ∷ 0 ∷ 0 ∷ 0 ∷ 0 ∷ 0 ∷ 0 ∷ 0 ∷ 123 ∷ 125 ∷ 60 ∷ 62 ∷ [];
  hash = 7 ∷ [];
}

abbrev piece : ℕ → List ℕ → Fragment
piece i bytes = record {
  block_id = 5;
  total_fragments = 3;
  fragment_index = i;
  payload = bytes;
  block_size = 12;
  block_hash = 7 ∷ [];
}

abbrev first : List ℕ
first = 60 ∷ 1 ∷ 0 ∷ 0 ∷ 0 ∷ 62 ∷ []

abbrev second : List ℕ
second = 60 ∷ 0 ∷ 0 ∷ 0 ∷ 0 ∷ 62 ∷ []

abbrev third : List ℕ
third = 60 ∷ 123 ∷ 125 ∷ 60 ∷ 62 ∷ 62 ∷ []

get_third : get_fragment 3 3 proposal ≡ ok (piece 3 third)
unfolding get_fragment new_fragment
get_third = refl

-- All but the second are there.
abbrev two_there : FragmentList
two_there = record {
  list_block_id = 5;
  total = 3;
  fragments = (1, first) ∷ (3, third) ∷ [];
  missing_fragments = 2 ∷ [];
  list_block_size = 12;
  list_block_hash = 7 ∷ [];
  is_serialized = false;
}

abbrev all_there : FragmentList
all_there = record two_there {
  fragments = (1, first) ∷ (2, second) ∷ (3, third) ∷ [];
  missing_fragments = [];
}

two_there-Inv : Inv two_there
unfolding absent contains
two_there-Inv = record {
  some_total = omega arith;
  sorted = (omega arith, omega arith, (omega arith, omega arith, tt));
  others_missing = refl;
}

all_there-Inv : Inv all_there
unfolding absent contains
all_there-Inv = record {
  some_total = omega arith;
  sorted = (omega arith, omega arith, (omega arith, omega arith, (omega arith, omega arith, tt)));
  others_missing = refl;
}

completes : add_fragment 3 (piece 2 second) two_there ≡ (all_there, ok (true, 0))
unfolding add_fragment claim_block same_bytes contains emplace erase_first is_member is_complete
    has_all
completes = refl

other_block :
    (add_fragment 3 (record (piece 2 second) { block_hash = 8 ∷ [] }) two_there).1
    ≡ throw invalid_argument
unfolding add_fragment claim_block same_bytes
other_block = refl

add_fragment-Succeeds_example :
    Inv (add_fragment 3 (piece 2 second) two_there).0
    × ((r : Bool × ℕ) × ((add_fragment 3 (piece 2 second) two_there).1 ≡ ok r))
unfolding claim_block same_bytes
add_fragment-Succeeds_example =
    add_fragment-Succeeds 3 (piece 2 second) two_there two_there two_there-Inv refl (omega arith)
      (omega arith) refl

serialize_fragments-get_fragment_example :
    (serialize_fragments all_there).1 ≡ check_proposal proposal.serialized
unfolding get_fragment new_fragment
serialize_fragments-get_fragment_example =
    serialize_fragments-get_fragment all_there proposal all_there-Inv (omega arith, omega arith)
      (
        (piece 1 first, refl, refl),
        ((piece 2 second, refl, refl), ((piece 3 third, refl, refl), tt)),
      )
      refl refl
