-- ===== src/Proposals/Examples.antt =====
-- Vectors of proposals and time stamps at concrete inputs.
use skale_consensus.Prelude.{◌≡◌, [], ◌∷◌, refl}
use skale_consensus.Prelude.OrderedMap.{OrderedSet, contains}
use skale_consensus.Prelude.Results.{ok, throw, invalid_argument}
use skale_consensus.Proposals.BooleanVector.{
  has_proofs, of_proofs, of_string, read_bits, write_bits, to_string,
}
use skale_consensus.Proposals.TimeStamps.{TimeStamp}

-- Proofs of the first and the third of three nodes.
abbrev proofs : OrderedSet
proofs = (1, tt) ∷ (3, tt) ∷ []

written : to_string (of_proofs 3 proofs) ≡ ok (49 ∷ 48 ∷ 49 ∷ [])
unfolding to_string of_proofs has_proofs write_bits contains
written = refl

corrupt : of_string 2 (49 ∷ 50 ∷ []) ≡ throw invalid_argument
unfolding of_string read_bits
corrupt = refl

abbrev late : TimeStamp
late = record { s = 1600000000; ms = 999 }
