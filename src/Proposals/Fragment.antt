-- ===== src/Proposals/Fragment.antt =====
-- BlockProposal::getFragment, BlockProposalFragment and BlockProposalFragmentList: a serialized
-- proposal in pieces.
use skale_consensus.Prelude.{
  ℕ, zero, suc, ◌+◌, ◌-◌, ◌*◌, ◌/◌, ◌%◌, ◌^◌, Bool, true, false, ◌&&◌, Option, none, some, List, [],
  ◌∷◌, ◌++◌, length, get_elem?, take, drop, ltb, leb, ◌==◌, if◌then◌else◌, u64, same_bytes,
}
use skale_consensus.Prelude.OrderedMap.{OrderedMap, contains, emplace}
use skale_consensus.Prelude.Results.{
  Result, ok, throw, check, and_then, invalid_argument, invalid_state, parsing, out_of_range,
}

-- `<`, `>` and `{`
abbrev pub open_mark : ℕ
open_mark = 60

abbrev pub close_mark : ℕ
close_mark = 62

abbrev pub open_brace : ℕ
open_brace = 123

-- BlockProposalFragment
pub record Fragment : Type 0 where
  pub block_id : ℕ
  pub total_fragments : ℕ
  pub fragment_index : ℕ
  pub payload : List ℕ
  pub block_size : ℕ
  pub block_hash : List ℕ

abbrev pub is_at : ℕ → Option ℕ → Bool
is_at c none = false
is_at c (some d) = d == c

-- The checks of the constructor of BlockProposalFragment.
unfoldable pub new_fragment : Fragment → Result Fragment
new_fragment f = check (ltb 0 (length f.block_hash)) invalid_argument (
    check (ltb 0 f.total_fragments) invalid_argument (
      check (leb f.fragment_index f.total_fragments) invalid_argument (
        check (ltb 0 f.block_id) invalid_argument (
          check (ltb 0 (length f.payload)) invalid_argument (
            check (leb 3 (length f.payload)) parsing (
              check (is_at open_mark (get_elem? f.payload 0)) parsing (
                check (is_at close_mark (get_elem? f.payload (length f.payload - 1))) parsing
                  (ok f))))))))

-- What getFragment reads of a proposal: its id, its bytes and its hash in hexadecimal.
pub record Proposal : Type 0 where
  pub proposal_id : ℕ
  pub serialized : List ℕ
  pub hash : List ℕ

abbrev pub fragment_standard_size : ℕ → ℕ → ℕ
fragment_standard_size total size = if size % total == 0 then size / total else size / total + 1

-- The bytes between the marks, from `start` on: to the end in the last fragment. Iterators past the
-- end stand as `out_of_range`.
abbrev pub cut : List ℕ → ℕ → ℕ → Result (List ℕ)
cut bytes start stop =
    check (leb start stop && leb stop (length bytes)) out_of_range
      (ok (open_mark ∷ take (stop - start) (drop start bytes) ++ close_mark ∷ []))

unfoldable pub get_fragment : ℕ → ℕ → Proposal → Result Fragment
get_fragment total index p =
    let size = length p.serialized in
    let standard = fragment_standard_size total size in
    let start = u64 (standard * u64 (index + (2 ^ 64 - 1))) in
    check (ltb 0 total) invalid_argument (
      check (leb index total) invalid_argument (
        and_then (cut p.serialized start (if index == total then size else u64 (start + standard)))
          (λ bytes. new_fragment (record {
            block_id = p.proposal_id;
            total_fragments = total;
            fragment_index = index;
            payload = bytes;
            block_size = size;
            block_hash = p.hash;
          }))))

-- BlockProposalFragmentList; an empty hash stands for none, and the size is an `int64_t` that starts
-- at -1, kept here as the same 64 bits.
pub record FragmentList : Type 0 where
  pub list_block_id : ℕ
  pub total : ℕ
  pub fragments : OrderedMap (List ℕ)
  pub missing_fragments : List ℕ
  pub list_block_size : ℕ
  pub list_block_hash : List ℕ
  pub is_serialized : Bool

-- The numbers from `lo` on.
unfoldable pub from_on : ℕ → ℕ → List ℕ
from_on lo zero = []
from_on lo (suc k) = lo ∷ from_on (suc lo) k

-- The constructor of the list.
unfoldable pub new_fragment_list : ℕ → ℕ → Result FragmentList
new_fragment_list block_id total = check (ltb 0 total) invalid_argument (
    ok (record {
      list_block_id = block_id;
      total = total;
      fragments = [];
      missing_fragments = from_on 1 total;
      list_block_size = 2 ^ 64 - 1;
      list_block_hash = [];
      is_serialized = false;
    }))

abbrev pub known_index : Option ℕ → Result ℕ
known_index none = throw invalid_state
known_index (some i) = ok i

-- nextIndexToRetrieve, with the number that the generator gives.
unfoldable pub next_index_to_retrieve : ℕ → List ℕ → Result ℕ
next_index_to_retrieve random [] = ok 0
next_index_to_retrieve random (x ∷ xs) = known_index (get_elem? (x ∷ xs) (random % length (x ∷ xs)))

unfoldable pub has_all : ℕ → ℕ → OrderedMap (List ℕ) → Bool
has_all lo zero m = true
has_all lo (suc k) m = if contains lo m then has_all (suc lo) k m else false

unfoldable pub is_complete : FragmentList → Result Bool
is_complete l = check (leb (length l.fragments) l.total) invalid_state (
    if length l.fragments == l.total
    then check (has_all 1 l.total l.fragments) invalid_state
        (check (length l.missing_fragments == 0) invalid_state (ok true))
    else ok false)

unfoldable pub is_member : ℕ → List ℕ → Bool
is_member i [] = false
is_member i (x ∷ xs) = if i == x then true else is_member i xs

unfoldable pub erase_first : ℕ → List ℕ → List ℕ
erase_first i [] = []
erase_first i (x ∷ xs) = let rest = erase_first i xs in if i == x then xs else x ∷ rest

-- A fragment of the block that the list is for; the first one says which.
unfoldable pub claim_block : Fragment → FragmentList → Result FragmentList
claim_block f l =
    if length l.list_block_hash == 0
    then ok (record l { list_block_hash = f.block_hash; list_block_size = f.block_size })
    else check (same_bytes l.list_block_hash f.block_hash) invalid_argument
        (check (l.list_block_size == f.block_size) invalid_argument (ok l))

abbrev pub insert_fragment : Fragment → FragmentList → FragmentList
insert_fragment f l = record l {
  fragments = emplace f.fragment_index f.payload l.fragments;
  missing_fragments = erase_first f.fragment_index l.missing_fragments;
}

-- What the caller gets for a fragment that was not there: the index to ask for next, or 0.
abbrev pub next_after : ℕ → FragmentList → Bool → Result (Bool × ℕ)
next_after random l true = ok (true, 0)
next_after random l false = check (ltb 0 (length l.missing_fragments)) invalid_state (
    and_then (next_index_to_retrieve random l.missing_fragments)
      (λ i. check (ltb 0 i) invalid_state (ok (true, i))))

-- addFragment: the list after the call, and what it returns or throws.
abbrev pub add_new : ℕ → Fragment → FragmentList → FragmentList × Result (Bool × ℕ)
add_new random f l =
    let added = insert_fragment f l in
    (
      added,
      check (is_member f.fragment_index l.missing_fragments) invalid_state
          (and_then (is_complete added) (next_after random added)),
    )

abbrev pub add_claimed :
    ℕ → Fragment → FragmentList → Result FragmentList → FragmentList × Result (Bool × ℕ)
add_claimed random f l (throw e) = (l, throw e)
add_claimed random f l (ok claimed) =
    if leb (length claimed.fragments) claimed.total
    then (if contains f.fragment_index claimed.fragments
        then (claimed, ok (false, 0))
        else add_new random f claimed)
    else (claimed, throw invalid_state)

unfoldable pub add_fragment : ℕ → Fragment → FragmentList → FragmentList × Result (Bool × ℕ)
add_fragment random f l =
    if (f.block_id == l.list_block_id) && ltb 0 f.fragment_index && leb f.fragment_index l.total
    then add_claimed random f l (claim_block f l)
    else (l, throw invalid_argument)

-- The bytes of a fragment without its marks.
abbrev pub inner : List ℕ → List ℕ
inner bytes = take (length bytes - 2) (drop 1 bytes)

unfoldable pub join : OrderedMap (List ℕ) → List ℕ
join [] = []
join ((i, bytes) ∷ m) = inner bytes ++ join m

-- The two tests that end serialize.
abbrev pub check_proposal : List ℕ → Result (List ℕ)
check_proposal bytes =
    check (is_at open_brace (get_elem? bytes 8)) invalid_state
      (check (is_at close_mark (get_elem? bytes (length bytes - 1))) invalid_state (ok bytes))

abbrev pub serialize_if : FragmentList → Result Bool → FragmentList × Result (List ℕ)
serialize_if l (throw e) = (l, throw e)
serialize_if l (ok false) = (l, throw invalid_state)
serialize_if l (ok true) =
    if l.is_serialized
    then (l, throw invalid_state)
    else (record l { is_serialized = true }, check_proposal (join l.fragments))

-- BlockProposalFragmentList::serialize, with the list after the call.
unfoldable pub serialize_fragments : FragmentList → FragmentList × Result (List ℕ)
serialize_fragments l = serialize_if l (is_complete l)
