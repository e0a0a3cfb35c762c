-- ===== src/BinConsensus/Votes.antt =====
-- Votes and the thresholds on their numbers.
use skale_consensus.Prelude.{
  ℕ, ◌+◌, ◌*◌, Bool, true, false, not, Option, none, some, String, length, ltb, leb, if◌then◌else◌,
  u64, update,
}
use skale_consensus.Prelude.OrderedMap.{OrderedMap, OrderedSet, contains, emplace}
use skale_consensus.BinConsensus.State.{
  Env, Instance, write_bvb_vote, common_coin_round, truthy, emit,
}

-- isThird and isTwoThird.
unfoldable pub is_third : Env → ℕ → Bool
is_third e count = ltb e.node_count (u64 (count * 3))

unfoldable pub is_two_third : Env → ℕ → Bool
is_two_third e count = ltb (u64 (2 * e.node_count)) (u64 (count * 3))

-- The set that a value's votes go to.
abbrev pub bvb_votes : Instance → Bool → ℕ → OrderedSet
bvb_votes s true r = s.bvb_true_votes r
bvb_votes s false r = s.bvb_false_votes r

abbrev pub aux_votes : Instance → Bool → ℕ → OrderedMap (Option String)
aux_votes s true r = s.aux_true_votes r
aux_votes s false r = s.aux_false_votes r

unfoldable pub get_bvb_vote_count : Instance → ℕ → ℕ → ℕ
get_bvb_vote_count s v r = length (bvb_votes s (truthy v) r)

unfoldable pub get_aux_vote_count : Instance → ℕ → ℕ → ℕ
get_aux_vote_count s v r = length (aux_votes s (truthy v) r)

unfoldable pub total_aux_votes : Instance → ℕ → ℕ
total_aux_votes s r = length (s.aux_true_votes r) + length (s.aux_false_votes r)

abbrev pub put_bvb_vote : Bool → ℕ → ℕ → Instance → Instance
put_bvb_vote b r i s = record s {
  bvb_true_votes = if b then put s.bvb_true_votes else s.bvb_true_votes;
  bvb_false_votes = if b then s.bvb_false_votes else put s.bvb_false_votes;
}
  where
    put : (ℕ → OrderedSet) → ℕ → OrderedSet
    put votes = update votes r (emplace i tt (votes r))

abbrev pub put_aux_vote : Bool → ℕ → ℕ → Option String → Instance → Instance
put_aux_vote b r i share s = record s {
  aux_true_votes = if b then put s.aux_true_votes else s.aux_true_votes;
  aux_false_votes = if b then s.aux_false_votes else put s.aux_false_votes;
}
  where
    put : (ℕ → OrderedMap (Option String)) → ℕ → OrderedMap (Option String)
    put votes = update votes r (emplace i share (votes r))

-- bvbVoteCore: the new state, and whether the vote is new.
unfoldable pub bvb_vote_core : ℕ → ℕ → ℕ → Instance → Instance × Bool
bvb_vote_core r v index s =
    (put_bvb_vote (truthy v) r index s, not (contains index (bvb_votes s (truthy v) r)))

-- bvbVote writes the vote into the database first.
unfoldable pub bvb_vote : ℕ → ℕ → ℕ → Instance → Instance × Bool
unfolding bvb_vote_core
bvb_vote r v index s = bvb_vote_core r v index (emit (write_bvb_vote r index v) s)

-- auxVoteCore. `none` is a thrown InvalidStateException.
unfoldable pub aux_vote_core : ℕ → ℕ → ℕ → Option String → Instance → Option (Instance × Bool)
aux_vote_core r v index share s = if share_fits share then some vote else none
  where
    share_fits : Option String → Bool
    share_fits none = ltb r common_coin_round
    share_fits (some x) = leb common_coin_round r

    vote : Instance × Bool
    vote =
        (put_aux_vote (truthy v) r index share s, not (contains index (aux_votes s (truthy v) r)))

-- auxVote. From COMMON_COIN_ROUND on the message's share is wanted and verified; before, it is
-- left aside.
unfoldable pub aux_vote : Env → ℕ → ℕ → ℕ → Option String → Instance → Option (Instance × Bool)
aux_vote e r v index none s =
    if leb common_coin_round r then none else aux_vote_core r v index none s
aux_vote e r v index (some share) s =
    if leb common_coin_round r
    then if e.verify_sig_share r share then aux_vote_core r v index (some share) s else none
    else aux_vote_core r v index none s
