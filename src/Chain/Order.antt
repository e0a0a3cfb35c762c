-- ===== src/Chain/Order.antt =====
-- The order in which blocks are committed, whatever fails.
use skale_consensus.Prelude.{
  ℕ, ◌+◌, ◌≡◌, ◌⊎◌, Bool, true, ◌||◌, not, Option, none, some, List, [], ◌∷◌, ltb, leb, ◌==◌, u64,
  refl, sym, ◌∙◌, ap, subst, arith, inl, inr, if_cases,
}
use skale_consensus.Proposals.TimeStamps.{TimeStamp, earlier}
use skale_consensus.Chain.State.{
  Block, Chain, returned, exit_requested, failed, Ran, Around, and_next,
}
use skale_consensus.Chain.Commit.{
  next_id, process_committed_block, propose_next_block, committed_proposal, commit_proposal,
  block_commit_arrived, process_blocks, after_catchup, block_commits_arrived_through_catchup,
}
use skale_consensus.Chain.Stages.{
  Settled, check_for_exit_cases, unless_throws_cases, check_state_cases,
}
use skale_consensus.Chain.Progress.{
  Progress, untouched, only_saved, only_pushed, committed, process_committed_block_lem,
}

-- Each block passed on is the successor of the one before it, or the same number again; the first is
-- the successor of the block that the chain started with.
abbrev pub IsChained : ℕ → List Block → Type 0
IsChained start [] = Unit
IsChained start (b ∷ []) = b.block_id ≡ u64 (start + 1)
IsChained start (b ∷ b' ∷ bs) =
    ((b.block_id ≡ b'.block_id) ⊎ (b.block_id ≡ u64 (b'.block_id + 1))) × IsChained start (b' ∷ bs)

-- The newest block passed on is the last committed one, or the next.
abbrev pub IsNewest : ℕ → ℕ → List Block → Type 0
IsNewest start last [] = last ≡ start
IsNewest start last (b ∷ bs) = (b.block_id ≡ last) ⊎ (b.block_id ≡ u64 (last + 1))

-- What has been passed on was saved before, in that order.
pub data IsSavedFirst : List Block → List Block → Type 0 where
  none_yet : IsSavedFirst [] []
  save : (b : Block) (ps ss : List Block) → IsSavedFirst ps ss → IsSavedFirst ps (b ∷ ss)
  push : (b : Block) (ps ss : List Block) → IsSavedFirst ps ss → IsSavedFirst (b ∷ ps) (b ∷ ss)

pub record IsOrderly (c : Chain) : Type 0 where
  pub face : c.has_ext_face ≡ true
  pub chained : IsChained c.bootstrap_block_id c.pushed
  pub newest : IsNewest c.bootstrap_block_id c.last_committed_block_id c.pushed
  pub saved_first : IsSavedFirst c.pushed c.saved

-- The last committed block stays, or one with a later time stamp takes its place.
abbrev pub Advances : Chain → Chain → Type 0
Advances c d =
    ((d.last_committed_block_id ≡ c.last_committed_block_id)
      × (d.last_committed_block_time_stamp ≡ c.last_committed_block_time_stamp))
    ⊎ (earlier c.last_committed_block_time_stamp d.last_committed_block_time_stamp ≡ true)

earlier_trans : (x y z : TimeStamp) → earlier x y ≡ true → earlier y z ≡ true → earlier x z ≡ true
unfolding earlier
earlier_trans x y z p q = ground arith

Advances-trans : (c d e : Chain) → Advances c d → Advances d e → Advances c e
Advances-trans c d e (inl p) (inl q) = inl (q.0 ∙ p.0, q.1 ∙ p.1)
Advances-trans c d e (inl p) (inr q) =
    inr (ap (λ t. earlier t e.last_committed_block_time_stamp) (sym p.1) ∙ q)
Advances-trans c d e (inr p) (inl q) =
    inr (ap (λ t. earlier c.last_committed_block_time_stamp t) q.1 ∙ p)
Advances-trans c d e (inr p) (inr q) = inr (
    earlier_trans c.last_committed_block_time_stamp d.last_committed_block_time_stamp
      e.last_committed_block_time_stamp p q)

chain_grows :
    (start last : ℕ) (b : Block) (ps : List Block)
    → IsChained start ps
    → IsNewest start last ps
    → b.block_id ≡ u64 (last + 1)
    → IsChained start (b ∷ ps)
chain_grows start last b [] c n e = e ∙ ap (λ (k : ℕ). u64 (k + 1)) n
chain_grows start last b (b' ∷ bs) c (inl n) e = (inr (e ∙ ap (λ (k : ℕ). u64 (k + 1)) (sym n)), c)
chain_grows start last b (b' ∷ bs) c (inr n) e = (inl (e ∙ sym n), c)

abbrev Keeps : Chain → Chain → Type 0
Keeps c d = IsOrderly c → IsOrderly d × Advances c d

rebuild :
    (d : Chain) (start last : ℕ) (ps ss : List Block)
    → d.has_ext_face ≡ true
    → d.bootstrap_block_id ≡ start
    → d.last_committed_block_id ≡ last
    → d.pushed ≡ ps
    → d.saved ≡ ss
    → IsChained start ps
    → IsNewest start last ps
    → IsSavedFirst ps ss
    → IsOrderly d
rebuild d start last ps ss face s l p q c n f = record {
  face = face;
  chained = subst (λ (k : ℕ). IsChained k d.pushed) (sym s) (subst (IsChained start) (sym p) c);
  newest =
      subst (λ (k : ℕ). IsNewest k d.last_committed_block_id d.pushed) (sym s)
        (subst (λ (k : ℕ). IsNewest start k d.pushed) (sym l)
          (subst (IsNewest start last) (sym p) n));
  saved_first = subst (λ xs. IsSavedFirst xs d.saved) (sym p) (subst (IsSavedFirst ps) (sym q) f);
}

abbrev KeepsAll : Chain → Ran → Type 0
KeepsAll c r = Keeps c (r.0)

Progress-Keeps : (b : Block) (c d : Chain) → Settled c d → Progress b c d → Keeps c d
Progress-Keeps b c d s (untouched u p q) o = (
  rebuild d c.bootstrap_block_id c.last_committed_block_id c.pushed c.saved
      (s.same_ext_face ∙ o.face) s.same_start u.same_id q p o.chained o.newest o.saved_first,
  inl (u.same_id, u.same_stamp),
)
Progress-Keeps b c d s (only_saved u p q) o = (
  rebuild d c.bootstrap_block_id c.last_committed_block_id c.pushed (b ∷ c.saved)
      (s.same_ext_face ∙ o.face) s.same_start u.same_id q p o.chained o.newest
      (save b c.pushed c.saved o.saved_first),
  inl (u.same_id, u.same_stamp),
)
Progress-Keeps b c d s (only_pushed u next p q) o = (
  rebuild d c.bootstrap_block_id c.last_committed_block_id (b ∷ c.pushed) (b ∷ c.saved)
      (s.same_ext_face ∙ o.face) s.same_start u.same_id q p
      (chain_grows c.bootstrap_block_id c.last_committed_block_id b c.pushed o.chained o.newest
        next)
      (inr next) (push b c.pushed c.saved o.saved_first),
  inl (u.same_id, u.same_stamp),
)
Progress-Keeps b c d s (committed next l t e p q) o = (
  rebuild d c.bootstrap_block_id b.block_id (b ∷ c.pushed) (b ∷ c.saved) (s.same_ext_face ∙ o.face)
      s.same_start l q p
      (chain_grows c.bootstrap_block_id c.last_committed_block_id b c.pushed o.chained o.newest
        next)
      (inl refl) (push b c.pushed c.saved o.saved_first),
  inr (ap (λ x. earlier c.last_committed_block_time_stamp x) t ∙ e),
)

Keeps-refl : (c : Chain) → Keeps c c
Keeps-refl c o = (o, inl (refl, refl))

Keeps-trans : (c d e : Chain) → Keeps c d → Keeps d e → Keeps c e
Keeps-trans c d e p q o = let r = p o in let s = q r.0 in (s.0, Advances-trans c d e r.1 s.1)

and_next-Keeps :
    (c : Chain) (r : Ran) (k : Chain → Ran)
    → Keeps c (r.0)
    → ((d : Chain) → Keeps d ((k d).0))
    → Keeps c ((and_next r k).0)
and_next-Keeps c (d, returned) k p q = Keeps-trans c d ((k d).0) p (q d)
and_next-Keeps c (d, exit_requested) k p q = p
and_next-Keeps c (d, failed) k p q = p

process_Keeps : (a : Around) (b : Block) (c : Chain) → Keeps c ((process_committed_block a b c).0)
process_Keeps a b c o =
    let r = process_committed_block_lem a b c o.face in
    Progress-Keeps b c ((process_committed_block a b c).0) r.0 r.1 o

propose_Keeps : (a : Around) (c : Chain) → Keeps c ((propose_next_block a c).0)
unfolding propose_next_block
propose_Keeps a c = check_for_exit_cases (KeepsAll c) a.exit_at_propose c _ (Keeps-refl c) (
    unless_throws_cases (KeepsAll c) a.propose_throws c _ (Keeps-refl c) (λ o. (
      rebuild (record c { proposed = next_id c ∷ c.proposed }) c.bootstrap_block_id
          c.last_committed_block_id c.pushed c.saved o.face refl refl refl refl o.chained o.newest
          o.saved_first,
      inl (refl, refl),
    )))

process_blocks-Keeps :
    (bs : List (Around × Bool × Block)) (c : Chain) → Keeps c ((process_blocks bs c).0)
unfolding process_blocks
process_blocks-Keeps [] c = Keeps-refl c
process_blocks-Keeps ((a, exits, b) ∷ bs) c =
    check_for_exit_cases (KeepsAll c) exits c _ (Keeps-refl c) (
      if_cases (KeepsAll c) (b.block_id == next_id c) _ _
        (λ e.
          check_state_cases (KeepsAll c) (earlier c.last_committed_block_time_stamp b.stamp) c _
            (Keeps-refl c)
            (λ f.
              and_next-Keeps c (process_committed_block a b c) (process_blocks bs)
                (process_Keeps a b c) (process_blocks-Keeps bs)))
        (λ e. process_blocks-Keeps bs c))

commit_proposal-Keeps :
    (a : Around) (o : Option Block) (c : Chain) → Keeps c ((commit_proposal a o c).0)
commit_proposal-Keeps a none c = Keeps-refl c
commit_proposal-Keeps a (some b) c =
    check_state_cases (KeepsAll c) (earlier c.last_committed_block_time_stamp b.stamp) c _
      (Keeps-refl c)
      (λ f.
        and_next-Keeps c (process_committed_block a b c) (λ d. propose_next_block a d)
          (process_Keeps a b c) (propose_Keeps a))

block_commit_arrived-Keeps :
    (a : Around) (s x : Bool) (id proposer : ℕ) (stored : Option Block) (c : Chain)
    → Keeps c ((block_commit_arrived a s x id proposer stored c).0)
unfolding block_commit_arrived
block_commit_arrived-Keeps a s x id proposer stored c =
    check_state_cases (KeepsAll c) (s || proposer == 0) c _ (Keeps-refl c) (λ e.
      check_state_cases (KeepsAll c) (not c.is_sync_only) c _ (Keeps-refl c) (λ f.
        check_for_exit_cases (KeepsAll c) x c _ (Keeps-refl c) (
          if_cases (KeepsAll c) (leb id c.last_committed_block_id) _ _ (λ g. Keeps-refl c)
            (λ g.
              check_state_cases (KeepsAll c) (id == next_id c || c.last_committed_block_id == 0) c _
                (Keeps-refl c)
                (λ h. commit_proposal-Keeps a (committed_proposal id proposer stored c) c)))))

after_catchup-Keeps : (a : Around) (old c : Chain) → Keeps c ((after_catchup a old c).0)
after_catchup-Keeps a old c =
    if_cases (KeepsAll c) (ltb old.last_committed_block_id c.last_committed_block_id) _ _
      (λ e. if_cases (KeepsAll c) c.is_sync_only _ _ (λ f. Keeps-refl c) (λ f. propose_Keeps a c))
      (λ e. Keeps-refl c)

catchup_Keeps :
    (a : Around) (bs : List (Around × Bool × Block)) (c : Chain)
    → Keeps c ((block_commits_arrived_through_catchup a bs c).0)
unfolding block_commits_arrived_through_catchup
catchup_Keeps a [] c = Keeps-refl c
catchup_Keeps a ((first, exits, b) ∷ bs) c =
    check_state_cases (KeepsAll c) (leb b.block_id (next_id c)) c _ (Keeps-refl c) (λ e.
      and_next-Keeps c (process_blocks ((first, exits, b) ∷ bs) c) (λ d. after_catchup a c d)
        (process_blocks-Keeps ((first, exits, b) ∷ bs) c) (after_catchup-Keeps a c))

-- The two ways in which blocks are committed, whatever the outcome.
pub data Step (c d : Chain) : Type 0 where
  commit :
      (a : Around) (s x : Bool) (id proposer : ℕ) (stored : Option Block)
      → (block_commit_arrived a s x id proposer stored c).0 ≡ d
      → Step c d
  catch_up :
      (a : Around) (bs : List (Around × Bool × Block))
      → (block_commits_arrived_through_catchup a bs c).0 ≡ d
      → Step c d

pub data Reaches (c : Chain) : Chain → Type 0 where
  here : Reaches c c
  after : {d : Chain} (e : Chain) → Reaches c d → Step d e → Reaches c e

Step-Keeps : (c d : Chain) → Step c d → Keeps c d
Step-Keeps c d (commit a s x id proposer stored e) =
    subst (Keeps c) e (block_commit_arrived-Keeps a s x id proposer stored c)
Step-Keeps c d (catch_up a bs e) = subst (Keeps c) e (catchup_Keeps a bs c)

-- Whatever commits and catch-ups happen to an orderly chain, with exit requested or an exception at
-- any point of any of them: the chain stays orderly. The numbers of the blocks passed to the execution
-- layer go up by one or repeat the last number, from the one after the block that the chain started
-- with; the newest of them is the last committed block or the next; and each was saved before. The
-- last committed block is the same as before, with its time stamp, or its time stamp is later.
pub reaches-IsOrderly : (c d : Chain) → Reaches c d → IsOrderly c → IsOrderly d × Advances c d
reaches-IsOrderly c d here = Keeps-refl c
reaches-IsOrderly c d' (after {d = d} e r s) =
    Keeps-trans c d d' (reaches-IsOrderly c d r) (Step-Keeps d d' s)
