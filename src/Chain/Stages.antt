-- ===== src/Chain/Stages.antt =====
-- What each call in processCommittedBlock does to the chain.
use skale_consensus.Prelude.{ℕ, ◌≡◌, ◌⊎◌, Bool, true, false, ◌∷◌, refl, arith}
use skale_consensus.Proposals.TimeStamps.{earlier}
use skale_consensus.Chain.State.{
  Block, Chain, Outcome, returned, exit_requested, failed, Ran, Around, check_state, unless_throws,
  check_for_exit, and_next,
}
use skale_consensus.Chain.Commit.{
  save_block, push_block_to_ext_face, with_averages, update_last_committed_block_info,
}

-- Where the chain starts, and whether blocks are passed on, do not change.
pub record Settled (c d : Chain) : Type 0 where
  pub same_start : d.bootstrap_block_id ≡ c.bootstrap_block_id
  pub same_ext_face : d.has_ext_face ≡ c.has_ext_face

-- What is stored of the last block.
pub record Uncommitted (c d : Chain) : Type 0 where
  pub same_id : d.last_committed_block_id ≡ c.last_committed_block_id
  pub same_stamp : d.last_committed_block_time_stamp ≡ c.last_committed_block_time_stamp

abbrev pub Saved : Block → Chain → Chain → Outcome → Type 0
Saved b c d returned =
    Settled c d × Uncommitted c d × (d.saved ≡ b ∷ c.saved) × (d.pushed ≡ c.pushed)
Saved b c d exit_requested =
    Settled c d × Uncommitted c d × (d.saved ≡ c.saved) × (d.pushed ≡ c.pushed)
Saved b c d failed = Settled c d × Uncommitted c d × (d.saved ≡ c.saved) × (d.pushed ≡ c.pushed)

pub save_block_lem :
    (a : Around) (b : Block) (c : Chain) → Saved b c ((save_block a b c).0) ((save_block a b c).1)
unfolding save_block
save_block_lem a b c = ground arith

abbrev pub Pushed : Block → Chain → Chain → Outcome → Type 0
Pushed b c d returned =
    Settled c d × Uncommitted c d × (d.saved ≡ c.saved) × (d.pushed ≡ b ∷ c.pushed)
Pushed b c d exit_requested =
    Settled c d
    × Uncommitted c d
    × (d.saved ≡ c.saved)
    × ((d.pushed ≡ c.pushed) ⊎ (d.pushed ≡ b ∷ c.pushed))
Pushed b c d failed =
    Settled c d
    × Uncommitted c d
    × (d.saved ≡ c.saved)
    × ((d.pushed ≡ c.pushed) ⊎ (d.pushed ≡ b ∷ c.pushed))

pub push_block_lem :
    (a : Around) (b : Block) (c : Chain)
    → c.has_ext_face ≡ true
    → Pushed b c ((push_block_to_ext_face a b c).0) ((push_block_to_ext_face a b c).1)
unfolding push_block_to_ext_face
push_block_lem a b c h = ground arith

abbrev pub Updated : Block → Chain → Chain → Outcome → Type 0
Updated b c d returned =
    Settled c d
    × (d.saved ≡ c.saved)
    × (d.pushed ≡ c.pushed)
    × (d.last_committed_block_id ≡ b.block_id)
    × (d.last_committed_block_time_stamp ≡ b.stamp)
    × (earlier c.last_committed_block_time_stamp b.stamp ≡ true)
Updated b c d exit_requested = ⊥
Updated b c d failed =
    Settled c d
    × (d.saved ≡ c.saved)
    × (d.pushed ≡ c.pushed)
    × (Uncommitted c d
        ⊎ ((d.last_committed_block_id ≡ b.block_id)
            × (d.last_committed_block_time_stamp ≡ b.stamp)
            × (earlier c.last_committed_block_time_stamp b.stamp ≡ true)))

with_averages-Settled : (now id size : ℕ) (c : Chain) → Settled c (with_averages now id size c)
unfolding with_averages
with_averages-Settled now id size c = record { same_start = refl; same_ext_face = refl }

with_averages-Uncommitted :
    (now id size : ℕ) (c : Chain) → Uncommitted c (with_averages now id size c)
unfolding with_averages
with_averages-Uncommitted now id size c = record { same_id = refl; same_stamp = refl }

with_averages-logs :
    (now id size : ℕ) (c : Chain)
    → ((with_averages now id size c).saved ≡ c.saved)
      × ((with_averages now id size c).pushed ≡ c.pushed)
unfolding with_averages
with_averages-logs now id size c = (refl, refl)

pub update_lem :
    (a : Around) (b : Block) (c : Chain)
    → Updated b c
        ((update_last_committed_block_info a b.block_id b.stamp b.transactions c).0)
        ((update_last_committed_block_info a b.block_id b.stamp b.transactions c).1)
unfolding update_last_committed_block_info
update_lem a b c =
    let d : Chain = record c {
      last_committed_block_id = b.block_id;
      last_committed_block_time_stamp = b.stamp;
      last_commit_time_ms = a.now;
    } in
    ground (
      arith,
      with_averages-Settled a.now b.block_id b.transactions d,
      with_averages-Uncommitted a.now b.block_id b.transactions d,
      with_averages-logs a.now b.block_id b.transactions d,
    )

pub and_next_cases :
    (Q : Chain → Outcome → Type 0) (P : Ran → Type 0) (r : Ran) (k : Chain → Ran)
    → Q (r.0) (r.1)
    → ((d : Chain) → Q d returned → P (k d))
    → ((d : Chain) → Q d exit_requested → P (d, exit_requested))
    → ((d : Chain) → Q d failed → P (d, failed))
    → P (and_next r k)
and_next_cases Q P (c, returned) k q x y z = x c q
and_next_cases Q P (c, exit_requested) k q x y z = y c q
and_next_cases Q P (c, failed) k q x y z = z c q

pub check_for_exit_cases :
    (P : Ran → Type 0) (t : Bool) (c : Chain) (k : Ran)
    → P (c, exit_requested)
    → P k
    → P (check_for_exit t c k)
check_for_exit_cases P true c k x y = x
check_for_exit_cases P false c k x y = y

pub unless_throws_cases :
    (P : Ran → Type 0) (t : Bool) (c : Chain) (k : Ran)
    → P (c, failed)
    → P k
    → P (unless_throws t c k)
unless_throws_cases P true c k x y = x
unless_throws_cases P false c k x y = y

pub check_state_cases :
    (P : Ran → Type 0) (t : Bool) (c : Chain) (k : Ran)
    → P (c, failed)
    → (t ≡ true → P k)
    → P (check_state t c k)
check_state_cases P true c k x y = y refl
check_state_cases P false c k x y = x
