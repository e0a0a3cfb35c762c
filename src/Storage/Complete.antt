-- ===== src/Storage/Complete.antt =====
-- When a set of a CacheLevelDB is returned.
use skale_consensus.Prelude.{
  ℕ, zero, suc, ◌+◌, ◌^◌, ◌≡◌, ◌≤◌, ◌<◌, Bool, true, false, none, some, List, [], ◌∷◌, length, ◌==◌,
  if◌then◌else◌, refl, sym, ap, subst, ◌∙◌, arith,
}
use skale_consensus.Prelude.Results.{ok}
use skale_consensus.Storage.LevelDb.{index_key, LevelDb}
use skale_consensus.Storage.Shards.{
  Shards, Signers, leveldb_shards, rotate_dbs_if_needed, write_string_to_set, add_entry, read_set,
  key_exists, is_empty_text, new_shards,
}
use skale_consensus.Storage.Life.{Living, View, is_living, locate, key_exists-locate}
use skale_consensus.Storage.View.{Op, write, add, Seen, rotated, completed, set_at, see, see_all}
use skale_consensus.Storage.Collect.{read_set-set_at}
use skale_consensus.Storage.Counting.{present, IsCounted, unstarted}
use skale_consensus.Storage.Sets.{
  rotated-IsCounted, added-IsCounted, added-new, grown, grown-IsCounted, present-grown,
  length-set_at,
}
use skale_consensus.Storage.Operations.{add_entry-added, rotate-locate, rotate-IsOpen}
use skale_consensus.Storage.Refine.{run, run-nothing, nothing}

-- Only entries of sets are written, and none is empty.
abbrev pub AddsOnly : List Op → Type 0
AddsOnly [] = Unit
AddsOnly (write too_large k v overwrite ∷ ops) = ⊥
AddsOnly (add too_large v b i ∷ ops) = (is_empty_text v ≡ false) × AddsOnly ops

see_all-IsCounted :
    (g : Signers) (ops : List Op) (f : View)
    → g.total_signers < 2 ^ 64
    → AddsOnly ops
    → ((c : ℕ) → IsCounted g.total_signers c f)
    → (c : ℕ) → IsCounted g.total_signers c ((see_all g ops f).0)
unfolding see_all see
see_all-IsCounted g [] f h a all c = all c
see_all-IsCounted g (write too_large k v overwrite ∷ ops) f h a all c = absurd a
see_all-IsCounted g (add too_large v b i ∷ ops) f h a all c =
    see_all-IsCounted g ops ((see g (add too_large v b i) f).view) h a.1
      (added-IsCounted g v b i (rotated too_large f) h a.0
        (λ d. rotated-IsCounted g.total_signers d too_large f (all d)))
      c

module _ (L : LevelDb) where
  open L use {Db}

  -- How many of the indices from `i` on have an entry.
  unfoldable pub entry_count : ℕ → Shards L → ℕ → ℕ → ℕ
  entry_count b ds i zero = 0
  entry_count b ds i (suc k) =
      let rest = entry_count b ds (i + 1) k in
      if key_exists L (index_key b i) ds then rest + 1 else rest

  entry_count-present :
      (b : ℕ) (ds : Shards L) (i k : ℕ) → entry_count b ds i k ≡ present (locate L ds) b i k
  unfolding entry_count present
  entry_count-present b ds i zero = refl
  entry_count-present b ds i (suc k) =
      ground (arith, key_exists-locate L (index_key b i) ds, entry_count-present b ds (i + 1) k)

  -- The databases after some entries, when it is time to add the next.
  abbrev pub reached : Signers → List Op → Bool → Shards L
  reached g ops too_large =
      rotate_dbs_if_needed L too_large ((run L g ops (new_shards L leveldb_shards)).0)

  reached-IsCounted :
      (g : Signers) (ops : List Op) (too_large : Bool)
      → g.total_signers < 2 ^ 64
      → AddsOnly ops
      → (c : ℕ) → IsCounted g.total_signers c (locate L (reached g ops too_large))
  reached-IsCounted g ops too_large h a c =
      subst (IsCounted g.total_signers c)
        (sym (
          rotate-locate L too_large ((run L g ops (new_shards L leveldb_shards)).0)
          ∙ ap (rotated too_large) (run-nothing L g ops).0))
        (rotated-IsCounted g.total_signers c too_large ((see_all g ops (nothing L)).0)
          (see_all-IsCounted g ops (nothing L) h a (λ d. unstarted refl (λ i. refl)) c))

  -- On databases with counted sets.
  new_entry_lem :
      (g : Signers) (v : List ℕ) (b i : ℕ) (ds : Shards L)
      → length ds ≡ leveldb_shards
      → g.total_signers < 2 ^ 64
      → is_empty_text v ≡ false
      → IsCounted g.total_signers b (locate L ds)
      → 1 ≤ i
      → i ≤ g.total_signers
      → locate L ds (index_key b i) ≡ none
      → let w = add_entry L g v b i ds in
        let count = entry_count b ds 1 g.total_signers in
        (entry_count b w.shards 1 g.total_signers ≡ count + 1)
        × (w.returned ≡ (
            if count + 1 == g.required_signers
            then ok (some (read_set L g b w.shards))
            else ok none))
        × (count + 1 ≡ g.required_signers → length (read_set L g b w.shards) ≡ g.required_signers)
  new_entry_lem g v b i ds h small full c low high new =
      let f : View = locate L ds in
      let w = add_entry L g v b i ds in
      let more : View = grown g.total_signers b v i f in
      let agrees = add_entry-added L g v b i ds h in
      let step = added-new g v b i f small c new low high in
      let shown : locate L w.shards ≡ more = agrees.1 ∙ ap (λ (s : Seen). s.view) step in
      let result : w.returned
          ≡ completed g b more (present f b 1 g.total_signers + 1 == g.required_signers) =
        agrees.2 ∙ ap (λ (s : Seen). s.returned) step in
      let before : entry_count b ds 1 g.total_signers ≡ present f b 1 g.total_signers =
        entry_count-present b ds 1 g.total_signers in
      let grew : present more b 1 g.total_signers ≡ present f b 1 g.total_signers + 1 =
        present-grown g.total_signers b v i f full new low high in
      let counted : IsCounted g.total_signers b more =
        grown-IsCounted g.total_signers b v i f full new low high c in
      let taken : 1 ≤ g.required_signers → read_set L g b w.shards ≡ set_at g b more =
        λ r. read_set-set_at L g b w.shards r ∙ ap (set_at g b) shown in
      (
        entry_count-present b w.shards 1 g.total_signers
            ∙ ap (λ e. present e b 1 g.total_signers) shown
            ∙ omega arith,
        ground (arith, taken, length-set_at g b more counted),
        λ e.
            ap length (taken (omega (arith, e)))
            ∙ length-set_at g b more counted (omega (arith, e)),
      )

  -- After any entries of sets, none of them empty, with rotations before any of them: a further entry
  -- whose key exists changes nothing and returns nothing. One whose key does not exist adds one to the
  -- number of entries its block has, and when that number becomes the required one, and only then, the
  -- set as read back is returned, and it has the required number of entries; no check fails. The index
  -- is in range, and the number of signers fits in 64 bits.
  pub write_string_to_set-completes :
      (g : Signers) (ops : List Op) (too_large : Bool) (v : List ℕ) (b i : ℕ)
      → g.total_signers < 2 ^ 64
      → AddsOnly ops
      → is_empty_text v ≡ false
      → 1 ≤ i
      → i ≤ g.total_signers
      → let ds = reached g ops too_large in
        let w =
          write_string_to_set L too_large g v b i ((run L g ops (new_shards L leveldb_shards)).0) in
        let count = entry_count b ds 1 g.total_signers in
        (key_exists L (index_key b i) ds ≡ true → (w.shards ≡ ds) × (w.returned ≡ ok none))
        × (key_exists L (index_key b i) ds ≡ false
            → (entry_count b w.shards 1 g.total_signers ≡ count + 1)
              × (w.returned ≡ (
                  if count + 1 == g.required_signers
                  then ok (some (read_set L g b w.shards))
                  else ok none))
              × (count + 1 ≡ g.required_signers
                  → length (read_set L g b w.shards) ≡ g.required_signers))
  unfolding write_string_to_set
  write_string_to_set-completes g ops too_large v b i small a full low high =
      let ds : Shards L = reached g ops too_large in
      (
        λ e. (ground arith, ground arith),
        λ e.
            new_entry_lem g v b i ds
              (rotate-IsOpen L too_large ((run L g ops (new_shards L leveldb_shards)).0)
                ((run-nothing L g ops).2))
              small full (reached-IsCounted g ops too_large small a b) low high
              (of_absent (locate L ds (index_key b i))
                (sym (key_exists-locate L (index_key b i) ds) ∙ e)),
      )
    where
      of_absent : (l : Living) → is_living l ≡ false → l ≡ none
      of_absent none p = refl
      of_absent (some l) p = cc
