-- ===== src/Storage/Sets.antt =====
-- The sets of a CacheLevelDB under writes and rotations.
use skale_consensus.Prelude.{
  ℕ, zero, suc, ◌+◌, ◌-◌, ◌^◌, ◌≡◌, ◌≤◌, ◌<◌, Bool, true, false, not, none, some, List, length,
  length-take, ltb, leb, ◌==◌, ◌&&◌, refl, sym, subst, arith, Option-cases, Bool-cases, inl, inr,
  ==_iff,
}
use skale_consensus.Prelude.Decimal.{to_string, stoull-to_string}
use skale_consensus.Storage.LevelDb.{index_key, counter_key}
use skale_consensus.Storage.Shards.{Signers, leveldb_shards, is_empty_text}
use skale_consensus.Storage.Life.{Living, View, value_of, is_living, aged}
use skale_consensus.Storage.View.{
  Seen, rotated, count_at, life_at, with_entry, completed, added, entries, set_at,
}
use skale_consensus.Storage.Counting.{
  present, LivesFor, IsCounted, unstarted, started, present-le, present-agree, present_of_none,
  after-index, after-counter, present-after,
}

aged-LivesFor :
    (life : ℕ) (l : Living) → ltb 1 life ≡ true → LivesFor life l → LivesFor (life - 1) (aged l)
unfolding aged
aged-LivesFor life none p h = tt
aged-LivesFor life (some (k, v)) p h = ground arith

aged-dropped : (life : ℕ) (l : Living) → ltb 1 life ≡ false → LivesFor life l → aged l ≡ none
unfolding aged
aged-dropped life none p h = refl
aged-dropped life (some (k, v)) p h = ground arith

aged-is_living :
    (life : ℕ) (l : Living) → ltb 1 life ≡ true → LivesFor life l → is_living l ≡ is_living (aged l)
unfolding aged
aged-is_living life none p h = refl
aged-is_living life (some (k, v)) p h = ground arith

-- A set is dropped as a whole.
pub rotated-IsCounted :
    (total b : ℕ) (too_large : Bool) (f : View)
    → IsCounted total b f
    → IsCounted total b (rotated too_large f)
unfolding rotated aged
rotated-IsCounted total b false f c = c
rotated-IsCounted total b true f (unstarted p q) =
    unstarted (ground arith) (λ i. ground (arith, q i))
rotated-IsCounted total b true f (started life h p q) = elim (Bool-cases (ltb 1 life)) [
  | inl e ↦
      started (life - 1) (ground arith)
        (ground (
          arith,
          present-agree f (rotated true f) b 1 total
              (λ i. aged-is_living life (f (index_key b i)) e (q i)),
        ))
        (λ i. aged-LivesFor life (f (index_key b i)) e (q i))
  | inr e ↦ unstarted (ground arith) (λ i. aged-dropped life (f (index_key b i)) e (q i))
]

-- The counter of a set can be read.
pub count_at-present :
    (total b : ℕ) (f : View)
    → total < 2 ^ 64
    → IsCounted total b f
    → count_at (f (counter_key b)) ≡ some (present f b 1 total)
count_at-present total b f h (unstarted p q) = ground (arith, present_of_none f b 1 total q)
count_at-present total b f h (started life l p q) =
    rw p (stoull-to_string (present f b 1 total) (omega (arith, present-le f b 1 total)))

-- The view with one more entry.
abbrev pub grown : ℕ → ℕ → List ℕ → ℕ → View → View
grown total b v i f = with_entry b v i (present f b 1 total) f

module _ (total b : ℕ) (v : List ℕ) (i : ℕ) (f : View) (full : is_empty_text v ≡ false)
    (new : f (index_key b i) ≡ none) (low : 1 ≤ i) (high : i ≤ total) where
  abbrev grown_set : View
  grown_set = grown total b v i f

  pub present-grown : present grown_set b 1 total ≡ present f b 1 total + 1
  present-grown = present-after f b v i (present f b 1 total) 1 total new low (omega arith)

  counter-grown :
      grown_set (counter_key b)
      ≡ some (life_at (f (counter_key b)), to_string (present grown_set b 1 total))
  counter-grown = ground (arith, after-counter f b v i (present f b 1 total) b, present-grown)

  -- The set that the entry is added to.
  pub grown-IsCounted : IsCounted total b f → IsCounted total b grown_set
  grown-IsCounted (unstarted p q) =
      started leveldb_shards (omega arith) (ground (arith, counter-grown))
        (λ j. ground (arith, after-index f b v i (present f b 1 total) b j, q j))
  grown-IsCounted (started life h p q) =
      started life h (ground (arith, counter-grown))
        (λ j. ground (arith, after-index f b v i (present f b 1 total) b j, q j))

  -- Another set.
  pub grown_apart : (c : ℕ) → (c == b) ≡ false → IsCounted total c f → IsCounted total c grown_set
  grown_apart c e (unstarted p q) =
      unstarted (ground (arith, after-counter f b v i (present f b 1 total) c))
        (λ j. ground (arith, after-index f b v i (present f b 1 total) c j, q j))
  grown_apart c e (started life h p q) =
      started life h
        (ground (
          arith,
          after-counter f b v i (present f b 1 total) c,
          present-agree f grown_set c 1 total
              (λ j. ground (arith, after-index f b v i (present f b 1 total) c j)),
        ))
        (λ j. ground (arith, after-index f b v i (present f b 1 total) c j, q j))

-- What an entry that is new does.
pub added-new :
    (g : Signers) (v : List ℕ) (b i : ℕ) (f : View)
    → g.total_signers < 2 ^ 64
    → IsCounted g.total_signers b f
    → f (index_key b i) ≡ none
    → 1 ≤ i
    → i ≤ g.total_signers
    → added g v b i f ≡ record {
      view = grown g.total_signers b v i f;
      returned =
          completed g b
            (grown g.total_signers b v i f)
            (present f b 1 g.total_signers + 1 == g.required_signers);
    }
unfolding added
added-new g v b i f h c new low high =
    rw new (rw (count_at-present g.total_signers b f h c) (ground arith))

-- Every set stays counted.
pub added-IsCounted :
    (g : Signers) (v : List ℕ) (b i : ℕ) (f : View)
    → g.total_signers < 2 ^ 64
    → is_empty_text v ≡ false
    → ((c : ℕ) → IsCounted g.total_signers c f)
    → (c : ℕ) → IsCounted g.total_signers c ((added g v b i f).view)
unfolding added
added-IsCounted g v b i f h full all c = elim (Bool-cases (ltb 0 i && leb i g.total_signers)) [
  | inl p ↦ elim (Option-cases (f (index_key b i))) [
    | inl new ↦
        subst (λ (w : Seen). IsCounted g.total_signers c w.view)
          (sym (added-new g v b i f h (all b) new (ground arith) (ground arith)))
          (elim (Bool-cases (c == b)) [
            | inl e ↦
                subst (λ d. IsCounted g.total_signers d (grown g.total_signers b v i f))
                  (sym ((==_iff c b).0 e))
                  (grown-IsCounted g.total_signers b v i f full new (ground arith) (ground arith)
                    (all b))
            | inr e ↦
                grown_apart g.total_signers b v i f full new (ground arith) (ground arith) c e
                  (all c)
          ])
    | inr (w, q) ↦ rw (p, q) (all c)
  ]
  | inr p ↦ rw p (all c)
]

empty_of_counted :
    (total b : ℕ) (f : View)
    → IsCounted total b f
    → (i : ℕ) → is_empty_text (value_of (f (index_key b i))) ≡ not (is_living (f (index_key b i)))
empty_of_counted total b f (unstarted p q) i = ground (arith, q i)
empty_of_counted total b f (started life h p q) i = of_living (f (index_key b i)) (q i)
  where
    of_living : (l : Living) → LivesFor life l → is_empty_text (value_of l) ≡ not (is_living l)
    of_living none t = refl
    of_living (some (k, v)) t = t.1

length-entries :
    (total b : ℕ) (f : View)
    → IsCounted total b f
    → (i k : ℕ) → length (entries f b i k) ≡ present f b i k
unfolding entries present
length-entries total b f c i zero = refl
length-entries total b f c i (suc k) =
    ground (arith, empty_of_counted total b f c i, length-entries total b f c (i + 1) k)

-- A set that has enough entries gives as many as are required.
pub length-set_at :
    (g : Signers) (b : ℕ) (f : View)
    → IsCounted g.total_signers b f
    → g.required_signers ≤ present f b 1 g.total_signers
    → length (set_at g b f) ≡ g.required_signers
unfolding set_at
length-set_at g b f c h =
    length-take g.required_signers (entries f b 1 g.total_signers)
      (omega (arith, length-entries g.total_signers b f c 1 g.total_signers))
