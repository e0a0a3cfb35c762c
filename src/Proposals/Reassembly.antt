-- ===== src/Proposals/Reassembly.antt =====
-- BlockProposal::getFragment against BlockProposalFragmentList::serialize.
use skale_consensus.Prelude.{
  ℕ, zero, suc, ◌+◌, ◌-◌, ◌*◌, ◌^◌, ◌≡◌, ◌≤◌, ◌<◌, false, ◌&&◌, List, [], ◌∷◌, ◌++◌, length,
  get_elem?, take, drop, ltb, leb, ◌==◌, if◌then◌else◌, u64, refl, ap, sym, subst, arith, ◌∙◌,
  if_cases, take-append, take-drop, drop-drop, length-append, length-drop, append-[],
}
use skale_consensus.Prelude.OrderedMap.{OrderedMap, IsSorted, length-le-range}
use skale_consensus.Prelude.Results.{
  Result, ok, check-ok, ok_injective, and_then-ok, invalid_argument, out_of_range, parsing,
}
use skale_consensus.Proposals.Fragment.{
  Fragment, Proposal, open_mark, close_mark, fragment_standard_size, cut, FragmentList,
  new_fragment, get_fragment, inner, join, is_at, check_proposal, serialize_if, serialize_fragments,
}
use skale_consensus.Proposals.Missing.{Inv}
use skale_consensus.Proposals.Adding.{is_complete-full}
use native.Mathlib.Nat.{mod-eq_of_lt, mul-le-mul_left}

take-all : (n : ℕ) (xs : List ℕ) → length xs ≤ n → take n xs ≡ xs
take-all zero [] h = refl
take-all zero (x ∷ xs) h = absurd (omega (arith, h))
take-all (suc n) [] h = refl
take-all (suc n) (x ∷ xs) h = ap (λ l. x ∷ l) (take-all n xs (omega (arith, h)))

inner-marked : (xs : List ℕ) → inner (open_mark ∷ xs ++ close_mark ∷ []) ≡ xs
inner-marked xs =
    subst (λ n. take n (xs ++ close_mark ∷ []) ≡ xs) len (take-append xs (close_mark ∷ []))
  where
    len : length xs ≡ suc (length (xs ++ close_mark ∷ [])) - 2
    len = omega (arith, length-append xs (close_mark ∷ []))

-- The piece of the bytes that the fragment of an index holds, with fragments of so many bytes.
abbrev stop_of : ℕ → ℕ → List ℕ → ℕ → ℕ
stop_of std n bytes i = if suc i == n then length bytes else std * i + std

abbrev IsPiece : ℕ → ℕ → List ℕ → ℕ → List ℕ → Type 0
IsPiece std n bytes i v =
    (inner v ≡ take (stop_of std n bytes i - std * i) (drop (std * i) bytes))
    × (std * i ≤ stop_of std n bytes i)
    × (stop_of std n bytes i ≤ length bytes)

-- The entry of the index `i + 1` holds the piece `i`.
abbrev ArePieces : ℕ → ℕ → List ℕ → OrderedMap (List ℕ) → Type 0
ArePieces std n bytes [] = Unit
ArePieces std n bytes ((k, v) ∷ m) = IsPiece std n bytes (k - 1) v × ArePieces std n bytes m

last_piece :
    (std n i : ℕ) (bytes v : List ℕ)
    → suc i ≡ n
    → IsPiece std n bytes i v
    → inner v ++ [] ≡ drop (std * i) bytes
last_piece std n i bytes v e (p, a, b) =
    append-[] (inner v)
    ∙ p
    ∙ take-all _ (drop (std * i) bytes) (omega (arith, length-drop (std * i) bytes, stop))
  where
    stop : stop_of std n bytes i ≡ length bytes
    stop = ground (arith, e)

inner_piece :
    (std n i : ℕ) (bytes v rest : List ℕ)
    → suc i < n
    → IsPiece std n bytes i v
    → rest ≡ drop (std * suc i) bytes
    → inner v ++ rest ≡ drop (std * i) bytes
inner_piece std n i bytes v rest h (p, a, b) e =
    ap (λ l. l ++ rest) (p ∙ ap (λ k. take k (drop (std * i) bytes)) width)
    ∙ ap (λ l. take std (drop (std * i) bytes) ++ l)
        (e ∙ sym (drop-drop std (std * i) (std * suc i) bytes (omega arith)))
    ∙ take-drop std (drop (std * i) bytes)
  where
    stop : stop_of std n bytes i ≡ std * i + std
    stop = ground (arith, h)

    width : stop_of std n bytes i - std * i ≡ std
    width = omega (arith, stop)

join-drop :
    (std n i : ℕ) (bytes : List ℕ) (m : OrderedMap (List ℕ))
    → i < n
    → IsSorted (suc i) n m
    → length m + suc i ≡ suc n
    → ArePieces std n bytes m
    → join m ≡ drop (std * i) bytes
unfolding join
join-drop std n i bytes [] lt s full ps = absurd (omega (arith, lt, full))
join-drop std n i bytes ((k, v) ∷ []) lt (a, b, s) full (p, ps) =
    last_piece std n i bytes v (omega (arith, full)) (subst (λ j. IsPiece std n bytes j v) here p)
  where
    here : k - 1 ≡ i
    here = omega (arith, a, b, full)
join-drop std n i bytes ((k, v) ∷ (j, w) ∷ m) lt (a, b, s) full (p, ps) =
    inner_piece std n i bytes v (join ((j, w) ∷ m)) (omega (arith, first, s.0, s.1))
      (subst (λ x. IsPiece std n bytes x v) (omega (arith, first)) p)
      (join-drop std n (suc i) bytes ((j, w) ∷ m) (omega (arith, first, s.0, s.1))
        (subst (λ x. IsSorted (suc x) n ((j, w) ∷ m)) first s) (omega (arith, full)) ps)
  where
    first : k ≡ suc i
    first = omega (arith, a, full, length-le-range (suc k) n ((j, w) ∷ m) s (omega (arith, b)))

-- A fragment keeps the bytes that it is made of.
new_fragment-ok : (f g : Fragment) → new_fragment f ≡ ok g → f ≡ g
unfolding new_fragment
new_fragment-ok f g p =
    let (_, a) = check-ok (ltb 0 (length f.block_hash)) invalid_argument _ p in
    let (_, b) = check-ok (ltb 0 f.total_fragments) invalid_argument _ a in
    let (_, c) = check-ok (leb f.fragment_index f.total_fragments) invalid_argument _ b in
    let (_, d) = check-ok (ltb 0 f.block_id) invalid_argument _ c in
    let (_, e) = check-ok (ltb 0 (length f.payload)) invalid_argument _ d in
    let (_, h) = check-ok (leb 3 (length f.payload)) parsing _ e in
    let (_, i) = check-ok (is_at open_mark (get_elem? f.payload 0)) parsing _ h in
    let (_, j) =
      check-ok (is_at close_mark (get_elem? f.payload (length f.payload - 1))) parsing _ i in
    ok_injective f g j

cut-inner :
    (bytes : List ℕ) (start stop : ℕ) (out : List ℕ)
    → cut bytes start stop ≡ ok out
    → (inner out ≡ take (stop - start) (drop start bytes)) × (start ≤ stop) × (stop ≤ length bytes)
cut-inner bytes start stop out p =
    let (within, q) = check-ok (leb start stop && leb stop (length bytes)) out_of_range _ p in
    let same = ok_injective _ out q in
    (
      ap inner (sym same) ∙ inner-marked (take (stop - start) (drop start bytes)),
      ground (arith, within),
      ground (arith, within),
    )

-- Fragments of `n` of a proposal that fits into 2^63 bytes.
abbrev pub Fits : ℕ → Proposal → Type 0
Fits n p = (n < 2 ^ 63) × (fragment_standard_size n (length p.serialized) * n < 2 ^ 63)

get_fragment-IsPiece :
    (n i : ℕ) (p : Proposal) (f : Fragment)
    → suc i ≤ n
    → Fits n p
    → get_fragment n (suc i) p ≡ ok f
    → IsPiece (fragment_standard_size n (length p.serialized)) n p.serialized i f.payload
unfolding get_fragment
get_fragment-IsPiece n i p f lt (small, room) e =
    let (_, q) = check-ok (ltb 0 n) invalid_argument _ e in
    let (_, r) = check-ok (leb (suc i) n) invalid_argument _ q in
    let (bytes, is_cut, made) =
      and_then-ok {A = List ℕ} {B = Fragment} (cut p.serialized start stop) _ r in
    subst (λ g. IsPiece std n p.serialized i g.payload) (new_fragment-ok _ f made)
      (subst (λ y. Between (std * i) y bytes) stop_i
        (subst (λ x. Between x stop bytes) start_i
          (cut-inner p.serialized start stop bytes is_cut)))
  where
    std : ℕ
    std = fragment_standard_size n (length p.serialized)

    start : ℕ
    start = u64 (std * u64 (suc i + (2 ^ 64 - 1)))

    stop : ℕ
    stop = if suc i == n then length p.serialized else u64 (start + std)

    Between : ℕ → ℕ → List ℕ → Type 0
    Between x y bytes =
        (inner bytes ≡ take (y - x) (drop x p.serialized)) × (x ≤ y) × (y ≤ length p.serialized)

    up_to : std * i + std < 2 ^ 63
    up_to = omega (arith, room, mul-le-mul_left std lt)

    before : u64 (suc i + (2 ^ 64 - 1)) ≡ i
    before = omega (arith, small, lt)

    start_i : start ≡ std * i
    start_i = ap (λ x. u64 (std * x)) before ∙ mod-eq_of_lt (omega (arith, up_to))

    stop_i : stop ≡ stop_of std n p.serialized i
    stop_i =
        ap (λ x. if suc i == n then length p.serialized else x)
          (ap (λ x. u64 (x + std)) start_i ∙ mod-eq_of_lt (omega (arith, up_to)))

-- Entries that are the bytes of the fragments that getFragment makes of a proposal.
abbrev pub AreFragments : ℕ → Proposal → OrderedMap (List ℕ) → Type 0
AreFragments n p [] = Unit
AreFragments n p ((k, v) ∷ m) =
    ((f : Fragment) × (get_fragment n k p ≡ ok f) × (f.payload ≡ v)) × AreFragments n p m

fragments-ArePieces :
    (n lo : ℕ) (p : Proposal) (m : OrderedMap (List ℕ))
    → Fits n p
    → 1 ≤ lo
    → IsSorted lo n m
    → AreFragments n p m
    → ArePieces (fragment_standard_size n (length p.serialized)) n p.serialized m
fragments-ArePieces n lo p [] room pos s fs = tt
fragments-ArePieces n lo p ((zero, v) ∷ m) room pos (a, b, s) fs = absurd (omega (arith, a, pos))
fragments-ArePieces n lo p ((suc i, v) ∷ m) room pos (a, b, s) ((f, made, same), fs) = (
  subst (λ j. IsPiece (fragment_standard_size n (length p.serialized)) n p.serialized j v) here
      (subst (IsPiece (fragment_standard_size n (length p.serialized)) n p.serialized i) same
        (get_fragment-IsPiece n i p f b room made)),
  fragments-ArePieces n (suc (suc i)) p m room (omega arith) s fs,
)
  where
    here : i ≡ suc i - 1
    here = omega arith

-- A complete list of the fragments of a proposal, in whatever order they came, serializes, the first
-- time, to the proposal's own bytes, checked for the brace that opens the header and the mark that
-- ends the transactions. The list satisfies its invariant and the proposal is small enough for 64-bit
-- arithmetic.
pub serialize_fragments-get_fragment :
    (l : FragmentList) (p : Proposal)
    → Inv l
    → Fits l.total p
    → AreFragments l.total p l.fragments
    → length l.fragments ≡ l.total
    → l.is_serialized ≡ false
    → (serialize_fragments l).1 ≡ check_proposal p.serialized
unfolding serialize_fragments
serialize_fragments-get_fragment l p v room fs full new =
    ap (λ r. (serialize_if l r).1) (is_complete-full l v full).0
    ∙ if_cases {A = FragmentList × Result (List ℕ)} (λ o. o.1 ≡ check_proposal p.serialized)
        l.is_serialized _ _ (λ old. absurd (ground (arith, old, new)))
        (λ _. ap check_proposal whole)
  where
    nought : fragment_standard_size l.total (length p.serialized) * 0 ≡ 0
    nought = omega arith

    none_cut :
        drop (fragment_standard_size l.total (length p.serialized) * 0) p.serialized ≡ p.serialized
    none_cut = ap (λ k. drop k p.serialized) nought

    whole : join l.fragments ≡ p.serialized
    whole =
        join-drop (fragment_standard_size l.total (length p.serialized)) l.total 0 p.serialized
          l.fragments (omega (arith, v.some_total)) v.sorted (omega (arith, full))
          (fragments-ArePieces l.total 1 p l.fragments room (omega arith) v.sorted fs)
        ∙ none_cut
