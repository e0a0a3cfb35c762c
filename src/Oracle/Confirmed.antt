-- ===== src/Oracle/Confirmed.antt =====
-- Which results are returned.
use skale_consensus.Prelude.{
  ℕ, ◌+◌, ◌-◌, ◌^◌, ◌≡◌, ◌≢◌, ◌≤◌, ◌<◌, Bool, true, false, ◌||◌, some, List, [], ◌∷◌, ◌++◌, length,
  ◌==◌, if◌then◌else◌, same_bytes, same_bytes_refl, same_bytes→≡, u64, refl, ap, arith,
  Option-cases, ==_iff, inl, inr,
}
use skale_consensus.Prelude.OrderedMap.{contains, find, emplace, contains-emplace}
use skale_consensus.Oracle.Received.{
  oracle_timeout_ms, Report, Received, new_received, insert_new, add_one, count_result,
  insert_if_doesnt_exist, sig_entries, sigs_text, null_text, compile_complete_result_json,
  first_confirmed, success, try_getting_result,
}
use skale_consensus.Oracle.Counts.{
  count_at, IsDistinct, count_at-count_result, count_result-IsDistinct, first_confirmed-count_at,
  first_confirmed-some,
}

-- The reports so far, the newest first.
unfoldable pub receive_all : List Report → Received → Received
receive_all [] r = r
receive_all (p ∷ ps) r = insert_if_doesnt_exist p (receive_all ps r)

abbrev pub has_reported : ℕ → List Report → Bool
has_reported i [] = false
has_reported i (p ∷ ps) = i == p.origin || has_reported i ps

-- How many nodes have reported a result in their first report.
unfoldable pub confirmations : List ℕ → List Report → ℕ
confirmations t [] = 0
confirmations t (p ∷ ps) =
    let rest = confirmations t ps in
    if has_reported p.origin ps then rest else if same_bytes t p.text then rest + 1 else rest

confirmations-le-length : (t : List ℕ) (ps : List Report) → confirmations t ps ≤ length ps
unfolding confirmations
confirmations-le-length t [] = omega arith
confirmations-le-length t (p ∷ ps) = ground (arith, confirmations-le-length t ps)

-- What the reports make of a new object.
record IsTally (r : Received) (ps : List Report) : Type 0 where
  known : (i : ℕ) → contains i r.signatures ≡ has_reported i ps
  tallied : (t : List ℕ) → count_at t r.counts ≡ confirmations t ps
  distinct : IsDistinct r.counts

insert-IsTally :
    (p : Report) (r : Received) (ps : List Report)
    → length ps < 2 ^ 64 - 1
    → IsTally r ps
    → IsTally (insert_if_doesnt_exist p r) (p ∷ ps)
unfolding insert_if_doesnt_exist confirmations
insert-IsTally p r ps h c = record {
  known = λ i. ground (
    arith,
    c.known i,
    c.known p.origin,
    contains-emplace i p.origin p.sig r.signatures,
    ==_iff i p.origin,
  );
  tallied = λ t. ground (
    arith,
    c.tallied t,
    c.known p.origin,
    count_at-count_result t p.text r.counts,
    confirmations-le-length t ps,
  );
  distinct = ground (arith, c.distinct, count_result-IsDistinct p.text r.counts);
}

abbrev Chosen : Received → List Report → List ℕ → Type 0
Chosen r ps result =
    (t : List ℕ) × (result ≡ compile_complete_result_json t r)
    × (r.required_confirmations ≤ confirmations t ps)

success_lem :
    (r : Received) (ps : List Report) (now : ℕ) (result : List ℕ)
    → IsTally r ps
    → try_getting_result true now r ≡ success result
    → Chosen r ps result
unfolding try_getting_result
success_lem r ps now result c e =
    elim (Option-cases (first_confirmed r.required_confirmations r.counts)) [
      | inl f ↦ absurd (ground arith)
      | inr (t, f) ↦ (
        t,
        ground arith,
        ground (
          arith,
          first_confirmed-count_at r.required_confirmations r.counts t c.distinct f,
          c.tallied t,
        ),
      )
    ]

returned_lem :
    (r : Received) (ps : List Report) (now : ℕ) (t : List ℕ)
    → IsTally r ps
    → 1 ≤ r.required_confirmations
    → now ≤ u64 (r.request_time + oracle_timeout_ms)
    → r.required_confirmations ≤ confirmations t ps
    → (result : List ℕ) × (try_getting_result true now r ≡ success result)
unfolding try_getting_result
returned_lem r ps now t c pos early enough =
    elim (Option-cases (first_confirmed r.required_confirmations r.counts)) [
      | inl f ↦ absurd (
          first_confirmed-some r.required_confirmations r.counts t pos (omega (arith, c.tallied t))
            f)
      | inr (u, f) ↦ (compile_complete_result_json u r, ground arith)
    ]

required_pos :
    (signers nodes start : ℕ) → 1 ≤ (new_received signers nodes start).required_confirmations
unfolding new_received
required_pos signers nodes start = omega arith

module _ (signers nodes start : ℕ) where
  abbrev received : List Report → Received
  received ps = receive_all ps (new_received signers nodes start)

  abbrev required : ℕ
  required = (new_received signers nodes start).required_confirmations

  fixed :
      (ps : List Report)
      → ((received ps).required_confirmations ≡ required) × ((received ps).request_time ≡ start)
  unfolding receive_all insert_if_doesnt_exist new_received
  fixed [] = (refl, refl)
  fixed (p ∷ ps) = ground (arith, fixed ps)

  received-IsTally : (ps : List Report) → length ps < 2 ^ 64 → IsTally (received ps) ps
  unfolding receive_all new_received contains confirmations
  received-IsTally [] h = record { known = λ i. refl; tallied = λ t. refl; distinct = tt }
  received-IsTally (p ∷ ps) h =
      insert-IsTally p (received ps) ps (omega (arith, h)) (received-IsTally ps (omega (arith, h)))

  -- A result that is returned, of fewer than 2^64 reports, is one that as many nodes have reported
  -- first as are required, with signatures put to it.
  pub success-confirmations :
      (ps : List Report) (now : ℕ) (result : List ℕ)
      → length ps < 2 ^ 64
      → try_getting_result true now (received ps) ≡ success result
      → (t : List ℕ) × (result ≡ compile_complete_result_json t (received ps))
        × (required ≤ confirmations t ps)
  success-confirmations ps now result h e =
      let k = success_lem (received ps) ps now result (received-IsTally ps h) e in
      (k.0, k.1, omega (arith, k.2, (fixed ps).0))

  -- As long as the time is not over, a result that as many nodes as are required have reported first
  -- makes the call return a result.
  pub confirmations-success :
      (ps : List Report) (now : ℕ) (t : List ℕ)
      → length ps < 2 ^ 64
      → now ≤ u64 (start + oracle_timeout_ms)
      → required ≤ confirmations t ps
      → (result : List ℕ) × (try_getting_result true now (received ps) ≡ success result)
  confirmations-success ps now t h early enough =
      returned_lem (received ps) ps now t (received-IsTally ps h)
        (omega (arith, (fixed ps).0, required_pos signers nodes start))
        (omega (arith, early, ap (λ (k : ℕ). u64 (k + oracle_timeout_ms)) ((fixed ps).1)))
        (omega (arith, enough, (fixed ps).0))

both_counted :
    (mine other : List ℕ)
    → other ≢ mine
    → first_confirmed 2 (count_result mine (count_result mine (count_result other []))) ≡ some mine
unfolding count_result insert_new add_one first_confirmed
both_counted mine other n = ground (arith, n, same_bytes→≡ mine other, same_bytes_refl mine)

-- The signatures of the first nodes are put to a result, whichever result they signed: with four nodes
-- of which three must sign, so that two confirmations are required, the result that nodes 2 and 3
-- report carries the signature of node 1 on another result in place of that of node 3.
pub foreign_signature :
    (mine other a b c : List ℕ) (start now : ℕ)
    → other ≢ mine
    → now ≤ u64 (start + oracle_timeout_ms)
    → try_getting_result true now (
        receive_all
          (record { origin = 3; text = mine; sig = c }
            ∷ record { origin = 2; text = mine; sig = b }
            ∷ record { origin = 1; text = other; sig = a }
            ∷ [])
          (new_received 3 4 start))
      ≡ success (
          mine
          ++ (sigs_text
              ++ ((34 ∷ (a ++ 34 ∷ []))
                  ++ (44
                      ∷ ((34 ∷ (b ++ 34 ∷ []))
                          ++ (44 ∷ (null_text ++ (44 ∷ (null_text ++ 93 ∷ 125 ∷ [])))))))))
unfolding receive_all insert_if_doesnt_exist new_received contains emplace try_getting_result
    compile_complete_result_json sig_entries find
foreign_signature mine other a b c start now n early = ground (arith, both_counted mine other n)
