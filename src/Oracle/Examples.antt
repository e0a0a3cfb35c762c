-- ===== src/Oracle/Examples.antt =====
-- Reports for an oracle request at concrete inputs.
use skale_consensus.Prelude.{ℕ, ◌+◌, ◌≡◌, ◌≤◌, List, [], ◌∷◌, ◌++◌, true, same_bytes, refl, arith}
use skale_consensus.Prelude.OrderedMap.{contains, emplace}
use skale_consensus.Oracle.Received.{
  Report, Received, new_received, insert_if_doesnt_exist, insert_new, add_one, comes_before,
  count_result, first_confirmed, sigs_text, null_text, compile_complete_result_json, success,
  try_getting_result,
}
use skale_consensus.Oracle.Confirmed.{
  receive_all, confirmations, success-confirmations, confirmations-success, foreign_signature,
}

abbrev report : ℕ → ℕ → Report
report i t = record { origin = i; text = t ∷ []; sig = (60 + i) ∷ [] }

-- Node 2 reports twice.
abbrev reports : List Report
reports = report 4 98 ∷ report 2 97 ∷ report 3 98 ∷ report 2 98 ∷ report 1 97 ∷ []

abbrev state : Received
state = receive_all reports (new_received 3 4 1000)

first_reports : confirmations (98 ∷ []) reports ≡ 3
unfolding confirmations same_bytes
first_reports = refl

answered :
    try_getting_result true 2000 state ≡ success (compile_complete_result_json (98 ∷ []) state)
unfolding receive_all insert_if_doesnt_exist new_received contains emplace count_result insert_new
    add_one comes_before first_confirmed try_getting_result same_bytes
answered = refl

success-confirmations_example :
    (t : List ℕ) × (compile_complete_result_json (98 ∷ []) state
      ≡ compile_complete_result_json t state)
    × ((new_received 3 4 1000).required_confirmations ≤ confirmations t reports)
success-confirmations_example =
    success-confirmations 3 4 1000 reports 2000 (compile_complete_result_json (98 ∷ []) state)
      (omega arith) answered

confirmations-success_example :
    (result : List ℕ) × (try_getting_result true 2000 state ≡ success result)
unfolding new_received
confirmations-success_example =
    confirmations-success 3 4 1000 reports 2000 (98 ∷ []) (omega arith) (omega arith)
      (omega (arith, first_reports))

foreign_signature_example :
    try_getting_result true 2000 (
      receive_all
        (record { origin = 3; text = 98 ∷ []; sig = 63 ∷ [] }
          ∷ record { origin = 2; text = 98 ∷ []; sig = 62 ∷ [] }
          ∷ record { origin = 1; text = 97 ∷ []; sig = 61 ∷ [] }
          ∷ [])
        (new_received 3 4 1000))
    ≡ success (
        98 ∷ sigs_text
        ++ (34 ∷ 61 ∷ 34 ∷ 44 ∷ 34 ∷ 62 ∷ 34 ∷ 44 ∷ null_text ++ (44 ∷ null_text ++ 93 ∷ 125 ∷ [])))
foreign_signature_example =
    foreign_signature (98 ∷ []) (97 ∷ []) (61 ∷ []) (62 ∷ []) (63 ∷ []) 1000 2000 (ground arith)
      (omega arith)
