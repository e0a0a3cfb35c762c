-- ===== src/Oracle/Received.antt =====
-- OracleReceivedResults.
use skale_consensus.Prelude.{
  ℕ, zero, suc, ◌+◌, ◌-◌, ◌/◌, ◌^◌, Bool, true, false, ◌||◌, Option, none, some, List, [], ◌∷◌,
  ◌++◌, ltb, leb, ◌==◌, if◌then◌else◌, same_bytes, u64,
}
use skale_consensus.Prelude.OrderedMap.{OrderedMap, contains, find, emplace}

-- ORACLE_TIMEOUT_MS
abbrev pub oracle_timeout_ms : ℕ
oracle_timeout_ms = 30000

-- A report: the node, the unsigned result and the signature.
pub record Report : Type 0 where
  pub origin : ℕ
  pub text : List ℕ
  pub sig : List ℕ

pub record Received : Type 0 where
  pub required_confirmations : ℕ
  pub node_count : ℕ
  pub request_time : ℕ
  pub signatures : OrderedMap (List ℕ)
  -- How many nodes have reported each result, in the order of the texts.
  pub counts : List (List ℕ × ℕ)

-- The constructor, at a time.
unfoldable pub new_received : ℕ → ℕ → ℕ → Received
new_received required_signers nodes now = record {
  required_confirmations = u64 (required_signers + 2 ^ 64 - 1) / 2 + 1;
  node_count = nodes;
  request_time = now;
  signatures = [];
  counts = [];
}

-- `operator<` on strings.
unfoldable pub comes_before : List ℕ → List ℕ → Bool
comes_before [] [] = false
comes_before [] (y ∷ ys) = true
comes_before (x ∷ xs) [] = false
comes_before (x ∷ xs) (y ∷ ys) = let rest = comes_before xs ys in if x == y then rest else ltb x y

abbrev pub is_counted : List ℕ → List (List ℕ × ℕ) → Bool
is_counted t [] = false
is_counted t ((s, n) ∷ m) = same_bytes t s || is_counted t m

unfoldable pub insert_new : List ℕ → List (List ℕ × ℕ) → List (List ℕ × ℕ)
insert_new t [] = (t, 1) ∷ []
insert_new t ((s, n) ∷ m) =
    let rest = insert_new t m in if comes_before t s then (t, 1) ∷ (s, n) ∷ m else (s, n) ∷ rest

unfoldable pub add_one : List ℕ → List (List ℕ × ℕ) → List (List ℕ × ℕ)
add_one t [] = []
add_one t ((s, n) ∷ m) =
    let rest = add_one t m in if same_bytes t s then (s, u64 (n + 1)) ∷ m else (s, n) ∷ rest

-- One more for a result.
unfoldable pub count_result : List ℕ → List (List ℕ × ℕ) → List (List ℕ × ℕ)
count_result t m = if is_counted t m then add_one t m else insert_new t m

unfoldable pub insert_if_doesnt_exist : Report → Received → Received
insert_if_doesnt_exist p r = if contains p.origin r.signatures then r else record r {
  signatures = emplace p.origin p.sig r.signatures;
  counts = count_result p.text r.counts;
}

abbrev pub null_text : List ℕ
null_text = 110 ∷ 117 ∷ 108 ∷ 108 ∷ []

-- The text for a node, and how many signatures have been used after it.
abbrev pub sig_entry : ℕ → Option (List ℕ) → ℕ → List ℕ × ℕ
sig_entry required none used = (null_text, used)
sig_entry required (some s) used =
    if ltb used required then (34 ∷ (s ++ 34 ∷ []), used + 1) else (null_text, used)

unfoldable pub sig_entries : Received → ℕ → ℕ → ℕ → List ℕ
sig_entries r i zero used = []
sig_entries r i (suc k) used =
    let e = sig_entry r.required_confirmations (find i r.signatures) used in
    e.0
    ++ ((if ltb i r.node_count then 44 ∷ [] else 93 ∷ 125 ∷ []) ++ sig_entries r (i + 1) k (e.1))

-- "sigs":[
abbrev pub sigs_text : List ℕ
sigs_text = 34 ∷ 115 ∷ 105 ∷ 103 ∷ 115 ∷ 34 ∷ 58 ∷ 91 ∷ []

unfoldable pub compile_complete_result_json : List ℕ → Received → List ℕ
compile_complete_result_json t r = t ++ (sigs_text ++ sig_entries r 1 r.node_count 0)

-- The first result, in the order of the texts, that enough nodes have reported.
unfoldable pub first_confirmed : ℕ → List (List ℕ × ℕ) → Option (List ℕ)
first_confirmed required [] = none
first_confirmed required ((t, n) ∷ m) =
    let rest = first_confirmed required m in if leb required n then some t else rest

-- What tryGettingResult returns.
pub data Answer : Type 0 where
  timed_out not_ready unknown_encoding : Answer
  success : List ℕ → Answer

abbrev pub answer_with : Bool → Option (List ℕ) → Received → Answer
answer_with is_json none r = not_ready
answer_with is_json (some t) r =
    if is_json then success (compile_complete_result_json t r) else unknown_encoding

unfoldable pub try_getting_result : Bool → ℕ → Received → Answer
try_getting_result is_json now r =
    if ltb (u64 (r.request_time + oracle_timeout_ms)) now
    then timed_out
    else answer_with is_json (first_confirmed r.required_confirmations r.counts) r
