-- ===== src/Storage/View.antt =====
-- What a CacheLevelDB promises, on one view: entries that live for a number of rotations.
use skale_consensus.Prelude.{
  ℕ, zero, suc, ◌+◌, Bool, true, false, Option, none, some, List, [], ◌∷◌, length, take, ltb, leb,
  ◌==◌, ◌&&◌, if◌then◌else◌,
}
use skale_consensus.Prelude.OrderedMap.{OrderedMap}
use skale_consensus.Prelude.Results.{Result, ok, throw, check, invalid_argument, invalid_state}
use skale_consensus.Prelude.Decimal.{to_string, stoull}
use skale_consensus.Storage.LevelDb.{Key, index_key, counter_key}
use skale_consensus.Storage.Shards.{Signers, leveldb_shards, is_empty_text}
use skale_consensus.Storage.Life.{Living, View, value_of, is_living, aged, set_key}

-- A write, and an entry of a set, each with whether the newest database is too large before it.
pub data Op : Type 0 where
  write : Bool → Key → List ℕ → Bool → Op
  add : Bool → List ℕ → ℕ → ℕ → Op

pub record Seen : Type 0 where
  pub view : View
  pub returned : Result (Option (OrderedMap (List ℕ)))

unfoldable pub rotated : Bool → View → View
rotated too_large f k = if too_large then aged (f k) else f k

abbrev pub newest : List ℕ → Living
newest v = some (leveldb_shards, v)

unfoldable pub written : Key → List ℕ → Bool → View → View
written k v overwrite f =
    if overwrite
    then set_key k (newest v) f
    else if is_living (f k)
    then f
    else set_key k (newest v) f

-- The count at a counter key.
abbrev pub count_at : Living → Option ℕ
count_at none = some 0
count_at (some (life, text)) = stoull text

-- An entry lives as long as the counter of its set.
abbrev pub life_at : Living → ℕ
life_at none = leveldb_shards
life_at (some (life, text)) = life

-- The entries of the indices from `i` on.
unfoldable pub entries : View → ℕ → ℕ → ℕ → OrderedMap (List ℕ)
entries f b i zero = []
entries f b i (suc k) =
    let rest = entries f b (i + 1) k in
    let entry = value_of (f (index_key b i)) in
    if is_empty_text entry then rest else (i, entry) ∷ rest

unfoldable pub set_at : Signers → ℕ → View → OrderedMap (List ℕ)
set_at g b f = take g.required_signers (entries f b 1 g.total_signers)

abbrev pub completed : Signers → ℕ → View → Bool → Result (Option (OrderedMap (List ℕ)))
completed g b f false = ok none
completed g b f true =
    check (length (set_at g b f) == g.required_signers) invalid_state (ok (some (set_at g b f)))

abbrev pub with_entry : ℕ → List ℕ → ℕ → ℕ → View → View
with_entry b v i n f =
    set_key (index_key b i) (some (life_at (f (counter_key b)), v))
      (set_key (counter_key b) (some (life_at (f (counter_key b)), to_string (n + 1))) f)

abbrev pub counted : Signers → List ℕ → ℕ → ℕ → View → Option ℕ → Seen
counted g v b i f none = record { view = f; returned = ok none }
counted g v b i f (some n) = record {
  view = with_entry b v i n f;
  returned = completed g b (with_entry b v i n f) (n + 1 == g.required_signers);
}

unfoldable pub added : Signers → List ℕ → ℕ → ℕ → View → Seen
added g v b i f =
    if ltb 0 i && leb i g.total_signers
    then (if is_living (f (index_key b i))
        then record { view = f; returned = ok none }
        else counted g v b i f (count_at (f (counter_key b))))
    else record { view = f; returned = throw invalid_argument }

unfoldable pub see : Signers → Op → View → Seen
see g (write too_large k v overwrite) f = record {
  view = written k v overwrite (rotated too_large f);
  returned = ok none;
}
see g (add too_large v b i) f = added g v b i (rotated too_large f)

unfoldable pub see_all :
    Signers → List Op → View → View × List (Result (Option (OrderedMap (List ℕ))))
see_all g [] f = (f, [])
see_all g (op ∷ ops) f =
    let s = see g op f in let rest = see_all g ops s.view in (rest.0, s.returned ∷ rest.1)
