-- ===== src/BalanceMap/Totals.antt =====
-- utils/parse-balance-map.ts: `tokenTotal`, and the sum of the amounts that were read.
use huski_bsc_contract.Base.{
  ℕ, ◌+◌, ◌≡◌, refl, sym, ◌∙◌, ap, true, false, inl, inr, Option, none, some, List, [], ◌∷◌, arith,
  Option-cases, Bytes, bytes_eq-eq, bytes_eq_refl, ok, ℤ, pos, negsuc,
}
use huski_bsc_contract.Merkle.{insert_sorted, sort_bytes, lookup}
use huski_bsc_contract.Merkle.Sort.{contains, contains-sort_bytes}
use huski_bsc_contract.BalanceTree.{Ethers}
use huski_bsc_contract.BalanceMap.{NewFormat, Entry, Data, keys, entry_at, token_total_from}
use huski_bsc_contract.BalanceMap.Read.{IsDistinct, Matches}

sum_by : (Bytes → ℕ) → List Bytes → ℕ
sum_by w [] = 0
sum_by w (k ∷ ks) = w k + sum_by w ks

sum_by-insert_sorted :
    (w : Bytes → ℕ) (k : Bytes) (ks : List Bytes)
    → sum_by w (insert_sorted k ks) ≡ w k + sum_by w ks
unfolding sum_by insert_sorted
sum_by-insert_sorted w k [] = refl
sum_by-insert_sorted w k (j ∷ ks) = ground (arith, sum_by-insert_sorted w k ks)

sum_by-sort_bytes : (w : Bytes → ℕ) (ks : List Bytes) → sum_by w (sort_bytes ks) ≡ sum_by w ks
unfolding sum_by sort_bytes
sum_by-sort_bytes w [] = refl
sum_by-sort_bytes w (k ∷ ks) =
    omega (arith, sum_by-insert_sorted w k (sort_bytes ks), sum_by-sort_bytes w ks)

amount_at : Data → Bytes → ℕ
amount_at m k = elim (lookup k m) [ none ↦ 0 | some v ↦ v.amount ]

amount_at_self : (k : Bytes) (v : Entry) (m : Data) → amount_at ((k, v) ∷ m) k ≡ v.amount
unfolding amount_at lookup
amount_at_self k v m = ground (arith, bytes_eq_refl k)

pub sum_amounts : Data → ℕ
sum_amounts [] = 0
sum_amounts ((k, v) ∷ m) = v.amount + sum_amounts m

pub contains-keys : (k : Bytes) (m : Data) → lookup k m ≡ none → contains k (keys m) ≡ false
unfolding lookup contains keys
contains-keys k [] h = refl
contains-keys k ((j, v) ∷ m) h = ground (arith, contains-keys k m)

-- A key that is not asked for does not matter.
sum_by-amount_at_cons :
    (k : Bytes) (v : Entry) (m : Data) (ks : List Bytes)
    → contains k ks ≡ false
    → sum_by (amount_at ((k, v) ∷ m)) ks ≡ sum_by (amount_at m) ks
unfolding sum_by amount_at contains lookup
sum_by-amount_at_cons k v m [] h = refl
sum_by-amount_at_cons k v m (j ∷ ks) h =
    ground (arith, h, bytes_eq-eq k j, bytes_eq_refl j, sum_by-amount_at_cons k v m ks)

sum_by-keys : (m : Data) → IsDistinct m → sum_by (amount_at m) (keys m) ≡ sum_amounts m
unfolding sum_by keys sum_amounts
sum_by-keys [] d = refl
sum_by-keys ((k, v) ∷ m) d = omega (
  arith,
  amount_at_self k v m,
  sum_by-amount_at_cons k v m (keys m) (contains-keys k m d.0),
  sum_by-keys m d.1,
)

contains_first : (k : Bytes) (ks : List Bytes) → contains k (k ∷ ks) ≡ true
unfolding contains
contains_first k ks = ground (arith, bytes_eq_refl k)

contains_later : (j k : Bytes) (ks : List Bytes) → contains j ks ≡ true → contains j (k ∷ ks) ≡ true
unfolding contains
contains_later j k ks h = ground arith

pub lookup_of_contains :
    (k : Bytes) (m : Data) → contains k (keys m) ≡ true → (v : Entry) × (lookup k m ≡ some v)
lookup_of_contains k m h = elim (Option-cases (lookup k m)) [
  | inl absent ↦ absurd (cc (h, contains-keys k m absent))
  | inr found ↦ found
]

pub entry_at-some : (m : Data) (k : Bytes) {v : Entry} → lookup k m ≡ some v → entry_at m k ≡ ok v
unfolding entry_at
entry_at-some m k h = ground arith

amount_at-some : (m : Data) (k : Bytes) {v : Entry} → lookup k m ≡ some v → amount_at m k ≡ v.amount
unfolding amount_at
amount_at-some m k h = ground arith

-- Every key that is summed has an entry.
token_total_from-sum_by :
    (m : Data) (ks : List Bytes) (memo : ℕ)
    → ((k : Bytes) → contains k ks ≡ true → (v : Entry) × (lookup k m ≡ some v))
    → token_total_from m ks memo ≡ ok (memo + sum_by (amount_at m) ks)
unfolding token_total_from sum_by
token_total_from-sum_by m [] memo h = ap ok (omega arith)
token_total_from-sum_by m (k ∷ ks) memo h =
    let (v, at) = h k (contains_first k ks) in
    rw (entry_at-some m k at, amount_at-some m k at)
      (token_total_from-sum_by m ks (memo + v.amount) (λ j i. h j (contains_later j k ks i))
        ∙ ap ok (omega arith))

-- With distinct keys, the total over the sorted keys is the sum of all amounts.
pub token_total-sum_amounts :
    (m : Data) → IsDistinct m → token_total_from m (sort_bytes (keys m)) 0 ≡ ok (sum_amounts m)
token_total-sum_amounts m d =
    token_total_from-sum_by m (sort_bytes (keys m)) 0
      (λ k h. lookup_of_contains k m (sym (contains-sort_bytes k (keys m)) ∙ h))
    ∙ ap ok (omega (arith, sum_by-sort_bytes (amount_at m) (keys m), sum_by-keys m d))

stated : Option ℤ → ℕ
stated none = 0
stated (some (pos n)) = n
stated (some (negsuc n)) = 0

module _ (e : Ethers) where
  -- The sum of the amounts that the balances state.
  pub input_total : List NewFormat → ℕ
  unfolding stated
  input_total [] = 0
  input_total (b ∷ l) = stated (e.big_number b.earnings) + input_total l

  pub sum_amounts-input_total :
      (l : List NewFormat) (m : Data) → Matches e l m → sum_amounts m ≡ input_total l
  unfolding sum_amounts input_total
  sum_amounts-input_total [] [] h = refl
  sum_amounts-input_total [] (x ∷ m) h = absurd h
  sum_amounts-input_total (b ∷ l) [] h = absurd h
  sum_amounts-input_total (b ∷ l) ((k, v) ∷ m) h =
      let (_, _, reads, _, _, rest) = h in ground (arith, reads, sum_amounts-input_total l m rest)
