-- ===== src/BalanceMap/Read.antt =====
-- utils/parse-balance-map.ts: what the first `reduce` collects, and when it throws.
use huski_bsc_contract.Base.{
  ℕ, zero, suc, ◌<◌, ◌≡◌, refl, ◌∙◌, true, false, inl, inr, ◌↔◌, Option, none, some, List, [], ◌∷◌,
  ◌++◌, append_assoc, append-nil, arith, Option-cases, Bytes, bytes_eq, bytes_eq-eq, bytes_eq_refl,
  ok, >>=-eq-ok, ℤ, pos, negsuc,
}
use huski_bsc_contract.Merkle.{lookup, assign}
use huski_bsc_contract.Merkle.Sort.{contains}
use huski_bsc_contract.BalanceTree.{Ethers}
use huski_bsc_contract.BalanceMap.{
  NewFormat, Entry, Data, flags_of, read_amount, add_balance, data_by_address,
}

-- No key stands twice.
abbrev pub IsDistinct : Data → Type 0
IsDistinct [] = Unit {0}
IsDistinct ((k, v) ∷ m) = (lookup k m ≡ none) × IsDistinct m

assign-absent :
    (k : Bytes) (v : Entry) (m : Data) → lookup k m ≡ none → assign k v m ≡ m ++ (k, v) ∷ []
unfolding lookup assign
assign-absent k v [] h = refl
assign-absent k v ((j, w) ∷ m) h = ground (arith, assign-absent k v m)

lookup-append_absent :
    (j k : Bytes) (v : Entry) (m : Data)
    → lookup j m ≡ none
    → bytes_eq k j ≡ false
    → lookup j (m ++ (k, v) ∷ []) ≡ none
unfolding lookup
lookup-append_absent j k v [] h ne = ground arith
lookup-append_absent j k v ((i, w) ∷ m) h ne = ground (arith, lookup-append_absent j k v m)

append-IsDistinct :
    (k : Bytes) (v : Entry) (m : Data)
    → lookup k m ≡ none
    → IsDistinct m
    → IsDistinct (m ++ (k, v) ∷ [])
unfolding lookup
append-IsDistinct k v [] h d = (refl, tt)
append-IsDistinct k v ((j, w) ∷ m) h d = (
  lookup-append_absent j k v m d.0 (ground (arith, bytes_eq-eq k j, bytes_eq_refl j)),
  append-IsDistinct k v m (ground arith) d.1,
)

abbrev magnitude : ℤ → ℕ
magnitude (pos n) = n
magnitude (negsuc n) = 0

module _ (e : Ethers) where
  -- One entry for each balance, in order: its checksummed address, its amount and its flags.
  abbrev pub Matches : List NewFormat → Data → Type 0
  Matches [] [] = Unit {0}
  Matches [] (x ∷ m) = ⊥
  Matches (b ∷ l) [] = ⊥
  Matches (b ∷ l) ((k, v) ∷ m) =
      (e.is_address b.address ≡ true)
      × (k ≡ e.get_address b.address)
      × (e.big_number b.earnings ≡ some (pos v.amount))
      × (0 < v.amount)
      × (v.flags ≡ flags_of b.reasons)
      × Matches l m

  -- Whether a balance can be added: a valid address that is new, and a positive amount.
  abbrev IsAddable : NewFormat → Data → Type 0
  IsAddable b memo =
      (e.is_address b.address ≡ true)
      × (lookup (e.get_address b.address) memo ≡ none)
      × ((n : ℕ) × (0 < n) × (e.big_number b.earnings ≡ some (pos n)))

  abbrev appended : NewFormat → ℕ → Data → Data
  appended b n memo =
      memo ++ (e.get_address b.address, record { amount = n; flags = flags_of b.reasons }) ∷ []

  read_amount-eq_ok :
      (account earnings : Bytes) (o : Option ℤ) {n : ℕ}
      → read_amount account earnings o ≡ ok n
      → (o ≡ some (pos n)) × (0 < n)
  unfolding read_amount
  read_amount-eq_ok account earnings none h = absurd (cc)
  read_amount-eq_ok account earnings (some (negsuc k)) h = absurd (cc)
  read_amount-eq_ok account earnings (some (pos zero)) h = absurd (cc)
  read_amount-eq_ok account earnings (some (pos (suc k))) h = ground arith

  read_amount_positive :
      (account earnings : Bytes) (n : ℕ)
      → 0 < n
      → read_amount account earnings (some (pos n)) ≡ ok n
  unfolding read_amount
  read_amount_positive account earnings zero h = absurd (omega arith)
  read_amount_positive account earnings (suc n) h = refl

  add_balance-appended :
      (memo : Data) (b : NewFormat) (n : ℕ)
      → e.is_address b.address ≡ true
      → lookup (e.get_address b.address) memo ≡ none
      → 0 < n
      → e.big_number b.earnings ≡ some (pos n)
      → add_balance e memo b ≡ ok (appended b n memo)
  unfolding add_balance
  add_balance-appended memo b n valid new positive reads = ground (
    arith,
    read_amount_positive b.address b.earnings n,
    assign-absent (e.get_address b.address) (record { amount = n; flags = flags_of b.reasons })
        memo,
  )

  amount_found :
      (memo : Data) (b : NewFormat) {m : Data}
      → add_balance e memo b ≡ ok m
      → (n : ℕ) × (e.big_number b.earnings ≡ some (pos n)) × (0 < n)
  unfolding add_balance read_amount
  amount_found memo b h = elim (Option-cases (e.big_number b.earnings)) [
    | inl bad ↦ absurd (ground (arith, h, bad))
    | inr (z, reads) ↦ (magnitude z, ground (arith, h, reads), ground (arith, h, reads))
  ]

  -- A round that does not throw has found a balance that can be added.
  add_balance-IsAddable :
      (memo : Data) (b : NewFormat) {m : Data} → add_balance e memo b ≡ ok m → IsAddable b memo
  unfolding add_balance
  add_balance-IsAddable memo b h =
      let (n, reads, positive) = amount_found memo b h in
      (ground (arith, h), ground (arith, h), (n, positive, reads))

  -- The balances are read into the entries, after those of the memo.
  data_by_address-Matches :
      (l : List NewFormat) (memo : Data) {m : Data}
      → data_by_address e l memo ≡ ok m
      → IsDistinct memo
      → IsDistinct m × ((es : Data) × (m ≡ memo ++ es) × Matches l es)
  unfolding data_by_address
  data_by_address-Matches [] memo h d = (ground arith, ([], ground (arith, append-nil memo), tt))
  data_by_address-Matches (b ∷ l) memo h d =
      let (memo', added, h') = >>=-eq-ok (add_balance e memo b) (data_by_address e l) h in
      let (valid, new, (n, positive, reads)) = add_balance-IsAddable memo b added in
      let entry : Entry = record { amount = n; flags = flags_of b.reasons } in
      let here : memo' ≡ appended b n memo =
        ground (arith, added, add_balance-appended memo b n valid new positive reads) in
      let d' = append-IsDistinct (e.get_address b.address) entry memo new d in
      let (distinct, (es, split, rest)) =
        data_by_address-Matches l (appended b n memo) (rw (← here) h') d' in
      (
        distinct,
        (
          (e.get_address b.address, entry) ∷ es,
          split ∙ append_assoc memo ((e.get_address b.address, entry) ∷ []) es,
          (valid, refl, reads, positive, refl, rest),
        ),
      )

  pub data_by_address-of_ok :
      (l : List NewFormat) {m : Data} → data_by_address e l [] ≡ ok m → IsDistinct m × Matches l m
  data_by_address-of_ok l h =
      let (distinct, (es, same, matches)) = data_by_address-Matches l [] h tt in
      (distinct, rw same matches)

  -- Every balance can be added to those before it.
  abbrev pub IsAcceptable : List NewFormat → List Bytes → Type 0
  IsAcceptable [] seen = Unit {0}
  IsAcceptable (b ∷ l) seen =
      (e.is_address b.address ≡ true)
      × (contains (e.get_address b.address) seen ≡ false)
      × ((n : ℕ) × (0 < n) × (e.big_number b.earnings ≡ some (pos n)))
      × IsAcceptable l (e.get_address b.address ∷ seen)

  -- The addresses seen are the keys of the memo.
  abbrev IsSeen : List Bytes → Data → Type 0
  IsSeen seen memo = (a : Bytes) → (contains a seen ≡ false) ↔ (lookup a memo ≡ none)

  lookup-append :
      (a k : Bytes) (v : Entry) (m : Data)
      → (lookup a (m ++ (k, v) ∷ []) ≡ none) ↔ ((bytes_eq k a ≡ false) × (lookup a m ≡ none))
  unfolding lookup
  lookup-append a k v [] = ground arith
  lookup-append a k v ((i, w) ∷ m) = ground (arith, lookup-append a k v m)

  append-IsSeen :
      (seen : List Bytes) (memo : Data) (k : Bytes) (v : Entry)
      → IsSeen seen memo
      → IsSeen (k ∷ seen) (memo ++ (k, v) ∷ [])
  unfolding contains
  append-IsSeen seen memo k v s a = ground (arith, s a, lookup-append a k v memo)

  IsSeen-next :
      (seen : List Bytes) (memo : Data) (b : NewFormat) (n : ℕ)
      → IsSeen seen memo
      → IsSeen (e.get_address b.address ∷ seen) (appended b n memo)
  IsSeen-next seen memo b n s =
      append-IsSeen seen memo (e.get_address b.address)
        (record { amount = n; flags = flags_of b.reasons }) s

  data_by_address_total :
      (l : List NewFormat) (seen : List Bytes) (memo : Data)
      → IsSeen seen memo
      → IsAcceptable l seen
      → (m : Data) × (data_by_address e l memo ≡ ok m)
  unfolding data_by_address
  data_by_address_total [] seen memo s a = (memo, refl)
  data_by_address_total (b ∷ l) seen memo s (valid, new, (n, positive, reads), rest) =
      let k = e.get_address b.address in
      let (m, h) =
        data_by_address_total l (k ∷ seen) (appended b n memo) (IsSeen-next seen memo b n s) rest in
      (m, rw (add_balance-appended memo b n valid ((s k).0 new) positive reads) h)

  data_by_address-IsAcceptable :
      (l : List NewFormat) (seen : List Bytes) (memo : Data) {m : Data}
      → IsSeen seen memo
      → data_by_address e l memo ≡ ok m
      → IsAcceptable l seen
  unfolding data_by_address
  data_by_address-IsAcceptable [] seen memo s h = tt
  data_by_address-IsAcceptable (b ∷ l) seen memo {m} s h =
      let (memo', added, h') = >>=-eq-ok (add_balance e memo b) (data_by_address e l) h in
      let k = e.get_address b.address in
      let (valid, new, (n, positive, reads)) = add_balance-IsAddable memo b added in
      let here : memo' ≡ appended b n memo =
        ground (arith, added, add_balance-appended memo b n valid new positive reads) in
      (
        valid,
        (s k).1 new,
        (n, positive, reads),
        data_by_address-IsAcceptable l (k ∷ seen) (appended b n memo) {m = m}
            (IsSeen-next seen memo b n s) (rw (← here) h'),
      )

  -- The first `reduce` goes through exactly where every address is valid and new and every amount
  -- is positive.
  pub data_by_address_iff :
      (l : List NewFormat) → IsAcceptable l [] ↔ ((m : Data) × (data_by_address e l [] ≡ ok m))
  unfolding contains lookup
  data_by_address_iff l =
      let s : IsSeen [] [] = λ a. (λ _. refl, λ _. refl) in
      (data_by_address_total l [] [] s, λ (m, h). data_by_address-IsAcceptable l [] [] s h)
