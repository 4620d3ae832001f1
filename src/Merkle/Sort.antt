-- ===== src/Merkle/Sort.antt =====
-- utils/merkle-tree.ts: the members and the order after sorting and `bufDedup`.
use huski_bsc_contract.Base.{
  ◌≡◌, refl, sym, ◌∙◌, ap₂, Bool, true, false, not, ◌&&◌, ◌||◌, inl, inr, List, [], ◌∷◌, arith,
  Bool-cases, Bytes, bytes_eq, bytes_eq_refl, bytes_eq-eq, leb_bytes, leb_bytes_antisymm,
  leb_bytes-total, leb_bytes_trans,
}
use huski_bsc_contract.Merkle.{insert_sorted, sort_bytes, dedup_after, buf_dedup}

-- Whether a buffer is among the leaves.
unfoldable pub contains : Bytes → List Bytes → Bool
contains b [] = false
contains b (x ∷ xs) = bytes_eq x b || contains b xs

-- Two leaf lists that differ in order and repetition only.
abbrev pub SameMembers : List Bytes → List Bytes → Type 0
SameMembers xs ys = (b : Bytes) → contains b xs ≡ contains b ys

before : Bytes → Bytes → Bool
before x y = leb_bytes x y && not (bytes_eq x y)

abbrev AllFrom : Bytes → List Bytes → Type 0
AllFrom x [] = Unit {0}
AllFrom x (y ∷ ys) = (leb_bytes x y ≡ true) × AllFrom x ys

abbrev AllAfter : Bytes → List Bytes → Type 0
AllAfter x [] = Unit {0}
AllAfter x (y ∷ ys) = (before x y ≡ true) × AllAfter x ys

abbrev IsAscending : List Bytes → Type 0
IsAscending [] = Unit {0}
IsAscending (x ∷ xs) = AllFrom x xs × IsAscending xs

-- Each buffer comes before all later ones.
abbrev IsStrict : List Bytes → Type 0
IsStrict [] = Unit {0}
IsStrict (x ∷ xs) = AllAfter x xs × IsStrict xs

contains-insert_sorted :
    (b x : Bytes) (l : List Bytes) → contains b (insert_sorted x l) ≡ (bytes_eq x b || contains b l)
unfolding insert_sorted contains
contains-insert_sorted b x [] = refl
contains-insert_sorted b x (y ∷ l) = ground (arith, contains-insert_sorted b x l)

pub contains-sort_bytes : (b : Bytes) (l : List Bytes) → contains b (sort_bytes l) ≡ contains b l
unfolding sort_bytes contains
contains-sort_bytes b [] = refl
contains-sort_bytes b (x ∷ l) =
    ground (arith, contains-insert_sorted b x (sort_bytes l), contains-sort_bytes b l)

contains-dedup_after :
    (b prev : Bytes) (l : List Bytes)
    → (bytes_eq prev b || contains b (dedup_after prev l)) ≡ (bytes_eq prev b || contains b l)
unfolding dedup_after contains
contains-dedup_after b prev [] = refl
contains-dedup_after b prev (x ∷ l) =
    ground (arith, bytes_eq-eq prev x, contains-dedup_after b x l, contains-dedup_after b prev l)

contains-buf_dedup : (b : Bytes) (l : List Bytes) → contains b (buf_dedup l) ≡ contains b l
unfolding buf_dedup contains
contains-buf_dedup b [] = refl
contains-buf_dedup b (x ∷ l) = contains-dedup_after b x l

-- The leaves of a tree are the buffers that it was given.
pub contains-leaves :
    (b : Bytes) (l : List Bytes) → contains b (buf_dedup (sort_bytes l)) ≡ contains b l
contains-leaves b l = contains-buf_dedup b (sort_bytes l) ∙ contains-sort_bytes b l

AllFrom-trans : (x y : Bytes) (l : List Bytes) → leb_bytes x y ≡ true → AllFrom y l → AllFrom x l
AllFrom-trans x y [] h a = tt
AllFrom-trans x y (z ∷ l) h a = (leb_bytes_trans x y z h a.0, AllFrom-trans x y l h a.1)

AllFrom-insert_sorted :
    (x y : Bytes) (l : List Bytes)
    → leb_bytes x y ≡ true
    → AllFrom x l
    → AllFrom x (insert_sorted y l)
unfolding insert_sorted
AllFrom-insert_sorted x y [] h a = (h, tt)
AllFrom-insert_sorted x y (z ∷ l) h a = ground (arith, AllFrom-insert_sorted x y l h a.1)

insert_sorted-IsAscending :
    (x : Bytes) (l : List Bytes) → IsAscending l → IsAscending (insert_sorted x l)
unfolding insert_sorted
insert_sorted-IsAscending x [] s = (tt, tt)
insert_sorted-IsAscending x (y ∷ l) s = elim (Bool-cases (leb_bytes x y)) [
  | inl le ↦ rw le ((le, AllFrom-trans x y l le s.0), s)
  | inr gt ↦
      rw gt (
        AllFrom-insert_sorted y x l (leb_bytes-total x y gt) s.0,
        insert_sorted-IsAscending x l s.1,
      )
]

sort_bytes-IsAscending : (l : List Bytes) → IsAscending (sort_bytes l)
unfolding sort_bytes
sort_bytes-IsAscending [] = tt
sort_bytes-IsAscending (x ∷ l) =
    insert_sorted-IsAscending x (sort_bytes l) (sort_bytes-IsAscending l)

AllAfter-trans : (x y : Bytes) (l : List Bytes) → before x y ≡ true → AllAfter y l → AllAfter x l
unfolding before
AllAfter-trans x y [] h a = tt
AllAfter-trans x y (z ∷ l) h a = (
  ground (
    arith,
    leb_bytes_trans x y z,
    leb_bytes_antisymm x y,
    bytes_eq-eq x z,
    bytes_eq_refl x,
    bytes_eq_refl y,
  ),
  AllAfter-trans x y l h a.1,
)

dedup_after-IsStrict :
    (prev : Bytes) (l : List Bytes)
    → AllFrom prev l
    → IsAscending l
    → AllAfter prev (dedup_after prev l) × IsStrict (dedup_after prev l)
unfolding dedup_after before
dedup_after-IsStrict prev [] a s = (tt, tt)
dedup_after-IsStrict prev (x ∷ l) a s = elim (Bool-cases (bytes_eq prev x)) [
  | inl same ↦ rw same (rw (bytes_eq-eq prev x same) (dedup_after-IsStrict x l s.0 s.1))
  | inr new ↦
      let rest = dedup_after-IsStrict x l s.0 s.1 in
      let first : before prev x ≡ true = ground arith in
      rw new ((first, AllAfter-trans prev x (dedup_after x l) first rest.0), rest)
]

buf_dedup-IsStrict : (l : List Bytes) → IsAscending l → IsStrict (buf_dedup l)
unfolding buf_dedup
buf_dedup-IsStrict [] s = tt
buf_dedup-IsStrict (x ∷ l) s = dedup_after-IsStrict x l s.0 s.1

leaves-IsStrict : (l : List Bytes) → IsStrict (buf_dedup (sort_bytes l))
leaves-IsStrict l = buf_dedup-IsStrict (sort_bytes l) (sort_bytes-IsAscending l)

AllAfter-contains :
    (x b : Bytes) (l : List Bytes) → AllAfter x l → contains b l ≡ true → before x b ≡ true
unfolding contains
AllAfter-contains x b [] a h = absurd (ground arith)
AllAfter-contains x b (y ∷ l) a h = elim (Bool-cases (bytes_eq y b)) [
  | inl same ↦ rw (← bytes_eq-eq y b same) a.0
  | inr other ↦ AllAfter-contains x b l a.1 (ground arith)
]

before_irrefl : (x : Bytes) → before x x ≡ false
unfolding before
before_irrefl x = ground (arith, bytes_eq_refl x)

before_asymm : (x y : Bytes) → before x y ≡ true → before y x ≡ true → ⊥
unfolding before
before_asymm x y h k = ground (arith, leb_bytes_antisymm x y, bytes_eq_refl x)

not-contains-AllAfter : (x : Bytes) (l : List Bytes) → AllAfter x l → contains x l ≡ false
not-contains-AllAfter x l a = elim (Bool-cases (contains x l)) [
  | inl h ↦ absurd (cc (AllAfter-contains x x l a h, before_irrefl x))
  | inr h ↦ h
]

contains-head : (x : Bytes) (l : List Bytes) → contains x (x ∷ l) ≡ true
unfolding contains
contains-head x l = ground (arith, bytes_eq_refl x)

heads_eq :
    (x y : Bytes) (l r : List Bytes)
    → AllAfter x l
    → AllAfter y r
    → SameMembers (x ∷ l) (y ∷ r)
    → x ≡ y
unfolding contains
heads_eq x y l r a b same = elim (Bool-cases (bytes_eq y x)) [
  | inl e ↦ sym (bytes_eq-eq y x e)
  | inr ne ↦
      let y_first : before y x ≡ true =
        AllAfter-contains y x r b (ground (arith, same x, contains-head x l)) in
      elim (Bool-cases (bytes_eq x y)) [
        | inl e ↦ bytes_eq-eq x y e
        | inr ne' ↦
            let x_first : before x y ≡ true =
              AllAfter-contains x y l a (ground (arith, same y, contains-head y r)) in
            absurd (before_asymm x y x_first y_first)
      ]
]

tails_same :
    (x : Bytes) (l r : List Bytes)
    → AllAfter x l
    → AllAfter x r
    → SameMembers (x ∷ l) (x ∷ r)
    → SameMembers l r
unfolding contains
tails_same x l r a a' same b = elim (Bool-cases (bytes_eq x b)) [
  | inl e ↦
      rw (← bytes_eq-eq x b e) (not-contains-AllAfter x l a ∙ sym (not-contains-AllAfter x r a'))
  | inr ne ↦ ground (arith, same b)
]

-- A strictly ascending list is determined by its members.
IsStrict-eq : (l r : List Bytes) → IsStrict l → IsStrict r → SameMembers l r → l ≡ r
unfolding contains
IsStrict-eq [] [] s t same = refl
IsStrict-eq [] (y ∷ r) s t same = absurd (cc (same y, contains-head y r))
IsStrict-eq (x ∷ l) [] s t same = absurd (cc (same x, contains-head x l))
IsStrict-eq (x ∷ l) (y ∷ r) s t same =
    let head : x ≡ y = heads_eq x y l r s.0 t.0 same in
    let after : AllAfter x r = rw head t.0 in
    let same' : SameMembers (x ∷ l) (x ∷ r) = λ b. same b ∙ rw head refl in
    ap₂ ◌∷◌ head (IsStrict-eq l r s.1 t.1 (tails_same x l r s.0 after same'))

-- Sorting and `bufDedup` make one list of any two that have the same members.
pub leaves-eq :
    (l r : List Bytes) → SameMembers l r → buf_dedup (sort_bytes l) ≡ buf_dedup (sort_bytes r)
leaves-eq l r same =
    IsStrict-eq (buf_dedup (sort_bytes l)) (buf_dedup (sort_bytes r)) (leaves-IsStrict l)
      (leaves-IsStrict r) (λ b. contains-leaves b l ∙ same b ∙ sym (contains-leaves b r))
