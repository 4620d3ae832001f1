-- ===== src/FairLaunch/Pools.antt =====
-- contracts/6/token/FairLaunch.sol: the total of the allocation points and the stake tokens, under
-- `addPool` and `setPool`.
use huski_bsc_contract.Base.{
  ℕ, zero, suc, ◌+◌, ◌≡◌, ◌≢◌, refl, sym, ◌∙◌, ap, Bool, true, false, not, some, List, [], ◌∷◌,
  ◌++◌, arith, ltb, ◌==◌, if◌then◌else◌, get_elem?, Bytes, ok, >>=-use, require,
}
use huski_bsc_contract.Evm.{
  not_owner, OpenZeppelin, IsDocumented, checked, checked-eq-ok, no_stake_token,
  duplicate_stake_token,
}
use huski_bsc_contract.FairLaunch.{
  PoolInfo, FairLaunch, Block, is_duplicated_pool, set_at, pool_at, mass_update_pools, push_pool,
  add_pool, set_pool,
}
use huski_bsc_contract.FairLaunch.Updates.{
  Shape, shape, shapes, SameShape, SameShape-refl, mass_update_pools-SameShape, pool_at-eq_ok,
}

-- The sum of the allocation points.
unfoldable pub sum_alloc : List Shape → ℕ
sum_alloc [] = 0
sum_alloc ((symbol, token, alloc) ∷ l) = alloc + sum_alloc l

-- Whether a token is staked in one of the pools.
pub is_staked : ℕ → List Shape → Bool
is_staked token [] = false
is_staked token ((symbol, t, alloc) ∷ l) = if t == token then true else is_staked token l

-- No stake token stands twice, and none is the zero address.
abbrev pub HasDistinctTokens : List Shape → Type 0
HasDistinctTokens [] = Unit {0}
HasDistinctTokens ((symbol, t, alloc) ∷ l) = (t ≢ 0) × (is_staked t l ≡ false) × HasDistinctTokens l

-- `totalAllocPoint` must be the sum of all allocation points in all pools.
pub record IsConsistent (f : FairLaunch) : Type 0 where
  pub total : f.total_alloc_point ≡ sum_alloc (shapes f.pools)
  pub distinct : HasDistinctTokens (shapes f.pools)

pub SameShape-IsConsistent : {f f' : FairLaunch} → SameShape f f' → IsConsistent f → IsConsistent f'
SameShape-IsConsistent s c = record {
  total = s.same_total ∙ c.total ∙ ap sum_alloc (sym s.same_pools);
  distinct = rw s.same_pools c.distinct;
}

is_duplicated_pool-is_staked :
    (token : ℕ) (pools : List PoolInfo)
    → is_duplicated_pool token pools ≡ is_staked token (shapes pools)
unfolding is_duplicated_pool is_staked shapes
is_duplicated_pool-is_staked token [] = refl
is_duplicated_pool-is_staked token (p ∷ pools) =
    ground (arith, is_duplicated_pool-is_staked token pools)

pub shapes-append :
    (pools : List PoolInfo) (p : PoolInfo) → shapes (pools ++ p ∷ []) ≡ shapes pools ++ shape p ∷ []
unfolding shapes
shapes-append [] p = refl
shapes-append (q ∷ pools) p = ap (◌∷◌ (shape q)) (shapes-append pools p)

sum_alloc-append :
    (l : List Shape) (symbol : Bytes) (token alloc : ℕ)
    → sum_alloc (l ++ (symbol, token, alloc) ∷ []) ≡ sum_alloc l + alloc
unfolding sum_alloc
sum_alloc-append [] symbol token alloc = omega arith
sum_alloc-append ((s, t, a) ∷ l) symbol token alloc =
    omega (arith, sum_alloc-append l symbol token alloc)

is_staked-append :
    (t : ℕ) (l : List Shape) (symbol : Bytes) (token alloc : ℕ)
    → is_staked t (l ++ (symbol, token, alloc) ∷ []) ≡ (if token == t then true else is_staked t l)
unfolding is_staked
is_staked-append t [] symbol token alloc = refl
is_staked-append t ((s, u, a) ∷ l) symbol token alloc =
    ground (arith, is_staked-append t l symbol token alloc)

append-HasDistinctTokens :
    (l : List Shape) (symbol : Bytes) (token alloc : ℕ)
    → token ≢ 0
    → is_staked token l ≡ false
    → HasDistinctTokens l
    → HasDistinctTokens (l ++ (symbol, token, alloc) ∷ [])
unfolding is_staked
append-HasDistinctTokens [] symbol token alloc ne new d = (ne, refl, tt)
append-HasDistinctTokens ((s, t, a) ∷ l) symbol token alloc ne new (t_ne, t_new, d) = (
  t_ne,
  rw (is_staked-append t l symbol token alloc) (ground (arith, new, t_new)),
  append-HasDistinctTokens l symbol token alloc ne (ground (arith, new)) d,
)

sum_alloc-set_at :
    (pid : ℕ) (q : PoolInfo) (pools : List PoolInfo) {p : PoolInfo}
    → get_elem? pools pid ≡ some p
    → sum_alloc (shapes (set_at pid q pools)) + p.alloc_point
      ≡ sum_alloc (shapes pools) + q.alloc_point
unfolding sum_alloc shapes set_at
sum_alloc-set_at pid q [] at = absurd (cc)
sum_alloc-set_at zero q (r ∷ pools) {p} at =
    let here : r.alloc_point ≡ p.alloc_point = ground (arith, at) in omega (arith, here)
sum_alloc-set_at (suc pid) q (r ∷ pools) at = omega (arith, sum_alloc-set_at pid q pools at)

is_staked-set_at :
    (t pid : ℕ) (q : PoolInfo) (pools : List PoolInfo) {p : PoolInfo}
    → get_elem? pools pid ≡ some p
    → q.stake_token ≡ p.stake_token
    → is_staked t (shapes (set_at pid q pools)) ≡ is_staked t (shapes pools)
unfolding is_staked shapes set_at
is_staked-set_at t pid q [] at same = absurd (cc)
is_staked-set_at t zero q (r ∷ pools) {p} at same =
    let here : r.stake_token ≡ p.stake_token = ground (arith, at) in ground (arith, here, same)
is_staked-set_at t (suc pid) q (r ∷ pools) at same =
    ground (arith, is_staked-set_at t pid q pools at same)

HasDistinctTokens-set_at :
    (pid : ℕ) (q : PoolInfo) (pools : List PoolInfo) {p : PoolInfo}
    → get_elem? pools pid ≡ some p
    → q.stake_token ≡ p.stake_token
    → HasDistinctTokens (shapes pools)
    → HasDistinctTokens (shapes (set_at pid q pools))
unfolding shapes set_at
HasDistinctTokens-set_at pid q [] at same d = absurd (cc)
HasDistinctTokens-set_at zero q (r ∷ pools) {p} at same (ne, new, d) =
    let here : q.stake_token ≡ r.stake_token = ground (arith, at, same) in
    (rw here ne, rw here new, d)
HasDistinctTokens-set_at (suc pid) q (r ∷ pools) at same (ne, new, d) = (
  ne,
  is_staked-set_at r.stake_token pid q pools at same ∙ new,
  HasDistinctTokens-set_at pid q pools at same d,
)

-- What an `addPool` that goes through has done.
pub record Added (f f' : FairLaunch) (symbol : Bytes) (token alloc : ℕ) : Type 0 where
  pub added_shapes : shapes f'.pools ≡ shapes f.pools ++ (symbol, token, alloc) ∷ []
  pub added_total : f'.total_alloc_point ≡ f.total_alloc_point + alloc
  pub added_new : is_staked token (shapes f.pools) ≡ false
  pub added_token : token ≢ 0
  pub added_owner : f'.owner ≡ f.owner
  pub added_self : f'.self ≡ f.self

module _ (z : OpenZeppelin) (doc : IsDocumented z) where
  pushed_total :
      (b : Block) (symbol : Bytes) (alloc token : ℕ) (f f' : FairLaunch)
      → push_pool z b symbol alloc token f ≡ ok f'
      → f'.total_alloc_point ≡ f.total_alloc_point + alloc
  unfolding push_pool
  pushed_total b symbol alloc token f f' h =
      >>=-use (require (not (token == 0)) no_stake_token) _ h λ _ _ h1.
        >>=-use (require (not (is_duplicated_pool token f.pools)) duplicate_stake_token) _ h1
          λ _ _ h2. >>=-use (checked (z.add f.total_alloc_point alloc)) _ h2 λ total sum h3.
            let exact =
              doc.exact_sum f.total_alloc_point alloc
                (checked-eq-ok (z.add f.total_alloc_point alloc) sum) in
            ground (arith, h3, exact)

  push_pool-Added :
      (b : Block) (symbol : Bytes) (alloc token : ℕ) (f f' : FairLaunch)
      → push_pool z b symbol alloc token f ≡ ok f'
      → Added f f' symbol token alloc
  unfolding push_pool
  push_pool-Added b symbol alloc token f f' h =
      let p : PoolInfo = record {
        symbol = symbol;
        stake_token = token;
        alloc_point = alloc;
        last_reward_block = if ltb f.start_block b.number then b.number else f.start_block;
        acc_husky_per_share = 0;
        acc_husky_per_share_til_bonus_end = 0;
      } in
      let pools : f'.pools ≡ f.pools ++ p ∷ [] = ground (arith, h) in
      record {
        added_shapes = ap shapes pools ∙ shapes-append f.pools p;
        added_total = pushed_total b symbol alloc token f f' h;
        added_new = ground (arith, h, is_duplicated_pool-is_staked token f.pools);
        added_token = ground (arith, h);
        added_owner = ground (arith, h);
        added_self = ground (arith, h);
      }

  -- the update of all pools comes first, and keeps their shapes
  updated_first :
      (b : Block) (with_update : Bool) (f : FairLaunch) {g : FairLaunch}
      → (elim with_update [ true ↦ mass_update_pools z b f | false ↦ ok f ]) ≡ ok g
      → SameShape f g
  updated_first b true f h = mass_update_pools-SameShape z b f h
  updated_first b false f {g} h =
      let same : f ≡ g = ground (arith, h) in rw (← same) (SameShape-refl f)

  -- An `addPool` that goes through, with update or without, and with `SafeMath` as documented, has
  -- added one pool at the end, with the symbol, the stake token and the allocation points of its
  -- arguments, and these points to `totalAllocPoint`. The stake token is not the zero address and
  -- was that of no pool; the other pools keep their symbols, stake tokens and points, and the
  -- owner and the address of the contract are the same.
  pub add_pool-Added :
      (b : Block) (sender : ℕ) (symbol : Bytes) (alloc token : ℕ) (with_update : Bool)
      (f f' : FairLaunch)
      → add_pool z b sender symbol alloc token with_update f ≡ ok f'
      → Added f f' symbol token alloc
  unfolding add_pool
  add_pool-Added b sender symbol alloc token with_update f f' h =
      >>=-use (require (z.only_owner f.owner sender) not_owner) _ h λ _ _ h1.
        >>=-use (elim with_update [ true ↦ mass_update_pools z b f | false ↦ ok f ]) _ h1
          λ g updated h2.
            let s = updated_first b with_update f updated in
            let a = push_pool-Added b symbol alloc token g f' h2 in
            record {
              added_shapes =
                  a.added_shapes ∙ ap (λ l. l ++ (symbol, token, alloc) ∷ []) s.same_pools;
              added_total = a.added_total ∙ ap (λ n. n + alloc) s.same_total;
              added_new = ap (is_staked token) (sym s.same_pools) ∙ a.added_new;
              added_token = a.added_token;
              added_owner = a.added_owner ∙ s.same_owner;
              added_self = a.added_self ∙ s.same_self;
            }

  pub Added-IsConsistent :
      {f f' : FairLaunch} (symbol : Bytes) (token alloc : ℕ)
      → Added f f' symbol token alloc
      → IsConsistent f
      → IsConsistent f'
  Added-IsConsistent {f} symbol token alloc a c = record {
    total =
        a.added_total
        ∙ ap (λ n. n + alloc) c.total
        ∙ sym (sum_alloc-append (shapes f.pools) symbol token alloc)
        ∙ ap sum_alloc (sym a.added_shapes);
    distinct = rw a.added_shapes (
        append-HasDistinctTokens (shapes f.pools) symbol token alloc a.added_token a.added_new
          c.distinct);
  }

  pub set_pool-IsConsistent :
      (b : Block) (sender pid alloc : ℕ) (with_update : Bool) (f f' : FairLaunch)
      → set_pool z b sender pid alloc with_update f ≡ ok f'
      → IsConsistent f
      → IsConsistent f'
  unfolding set_pool
  set_pool-IsConsistent b sender pid alloc with_update f f' h c =
      >>=-use (require (z.only_owner f.owner sender) not_owner) _ h λ _ _ h1.
        >>=-use (mass_update_pools z b f) _ h1 λ g updated h2.
          >>=-use (pool_at pid g) _ h2 λ pool found h3.
            >>=-use (checked (z.sub g.total_alloc_point pool.alloc_point)) _ h3 λ less cut h4.
              >>=-use (checked (z.add less alloc)) _ h4 λ total sum h5.
                let s = SameShape-IsConsistent (mass_update_pools-SameShape z b f updated) c in
                let at = pool_at-eq_ok pid g found in
                let q : PoolInfo = record pool { alloc_point = alloc } in
                let pools : f'.pools ≡ set_at pid q g.pools = ground (arith, h5) in
                let less_lem =
                  doc.exact_difference g.total_alloc_point pool.alloc_point
                    (checked-eq-ok (z.sub g.total_alloc_point pool.alloc_point) cut) in
                let total_lem = doc.exact_sum less alloc (checked-eq-ok (z.add less alloc) sum) in
                let here : f'.total_alloc_point ≡ total = ground (arith, h5) in
                record {
                  total = rw pools (
                      omega (
                        arith,
                        here,
                        total_lem,
                        less_lem,
                        s.total,
                        sum_alloc-set_at pid q g.pools at,
                      ));
                  distinct = rw pools (HasDistinctTokens-set_at pid q g.pools at refl s.distinct);
                }
