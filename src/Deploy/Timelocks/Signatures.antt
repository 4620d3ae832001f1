-- ===== src/Deploy/Timelocks/Signatures.antt =====
-- deploy/setup/s001 to s020: the signatures that are queued, against the values that are encoded.
use huski_bsc_contract.Base.{
  ℕ, ◌≡◌, Bool, true, false, refl, Option, none, some, List, [], ◌∷◌, ◌++◌, map, Bytes, ◌==◌, ◌||◌,
  if◌then◌else◌,
}
use huski_bsc_contract.Deploy.{text}
use huski_bsc_contract.Deploy.Timelocks.{
  AbiValue, address, number, flag, addresses, factors, Request,
}
use huski_bsc_contract.Deploy.Timelocks.Requests.{
  admin_request, params_request, factors_request, migration_request, approval_request,
  upgrade_request, whitelist_request, strategy_request, timelock_addr, debt_token_request,
  critical_request,
}
use huski_bsc_contract.Deploy.Timelocks.Plan.{
  Plan, s001, s007, s009, s010, s011, s012, s014, s015, s016, s020, concat_map, debt_token_requests,
  critical_requests, requests,
}

-- The type of a value in Solidity's ABI.
unfoldable pub abi_type : AbiValue → Bytes
abi_type (address a) = text "address"
abi_type (number n) = text "uint256"
abi_type (flag b) = text "bool"
abi_type (addresses l) = text "address[]"
abi_type (factors l) = text "(bool,uint64,uint64,uint64)[]"

unfoldable pub join_comma : List Bytes → Bytes
join_comma [] = []
join_comma (a ∷ []) = a
join_comma (a ∷ b ∷ rest) = a ++ (44 ∷ join_comma (b ∷ rest))

-- A type without the names of its components: from a space to the next comma or bracket. The flag
-- tells whether a name is being skipped.
unfoldable pub strip_from : Bool → Bytes → Bytes
strip_from in_name [] = []
strip_from true (c ∷ rest) =
    let kept = strip_from false rest in
    let skipped = strip_from true rest in if (c == 44) || (c == 41) then c ∷ kept else skipped
strip_from false (c ∷ rest) =
    let kept = strip_from false rest in
    let skipped = strip_from true rest in if c == 32 then skipped else c ∷ kept

-- The signature is a function's name with the types of the values, and the types by which the
-- values are encoded are theirs.
pub record IsWellTyped (r : Request) : Type 0 where
  pub function_name : Bytes
  pub signature_lem :
      r.signature ≡ function_name ++ (40 ∷ (join_comma (map abi_type r.values) ++ (41 ∷ [])))
  pub types_lem : map (strip_from false) r.types ≡ map abi_type r.values

pub data AllWellTyped : List Request → Type 0 where
  none_left : AllWellTyped []
  first_typed :
      (r : Request) {rs : List Request} → IsWellTyped r → AllWellTyped rs → AllWellTyped (r ∷ rs)

append-AllWellTyped :
    (xs : List Request) {ys : List Request}
    → AllWellTyped xs
    → AllWellTyped ys
    → AllWellTyped (xs ++ ys)
append-AllWellTyped [] none_left b = b
append-AllWellTyped (x ∷ xs) (first_typed _ a as_) b =
    first_typed x a (append-AllWellTyped xs as_ b)

map-AllWellTyped :
    {A : Type 0} (g : A → Request)
    → ((a : A) → IsWellTyped (g a))
    → (l : List A) → AllWellTyped (map g l)
map-AllWellTyped g h [] = none_left
map-AllWellTyped g h (a ∷ l) = first_typed (g a) (h a) (map-AllWellTyped g h l)

concat_map-AllWellTyped :
    {A : Type 0} (g : A → List Request)
    → ((a : A) → AllWellTyped (g a))
    → (l : List A) → AllWellTyped (concat_map g l)
unfolding concat_map
concat_map-AllWellTyped g h [] = none_left
concat_map-AllWellTyped g h (a ∷ l) =
    append-AllWellTyped (g a) (h a) (concat_map-AllWellTyped g h l)

debt_token_requests-AllWellTyped :
    (vault : ℕ) (debt_token : Option ℕ) (pid : ℕ)
    → AllWellTyped (debt_token_requests vault debt_token pid)
unfolding debt_token_requests abi_type join_comma strip_from
debt_token_requests-AllWellTyped vault none pid = none_left
debt_token_requests-AllWellTyped vault (some debt_token) pid =
    first_typed (debt_token_request vault debt_token pid 1616574600)
      (record { function_name = text "updateDebtToken"; signature_lem = refl; types_lem = refl })
      none_left

critical_requests-AllWellTyped :
    (worker : ℕ) (add liq : Option ℕ) → AllWellTyped (critical_requests worker add liq)
unfolding critical_requests abi_type join_comma strip_from
critical_requests-AllWellTyped worker none liq = none_left
critical_requests-AllWellTyped worker (some add) none = none_left
critical_requests-AllWellTyped worker (some add) (some liq) =
    first_typed (critical_request worker add liq)
      (record {
        function_name = text "setCriticalStrategies";
        signature_lem = refl;
        types_lem = refl;
      })
      none_left

-- Whatever the tables of a script: each request that is on its list has the signature of a function
-- with the types of its values, and encodes the values by these types, up to the names of a tuple's
-- components.
pub requests-AllWellTyped : (plan : Plan) → AllWellTyped (requests plan)
unfolding requests abi_type join_comma strip_from
requests-AllWellTyped s001 =
    first_typed
      (strategy_request 0x771F70042ebb6d2Cfc29b7BF9f3caf9F959385B8
        0xF3ECC0e5c238C7082fC59e682104DEA2f49A3787 (0xA4047bdA5288BC718E4a3De68781dA4D7e801e82 ∷ [])
        true 1615447380)
      (record { function_name = text "setStrategyOk"; signature_lem = refl; types_lem = refl })
      none_left
requests-AllWellTyped (s007 vault impl debt_token pid) =
    first_typed (upgrade_request vault impl 1616574600)
      (record { function_name = text "upgrade"; signature_lem = refl; types_lem = refl })
      (debt_token_requests-AllWellTyped vault debt_token pid)
requests-AllWellTyped (s009 proxies) =
    map-AllWellTyped admin_request
      (λ a. record { function_name = text "changeAdmin"; signature_lem = refl; types_lem = refl })
      proxies
requests-AllWellTyped (s010 params) =
    map-AllWellTyped params_request
      (λ a. record { function_name = text "setParams"; signature_lem = refl; types_lem = refl })
      params
requests-AllWellTyped (s011 updates) =
    map-AllWellTyped factors_request
      (λ a. record { function_name = text "setConfigs"; signature_lem = refl; types_lem = refl })
      updates
requests-AllWellTyped (s012 add liq strategy workers) =
    concat_map-AllWellTyped _
      (λ worker.
        append-AllWellTyped (critical_requests worker add liq)
          (critical_requests-AllWellTyped worker add liq)
          (first_typed (strategy_request timelock_addr worker strategy false 1620561000)
            (record {
              function_name = text "setStrategyOk";
              signature_lem = refl;
              types_lem = refl;
            })
            none_left))
      workers
requests-AllWellTyped (s014 workers impl) =
    map-AllWellTyped (λ worker. upgrade_request worker impl 1620575100)
      (λ a. record { function_name = text "upgrade"; signature_lem = refl; types_lem = refl })
      workers
requests-AllWellTyped (s015 migrations) =
    map-AllWellTyped migration_request
      (λ a. record { function_name = text "migrateLP"; signature_lem = refl; types_lem = refl })
      migrations
requests-AllWellTyped (s016 rows) =
    concat_map-AllWellTyped _
      (λ row.
        map-AllWellTyped (approval_request row.worker_addr)
          (λ a. record {
            function_name = text "resetApproval";
            signature_lem = refl;
            types_lem = refl;
          })
          row.reset_approved)
      rows
requests-AllWellTyped (s020 rows) =
    map-AllWellTyped whitelist_request
      (λ a. record { function_name = text "setWorkersOk"; signature_lem = refl; types_lem = refl })
      rows
