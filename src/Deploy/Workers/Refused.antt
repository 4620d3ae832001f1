-- ===== src/Deploy/Workers/Refused.antt =====
-- deploy/scripts/014-1_deploy_pancakeswapV2_workers.ts: a pool id below zero is no argument.
use huski_bsc_contract.Base.{ℕ, ◌≡◌, refl, some, get_elem?, negsuc, err}
use huski_bsc_contract.Merkle.{}
use huski_bsc_contract.Deploy.{
  VaultEntry, World, Network, gets, bad_argument, undefined_field, config_of,
}
use huski_bsc_contract.Deploy.Steps.{>>=-go, >>=-stop, expect-go, expect-refused}
use huski_bsc_contract.Deploy.Workers.{
  WorkerRow, rows_from, to_uint, create_worker, deploy_worker, worker_rounds, deploy_workers,
}
use huski_bsc_contract.Deploy.Workers.Tables.{
  worker_row, huski_rows, huski_workers_script, huski_workers,
}

module _ (net : Network) where
  create_worker-refused :
      (r : WorkerRow) (n : ℕ) (w : World)
      → r.pool_id ≡ negsuc n
      → create_worker net r w ≡ (err bad_argument, w)
  unfolding create_worker to_uint
  create_worker-refused r n w h = expect-refused bad_argument r.vault_addr _ w λ vault.
      expect-refused bad_argument r.base_token_addr _ w λ base.
        expect-refused bad_argument r.master_chef_addr _ w λ chef.
          expect-refused bad_argument r.pancakeswap_router_addr _ w
            λ router. >>=-stop (to_uint 256 r.pool_id) _ w (rw h refl)

  -- Where the results file has an entry for vault 1, the script 014-1 fails for an argument that
  -- ethers refuses, the pool id -1 at the latest, before a worker is created: the contracts, the
  -- results file and the disk stay as they are.
  pub huski_workers_refused :
      (w : World) {entry : VaultEntry}
      → get_elem? (config_of net w).vaults 1 ≡ some entry
      → huski_workers net w ≡ (err bad_argument, w)
  unfolding huski_workers deploy_workers rows_from huski_rows worker_rounds deploy_worker worker_row
  huski_workers_refused w {entry} h = >>=-go (gets (config_of net)) _ w refl (
      expect-go undefined_field (get_elem? (config_of net w).vaults 1) _ w h (
        >>=-stop (worker_rounds net huski_workers_script (huski_rows (config_of net w) entry)) _ w (
          >>=-stop (deploy_worker net huski_workers_script _) _ w
            (>>=-stop (create_worker net _) _ w (create_worker-refused _ 0 w refl)))))
