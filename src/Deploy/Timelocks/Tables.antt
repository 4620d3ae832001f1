-- ===== src/Deploy/Timelocks/Tables.antt =====
-- deploy/setup/s010, s014, s015 and s016: the tables of the scripts.
use huski_bsc_contract.Base.{ℕ, ◌*◌, ◌^◌, List, [], ◌∷◌}
use huski_bsc_contract.Deploy.{text}
use huski_bsc_contract.Deploy.Timelocks.{NewParams, Migration, ResetApproval}

-- the vaults of s010
abbrev bnb_params : NewParams
bnb_params = record {
  vault_name = text "BNB";
  vault_config = 0x53dbb71303ad0F9AFa184B8f7147F9f12Bb5Dc01;
  min_debt_size = 2 * 10 ^ 18;
  reserve_pool_bps = 1000;
  kill_prize_bps = 500;
  interest_model = 0x375D32FadA30d7e6Fea242FCa221a22CC6d52B30;
  wbnb = 0xbb4CdB9CBd36B01bD1cBaEBF2De08d9173bc095c;
  wnative_relayer = 0xE1D2CA01bc88F325fF7266DD2165944f3CAf0D3D;
  fairlaunch = 0xA625AB01B08ce023B2a342Dbb12a16f2C8489A8F;
  timelock = 0x2D5408f2287BF9F9B05404794459a846651D0a59;
  exact_eta = 1617926400;
}

unfoldable pub new_params : List NewParams
new_params =
    bnb_params
    ∷ (record bnb_params {
      vault_name = text "BUSD";
      vault_config = 0xd7b805E88c5F52EDE71a9b93F7048c8d632DBEd4;
      min_debt_size = 400 * 10 ^ 18;
    })
    ∷ []

-- the workers of s015
abbrev comp_migration : Migration
comp_migration = record {
  worker_name = text "COMP-ETH Worker";
  worker_addr = 0xd6260DB3A84C7BfdAFcD82325397B8E70B39627f;
  router_v2 = 0x10ED43C718714eb63d5aA57B78B54704E256024E;
  new_pool_id = 300;
  twoside_optimal_migration_strat_addr = 0xb222b4Ebebcb9F264e8FF5C7661a52850e54E1eE;
  add_strat = 0xE38EBFE8F314dcaD61d5aDCB29c1A26F41BEd0Be;
  liq_strat = 0xE574dc08aa579720Dfacd70D3DAE883d29874599;
  ok_strats =
      0x95Ff1336985723aa46078995454d7A7Fd9F5401e ∷ 0x74EEC507b01AAcc192B295B7b7EB6F5DaEE68b1B ∷ [];
  disable_strats =
      0x1DBa79e73a7Ea9749fc28B921bc9431D09BEf2B5 ∷ 0xc7c025aA69F4b525E3F9f5186b524492ee1C86bB
      ∷ 0xEb6e0B9839b297322a6FaEc0cEBC6d3e207b7480 ∷ 0x5e2911d70d7a659Da0dA26989F445aeCAC58f2E6
      ∷ [];
}

unfoldable pub migrations : List Migration
migrations =
    comp_migration
    ∷ (record comp_migration {
      worker_name = text "SUSHI-ETH Worker";
      worker_addr = 0xaA5c95181c02DfB8173813149e52c8C9E4E14124;
      new_pool_id = 306;
    })
    ∷ []

-- the workers of s014
unfoldable pub upgraded_workers : List ℕ
upgraded_workers =
    0x7Af938f0EFDD98Dc513109F6A7E85106D26E16c4 ∷ 0x0aD12Bc160B523E7aBfBe3ABaDceE8F1b6116089
    ∷ 0x831332f94C4A0092040b28ECe9377AfEfF34B25a ∷ 0x05bDF33f03017eaFdEEccD68406E1281a1deF62d
    ∷ 0xA1644132Ca692ba0657637A31CE0F6B99f052C5E ∷ 0xDcd9f075B1Ff638e757226626a3b3606D7795f80
    ∷ 0xBB77F1625c4C3374ea0BAF42FAC74F7b7Ae9E4c6 ∷ 0x2E7f32e38EA5a5fcb4494d9B626d2d393B176B1E
    ∷ 0x4193D35D0cB598d92703ED69701f5d568aCa015c ∷ 0xa726E9E5c007253fe7589879136FDf24dA6DA393
    ∷ 0x9B13982d094b4fCca4aFF741A96834ff66E4d8bd ∷ 0x730bce145a55A07C2D7363db7110466c5c26E472
    ∷ 0xC5954CA8988988362f60498d5aDEc67BA466492B ∷ 0x51782E39A0aF33f542443419c223434Bb4A5a695
    ∷ 0x693430Fe5F1b0a61b232132d0567295c288eA482 ∷ 0xB82B93FcF1818513889c0E1F3628484Ce5017A14
    ∷ 0xe632ac75f2d0A97F7b1ef3a8a16d653C4c82b1fb ∷ 0xeBdECF3a21D95453A89440A4E32B9559E47073E7
    ∷ 0x2C4a246e532542DFaE3d575003C7f5c6583BFD8c ∷ 0xd6260DB3A84C7BfdAFcD82325397B8E70B39627f
    ∷ 0xaA5c95181c02DfB8173813149e52c8C9E4E14124 ∷ 0xeF1C5D2c20b22Ae50437a2F3bd258Ab1117D1BaD ∷ []

-- the workers of s016
unfoldable pub reset_approvals_1 : List ResetApproval
reset_approvals_1 =
    (record {
      worker_name = text "CAKE-WBNB Worker";
      worker_addr = 0x7Af938f0EFDD98Dc513109F6A7E85106D26E16c4;
      reset_approved =
          (record {
            token = 0x0e09fabb73bd3ade0a17ecc321fd13a19e81ce82;
            spender = 0x7F8BE608D72d5Eb51E231B1F9a3e25823fDe0900;
          })
          ∷ (record {
            token = 0xa527a61703d82139f8a06bc30097cc9caa2df5a6;
            spender = 0x2AD2C5314028897AEcfCF37FD923c079BeEb2C56;
          })
          ∷ (record {
            token = 0xa527a61703d82139f8a06bc30097cc9caa2df5a6;
            spender = 0x73feaa1eE314F8c655E354234017bE2193C9E24E;
          })
          ∷ [];
    })
    ∷ (record {
      worker_name = text "BTCB-WBNB Worker";
      worker_addr = 0x0aD12Bc160B523E7aBfBe3ABaDceE8F1b6116089;
      reset_approved =
          (record {
            token = 0x7130d2a12b9bcbfae4f2634d864a1ee1ce3ead9c;
            spender = 0x7F8BE608D72d5Eb51E231B1F9a3e25823fDe0900;
          })
          ∷ (record {
            token = 0x7561eee90e24f3b348e1087a005f78b4c8453524;
            spender = 0x2AD2C5314028897AEcfCF37FD923c079BeEb2C56;
          })
          ∷ (record {
            token = 0x7561eee90e24f3b348e1087a005f78b4c8453524;
            spender = 0x73feaa1eE314F8c655E354234017bE2193C9E24E;
          })
          ∷ [];
    })
    ∷ (record {
      worker_name = text "ETH-WBNB Worker";
      worker_addr = 0x831332f94C4A0092040b28ECe9377AfEfF34B25a;
      reset_approved =
          (record {
            token = 0x2170ed0880ac9a755fd29b2688956bd959f933f8;
            spender = 0x7F8BE608D72d5Eb51E231B1F9a3e25823fDe0900;
          })
          ∷ (record {
            token = 0x70d8929d04b60af4fb9b58713ebcf18765ade422;
            spender = 0x2AD2C5314028897AEcfCF37FD923c079BeEb2C56;
          })
          ∷ (record {
            token = 0x70d8929d04b60af4fb9b58713ebcf18765ade422;
            spender = 0x73feaa1eE314F8c655E354234017bE2193C9E24E;
          })
          ∷ [];
    })
    ∷ (record {
      worker_name = text "DOT-WBNB Worker";
      worker_addr = 0x05bDF33f03017eaFdEEccD68406E1281a1deF62d;
      reset_approved =
          (record {
            token = 0x7083609fce4d1d8dc0c979aab8c869ea2c873402;
            spender = 0x7F8BE608D72d5Eb51E231B1F9a3e25823fDe0900;
          })
          ∷ (record {
            token = 0xbCD62661A6b1DEd703585d3aF7d7649Ef4dcDB5c;
            spender = 0x2AD2C5314028897AEcfCF37FD923c079BeEb2C56;
          })
          ∷ (record {
            token = 0xbCD62661A6b1DEd703585d3aF7d7649Ef4dcDB5c;
            spender = 0x73feaa1eE314F8c655E354234017bE2193C9E24E;
          })
          ∷ [];
    })
    ∷ (record {
      worker_name = text "UNI-WBNB Worker";
      worker_addr = 0xA1644132Ca692ba0657637A31CE0F6B99f052C5E;
      reset_approved =
          (record {
            token = 0xbf5140a22578168fd562dccf235e5d43a02ce9b1;
            spender = 0x7F8BE608D72d5Eb51E231B1F9a3e25823fDe0900;
          })
          ∷ (record {
            token = 0x4269e7F43A63CEA1aD7707Be565a94a9189967E9;
            spender = 0x2AD2C5314028897AEcfCF37FD923c079BeEb2C56;
          })
          ∷ (record {
            token = 0x4269e7F43A63CEA1aD7707Be565a94a9189967E9;
            spender = 0x73feaa1eE314F8c655E354234017bE2193C9E24E;
          })
          ∷ [];
    })
    ∷ (record {
      worker_name = text "LINK-WBNB Worker";
      worker_addr = 0xDcd9f075B1Ff638e757226626a3b3606D7795f80;
      reset_approved =
          (record {
            token = 0xf8a0bf9cf54bb92f17374d9e9a321e6a111a51bd;
            spender = 0x7F8BE608D72d5Eb51E231B1F9a3e25823fDe0900;
          })
          ∷ (record {
            token = 0xaeBE45E3a03B734c68e5557AE04BFC76917B4686;
            spender = 0x2AD2C5314028897AEcfCF37FD923c079BeEb2C56;
          })
          ∷ (record {
            token = 0xaeBE45E3a03B734c68e5557AE04BFC76917B4686;
            spender = 0x73feaa1eE314F8c655E354234017bE2193C9E24E;
          })
          ∷ [];
    })
    ∷ (record {
      worker_name = text "XVS-WBNB Worker";
      worker_addr = 0xBB77F1625c4C3374ea0BAF42FAC74F7b7Ae9E4c6;
      reset_approved =
          (record {
            token = 0xcf6bb5389c92bdda8a3747ddb454cb7a64626c63;
            spender = 0x7F8BE608D72d5Eb51E231B1F9a3e25823fDe0900;
          })
          ∷ (record {
            token = 0x41182c32F854dd97bA0e0B1816022e0aCB2fc0bb;
            spender = 0x2AD2C5314028897AEcfCF37FD923c079BeEb2C56;
          })
          ∷ (record {
            token = 0x41182c32F854dd97bA0e0B1816022e0aCB2fc0bb;
            spender = 0x73feaa1eE314F8c655E354234017bE2193C9E24E;
          })
          ∷ [];
    })
    ∷ (record {
      worker_name = text "YFI-WBNB Worker";
      worker_addr = 0x2E7f32e38EA5a5fcb4494d9B626d2d393B176B1E;
      reset_approved =
          (record {
            token = 0x88f1a5ae2a3bf98aeaf342d26b30a79438c9142e;
            spender = 0x7F8BE608D72d5Eb51E231B1F9a3e25823fDe0900;
          })
          ∷ (record {
            token = 0x68Ff2ca47D27db5Ac0b5c46587645835dD51D3C1;
            spender = 0x2AD2C5314028897AEcfCF37FD923c079BeEb2C56;
          })
          ∷ (record {
            token = 0x68Ff2ca47D27db5Ac0b5c46587645835dD51D3C1;
            spender = 0x73feaa1eE314F8c655E354234017bE2193C9E24E;
          })
          ∷ [];
    })
    ∷ []

unfoldable pub reset_approvals_2 : List ResetApproval
reset_approvals_2 =
    (record {
      worker_name = text "ITAM-WBNB Worker";
      worker_addr = 0x4193D35D0cB598d92703ED69701f5d568aCa015c;
      reset_approved =
          (record {
            token = 0x04c747b40be4d535fc83d09939fb0f626f32800b;
            spender = 0x7F8BE608D72d5Eb51E231B1F9a3e25823fDe0900;
          })
          ∷ (record {
            token = 0xCdC53345192D0e31eEAD03D7E9e008Ee659FAEbE;
            spender = 0x2AD2C5314028897AEcfCF37FD923c079BeEb2C56;
          })
          ∷ (record {
            token = 0xCdC53345192D0e31eEAD03D7E9e008Ee659FAEbE;
            spender = 0x73feaa1eE314F8c655E354234017bE2193C9E24E;
          })
          ∷ [];
    })
    ∷ (record {
      worker_name = text "USDT-BUSD Worker";
      worker_addr = 0xC5954CA8988988362f60498d5aDEc67BA466492B;
      reset_approved =
          (record {
            token = 0x55d398326f99059ff775485246999027b3197955;
            spender = 0x7F8BE608D72d5Eb51E231B1F9a3e25823fDe0900;
          })
          ∷ (record {
            token = 0xc15fa3e22c912a276550f3e5fe3b0deb87b55acd;
            spender = 0x2AD2C5314028897AEcfCF37FD923c079BeEb2C56;
          })
          ∷ (record {
            token = 0xc15fa3e22c912a276550f3e5fe3b0deb87b55acd;
            spender = 0x73feaa1eE314F8c655E354234017bE2193C9E24E;
          })
          ∷ [];
    })
    ∷ (record {
      worker_name = text "WBNB-BUSD Worker";
      worker_addr = 0x51782E39A0aF33f542443419c223434Bb4A5a695;
      reset_approved =
          (record {
            token = 0xbb4CdB9CBd36B01bD1cBaEBF2De08d9173bc095c;
            spender = 0x7F8BE608D72d5Eb51E231B1F9a3e25823fDe0900;
          })
          ∷ (record {
            token = 0x1b96b92314c44b159149f7e0303511fb2fc4774f;
            spender = 0x2AD2C5314028897AEcfCF37FD923c079BeEb2C56;
          })
          ∷ (record {
            token = 0x1b96b92314c44b159149f7e0303511fb2fc4774f;
            spender = 0x73feaa1eE314F8c655E354234017bE2193C9E24E;
          })
          ∷ [];
    })
    ∷ (record {
      worker_name = text "VAI-BUSD Worker";
      worker_addr = 0x693430Fe5F1b0a61b232132d0567295c288eA482;
      reset_approved =
          (record {
            token = 0x4bd17003473389a42daf6a0a729f6fdb328bbbd7;
            spender = 0x7F8BE608D72d5Eb51E231B1F9a3e25823fDe0900;
          })
          ∷ (record {
            token = 0xfF17ff314925Dff772b71AbdFF2782bC913B3575;
            spender = 0x2AD2C5314028897AEcfCF37FD923c079BeEb2C56;
          })
          ∷ (record {
            token = 0xfF17ff314925Dff772b71AbdFF2782bC913B3575;
            spender = 0x73feaa1eE314F8c655E354234017bE2193C9E24E;
          })
          ∷ [];
    })
    ∷ (record {
      worker_name = text "USDC-BUSD Worker";
      worker_addr = 0xB82B93FcF1818513889c0E1F3628484Ce5017A14;
      reset_approved =
          (record {
            token = 0x8ac76a51cc950d9822d68b83fe1ad97b32cd580d;
            spender = 0x7F8BE608D72d5Eb51E231B1F9a3e25823fDe0900;
          })
          ∷ (record {
            token = 0x680Dd100E4b394Bda26A59dD5c119A391e747d18;
            spender = 0x2AD2C5314028897AEcfCF37FD923c079BeEb2C56;
          })
          ∷ (record {
            token = 0x680Dd100E4b394Bda26A59dD5c119A391e747d18;
            spender = 0x73feaa1eE314F8c655E354234017bE2193C9E24E;
          })
          ∷ [];
    })
    ∷ (record {
      worker_name = text "DAI-BUSD Worker";
      worker_addr = 0xe632ac75f2d0A97F7b1ef3a8a16d653C4c82b1fb;
      reset_approved =
          (record {
            token = 0x1af3f329e8be154074d8769d1ffa4ee058b1dbc3;
            spender = 0x7F8BE608D72d5Eb51E231B1F9a3e25823fDe0900;
          })
          ∷ (record {
            token = 0x3aB77e40340AB084c3e23Be8e5A6f7afed9D41DC;
            spender = 0x2AD2C5314028897AEcfCF37FD923c079BeEb2C56;
          })
          ∷ (record {
            token = 0x3aB77e40340AB084c3e23Be8e5A6f7afed9D41DC;
            spender = 0x73feaa1eE314F8c655E354234017bE2193C9E24E;
          })
          ∷ [];
    })
    ∷ (record {
      worker_name = text "UST-BUSD Worker";
      worker_addr = 0xeBdECF3a21D95453A89440A4E32B9559E47073E7;
      reset_approved =
          (record {
            token = 0x23396cf899ca06c4472205fc903bdb4de249d6fc;
            spender = 0x7F8BE608D72d5Eb51E231B1F9a3e25823fDe0900;
          })
          ∷ (record {
            token = 0xD1F12370b2ba1C79838337648F820a87eDF5e1e6;
            spender = 0x2AD2C5314028897AEcfCF37FD923c079BeEb2C56;
          })
          ∷ (record {
            token = 0xD1F12370b2ba1C79838337648F820a87eDF5e1e6;
            spender = 0x73feaa1eE314F8c655E354234017bE2193C9E24E;
          })
          ∷ [];
    })
    ∷ (record {
      worker_name = text "COMP-ETH Worker";
      worker_addr = 0xd6260DB3A84C7BfdAFcD82325397B8E70B39627f;
      reset_approved =
          (record {
            token = 0x52ce071bd9b1c4b00a0b92d298c512478cad67e8;
            spender = 0x7F8BE608D72d5Eb51E231B1F9a3e25823fDe0900;
          })
          ∷ (record {
            token = 0x0392957571F28037607C14832D16f8B653eDd472;
            spender = 0x2AD2C5314028897AEcfCF37FD923c079BeEb2C56;
          })
          ∷ (record {
            token = 0x0392957571F28037607C14832D16f8B653eDd472;
            spender = 0x73feaa1eE314F8c655E354234017bE2193C9E24E;
          })
          ∷ [];
    })
    ∷ (record {
      worker_name = text "SUSHI-ETH Worker";
      worker_addr = 0xaA5c95181c02DfB8173813149e52c8C9E4E14124;
      reset_approved =
          (record {
            token = 0x947950bcc74888a40ffa2593c5798f11fc9124c4;
            spender = 0x7F8BE608D72d5Eb51E231B1F9a3e25823fDe0900;
          })
          ∷ (record {
            token = 0x17580340F3dAEDAE871a8C21D15911742ec79e0F;
            spender = 0x2AD2C5314028897AEcfCF37FD923c079BeEb2C56;
          })
          ∷ (record {
            token = 0x17580340F3dAEDAE871a8C21D15911742ec79e0F;
            spender = 0x73feaa1eE314F8c655E354234017bE2193C9E24E;
          })
          ∷ [];
    })
    ∷ []
