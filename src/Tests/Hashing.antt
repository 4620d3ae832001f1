-- ===== src/Tests/Hashing.antt =====
-- Stand-ins for ethereumjs-util and ethers that compute.
use huski_bsc_contract.Base.{
  ℕ, ◌+◌, ◌-◌, not, Option, none, some, [], ◌∷◌, Bytes, bytes_eq, ltb, if◌then◌else◌, ℤ, pos,
  negsuc,
}
use huski_bsc_contract.Merkle.{Crypto}
use huski_bsc_contract.BalanceTree.{Ethers}

-- a hash of two bytes, and a hex text that is the buffer
abbrev mix : ℕ → Bytes → ℕ
mix n [] = n
mix n (b ∷ bytes) = mix (n + b) bytes

abbrev pub crypto : Crypto
crypto = record { keccak256 = λ bytes. mix 7 bytes ∷ 1 ∷ []; buffer_to_hex = λ bytes. bytes }

abbrev read : Bytes → Option ℤ
read [] = none
read (d ∷ rest) = some (if ltb d 48 then negsuc 0 else pos (d - 48))

abbrev pub ethers : Ethers
ethers = record {
  solidity_keccak256 = λ index account amount. index ∷ amount ∷ account;
  is_address = λ address. not (bytes_eq address []);
  get_address = λ address. address;
  big_number = read;
  to_hex_string = λ n. n ∷ [];
}
