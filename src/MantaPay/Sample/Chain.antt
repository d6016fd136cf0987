-- ===== src/MantaPay/Sample/Chain.antt =====
-- A small chain around pallets/manta-pay, for the examples: balances and items as maps, with account 0
-- as the account of the pallet.
use hackathon_parity_eu.Prelude.{
  ℕ, ◌+◌, ◌-◌, ◌≡◌, ◌≢◌, ◌==◌, leb, true, false, Option, none, some, [], ◌∷◌, StorageMap, nat_key,
  nat_pair_key, lookup, insert, remove, ok, err, if◌then◌else◌, arith, Result, lookup-remove,
}
use hackathon_parity_eu.Assets.Metadata.{AssetStorageMetadata}
use hackathon_parity_eu.Assets.Ledger.{Pallets, success}
use hackathon_parity_eu.Assets.Ledger.Moves.{Moves}
use hackathon_parity_eu.Assets.NonFungible.{Items}
use hackathon_parity_eu.MantaPay.Post.{Codecs}
use hackathon_parity_eu.MantaPay.Transfer.{Runtime, World}
use hackathon_parity_eu.MantaPay.Sample.{numbers, empty, first_byte}

abbrev pub or_zero : Option ℕ → ℕ
or_zero none = 0
or_zero (some n) = n

abbrev pub held : ℕ → StorageMap ℕ ℕ → ℕ
held a m = or_zero (lookup a m)

abbrev pub asset_held : ℕ → ℕ → StorageMap (ℕ × ℕ) ℕ → ℕ
asset_held id a m = or_zero (lookup (id, a) m)

abbrev pub pay : ℕ → ℕ → ℕ → StorageMap ℕ ℕ → Result ℕ (Unit {0} × StorageMap ℕ ℕ)
pay a b amount m =
    if leb amount (held a m)
    then ok (tt, insert b (held b m + amount) (insert a (held a m - amount) m))
    else err 0

abbrev pub pay_asset : ℕ → ℕ → ℕ → ℕ → StorageMap (ℕ × ℕ) ℕ → Result ℕ (ℕ × StorageMap (ℕ × ℕ) ℕ)
pay_asset id a b amount m =
    if leb amount (asset_held id a m)
    then ok (
      amount,
      insert (id, b) (asset_held id b m + amount) (insert (id, a) (asset_held id a m - amount) m),
    )
    else err 0

abbrev pub banks : Pallets
banks = record {
  AccountId = ℕ;
  DispatchError = ℕ;
  Native = StorageMap ℕ ℕ;
  NonNative = StorageMap (ℕ × ℕ) ℕ;
  start_non_native_asset_id = 8;
  native_asset_id = 1;
  native_can_deposit = λ a n b m. success;
  native_deposit_creating = λ a n m. insert a (held a m + n) m;
  native_transfer = λ a b n req m. pay a b n m;
  native_reducible_balance = λ a alive m. held a m;
  native_withdraw =
      λ a n req m. if leb n (held a m) then ok (tt, insert a (held a m - n) m) else err 0;
  can_deposit = λ id a n b m. success;
  mint_into = λ id a n m. ok (tt, insert (id, a) (asset_held id a m + n) m);
  transfer = λ id a b n alive m. pay_asset id a b n m;
  reducible_balance = λ id a alive m. asset_held id a m;
  burn_from = λ id a n m.
      if leb n (asset_held id a m) then ok (n, insert (id, a) (asset_held id a m - n) m) else err 0;
}

pay_moves :
    (a b amount : ℕ) (s s' : StorageMap ℕ ℕ)
    → a ≢ b
    → pay a b amount s ≡ ok (tt, s')
    → (held a s ≡ held a s' + amount) × (held b s' ≡ held b s + amount)
pay_moves a b amount s s' distinct h = ground (
  arith,
  lookup-remove a b (insert a (held a s - amount) s),
  lookup-remove b b (insert a (held a s - amount) s),
)

pay_asset_moves :
    (id a b amount n : ℕ) (s s' : StorageMap (ℕ × ℕ) ℕ)
    → a ≢ b
    → pay_asset id a b amount s ≡ ok (n, s')
    → (asset_held id a s ≡ asset_held id a s' + amount)
      × (asset_held id b s' ≡ asset_held id b s + amount)
pay_asset_moves id a b amount n s s' distinct h = ground (
  arith,
  lookup-remove (id, a) (id, b) (insert (id, a) (asset_held id a s - amount) s),
  lookup-remove (id, b) (id, b) (insert (id, a) (asset_held id a s - amount) s),
)

pub bank_moves : Moves banks
bank_moves = record {
  native_balance = held;
  asset_balance = asset_held;
  native_moves = λ a b n s s' distinct h. pay_moves a b n s s' distinct h;
  asset_moves = λ id a b n m s s' distinct h. pay_asset_moves id a b n m s s' distinct h;
}

abbrev pub gallery : Items ℕ ℕ
gallery = record {
  Store = StorageMap (ℕ × ℕ) ℕ;
  mint_into = λ c i a m. ok (tt, insert (c, i) a m);
  owner_of = λ c i m. lookup (c, i) m;
  transfer =
      λ c i a m. elim (lookup (c, i) m) [ none ↦ err 0 | some o ↦ ok (tt, insert (c, i) a m) ];
  burn = λ c i a m. ok (tt, remove (c, i) m);
}

abbrev pub byte_codecs : Codecs numbers
byte_codecs = record {
  Group = ℕ;
  Scalar = ℕ;
  Proof = ℕ;
  group_encode = λ g. some (g ∷ []);
  group_decode = first_byte;
  scalar_encode = λ g. some (g ∷ []);
  scalar_decode = first_byte;
  proof_encode = λ g. some (g ∷ []);
  proof_decode = first_byte;
  utxo_try_into = λ u. some u;
  note_try_into = λ u. some u;
  outgoing_note_try_into = λ u. some u;
}

-- Asset 8 is fungible, asset 9 an item, and asset 10 a soul-bound item.
abbrev pub registered_metadata : ℕ → Option (AssetStorageMetadata ℕ ℕ ℕ ℕ ℕ)
registered_metadata id =
    if id == 8
    then some (
        AssetStorageMetadata.fungible (record {
          metadata = record { name = []; symbol = []; decimals = 12; is_frozen = false };
          asset_id = 8;
          min_balance = 1;
          is_sufficient = true;
        }))
    else if id == 9
    then some (
        AssetStorageMetadata.non_fungible (record {
          name = [];
          info = [];
          collection_id = 3;
          item_id = 4;
          origin_owner = 1;
          origin_zkaddress = 5 ∷ [];
        }))
    else if id == 10
    then some (
        AssetStorageMetadata.sbt (record {
          name = [];
          info = [];
          collection_id = 3;
          item_id = 5;
          origin_owner = 1;
          origin_zkaddress = 5 ∷ [];
        }))
    else none

abbrev pub chain : Runtime
chain = record {
  crypto = numbers;
  codecs = byte_codecs;
  pallets = banks;
  account_key = nat_key;
  items = gallery;
  get_metadata = registered_metadata;
  account_id = 0;
  VerifyingContext = ℕ;
  get_to_private = some (1 ∷ []);
  get_private_transfer = some (2 ∷ []);
  get_to_public = some (3 ∷ []);
  decode_verifying_context = first_byte;
}

-- Account 1 holds 100 of asset 8, and item 4 of collection 3.
abbrev pub start : World chain
start = record {
  pay = empty;
  balances = record { native = []; non_native = ((8, 1), 100) ∷ [] };
  items = ((3, 4), 1) ∷ [];
  events = [];
}
