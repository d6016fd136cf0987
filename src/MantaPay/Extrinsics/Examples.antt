-- ===== src/MantaPay/Extrinsics/Examples.antt =====
-- The calls of pallets/manta-pay at concrete inputs.
use hackathon_parity_eu.Prelude.{
  ℕ, ◌≡◌, refl, true, false, none, some, List, [], ◌∷◌, ◌++◌, ok, err, Call, nat_key, nat_pair_key,
  ℕ_discrete, nat_pair_discrete, bytes_discrete, replicate, is_some,
}
use hackathon_parity_eu.Assets.Metadata.{metadata_view}
use hackathon_parity_eu.Assets.Ledger.{transfer, ensure_valid}
use hackathon_parity_eu.Assets.NonFungible as Item
use hackathon_parity_eu.MantaPay.AssetId.{id_from_field, to_le_bytes, from_le_bytes}
use hackathon_parity_eu.MantaPay.Errors.{from_transfer_ledger_error}
use hackathon_parity_eu.MantaPay.Sample.{numbers, field}
use hackathon_parity_eu.MantaPay.Sample.Chain.{chain, start, byte_codecs}
use hackathon_parity_eu.MantaPay.Post.{
  TransferPost, RawTransferPost, Asset, transfer_post_decode, sender_post_decode,
  receiver_post_decode,
}
use hackathon_parity_eu.MantaPay.Transfer.{
  World, Metadata, Fault, panic, error, get_metadata, PreprocessedEvent, Event, convert,
}
use hackathon_parity_eu.MantaPay.Transfer.Fungible.{update_public_balances}
use hackathon_parity_eu.MantaPay.Extrinsics.{
  AssetType, ft, sbt, TransferLedger, PostError, post_transaction, to_private, ledger_of,
  ft_transfer_ledger, public_transfer, private_transfer_asset, private_transfer,
}
use hackathon_parity_eu.MantaPay.Extrinsics.Shapes.{
  call_to_private, dispatch, Passes, dispatch-Passes, address_matches,
  private_transfer_asset-origin,
}
use hackathon_parity_eu.MantaPay.Extrinsics.PublicTransfer.{Holds, public_transfer-Holds}

abbrev with_accounts : List ℕ → List ℕ → List (ℕ × ℕ)
with_accounts [] values = []
with_accounts (a ∷ accounts) [] = []
with_accounts (a ∷ accounts) (v ∷ values) = (a, v) ∷ with_accounts accounts values

-- A post without proofs: the update of the public balances, and the event of a private transfer.
abbrev update_only :
    TransferLedger chain
    → AssetType
    → RawTransferPost numbers byte_codecs
    → List ℕ
    → List ℕ
    → Call (World chain) (Fault (PostError chain)) (PreprocessedEvent chain)
update_only ledger t post sources sinks w = elim post.asset_id [
  | none ↦ ok (PreprocessedEvent.private_transfer, w)
  | some id ↦
      elim (ledger.update_public_balances id (with_accounts sources post.sources)
        (with_accounts sinks post.sinks) w) [
          | ok (u, w') ↦ ok (PreprocessedEvent.private_transfer, w')
          | err panic ↦ err panic
          | err (error e) ↦ err (error (from_transfer_ledger_error e))
        ]
]

abbrev deposit : TransferPost numbers
deposit = record {
  authorization_signature = none;
  asset_id = some (field 8);
  sources = (30 ∷ replicate 15 0) ∷ [];
  sender_posts = [];
  receiver_posts = record { utxo = 7; full_incoming_note = 1 } ∷ [];
  sinks = [];
  proof = 6 ∷ [];
}

abbrev deposited : World chain
deposited = record start {
  balances = record { native = []; non_native = ((8, 0), 30) ∷ ((8, 1), 70) ∷ [] };
  events = Event.private_transfer none ∷ [];
}

deposit_test :
    dispatch chain update_only (some 1) (call_to_private ft deposit) start ≡ ok (tt, deposited)
unfolding dispatch to_private post_transaction ledger_of ft_transfer_ledger convert
    transfer_post_decode receiver_post_decode update_public_balances get_metadata id_from_field
    to_le_bytes from_le_bytes metadata_view transfer ensure_valid bytes_discrete ℕ_discrete
    nat_pair_discrete
deposit_test = refl

dispatch-Passes_example : Passes chain update_only 1 (call_to_private ft deposit) start deposited
dispatch-Passes_example =
    dispatch-Passes chain update_only 1 (call_to_private ft deposit) start deposited deposit_test

abbrev item_asset : Asset
item_asset = record { id = field 9; value = 1 ∷ replicate 15 0 }

abbrev item_moved : World chain
item_moved = record start { items = ((3, 4), 2) ∷ []; events = Event.transfer item_asset 1 2 ∷ [] }

item_test : public_transfer chain (some 1) item_asset 2 start ≡ ok (tt, item_moved)
unfolding public_transfer id_from_field to_le_bytes from_le_bytes metadata_view Item.owner
    Item.transfer bytes_discrete ℕ_discrete nat_pair_discrete
item_test = refl

public_transfer-Holds_example :
    (id : ℕ) × (meta : Metadata chain) × (id_from_field item_asset.id ≡ some id)
    × (chain.get_metadata id ≡ some meta)
    × ((metadata_view meta).is_fungible ≡ false → Holds chain 1 meta start)
    × (item_moved.pay ≡ start.pay)
    × (item_moved.events ≡ start.events ++ Event.transfer item_asset 1 2 ∷ [])
public_transfer-Holds_example =
    public_transfer-Holds chain 1 2 item_asset start item_moved item_test

-- The soul-bound item 10 has the address of origin 5.
abbrev transfer_post : TransferPost numbers
transfer_post = record {
  authorization_signature = none;
  asset_id = none;
  sources = [];
  sender_posts =
      record {
        utxo_accumulator_output = field 1;
        nullifier_commitment = field 2;
        outgoing_note = 3;
      }
      ∷ record {
        utxo_accumulator_output = field 1;
        nullifier_commitment = field 4;
        outgoing_note = 5;
      }
      ∷ [];
  receiver_posts =
      record { utxo = 7; full_incoming_note = 1 }
      ∷ record { utxo = 8; full_incoming_note = 1 }
      ∷ [];
  sinks = [];
  proof = 6 ∷ [];
}

abbrev transferred : World chain
transferred = record start { events = Event.private_transfer (some 1) ∷ [] }

transferred_test :
    private_transfer_asset chain update_only (some 1) 10 sbt (5 ∷ []) transfer_post start
    ≡ ok (tt, transferred)
unfolding private_transfer_asset post_transaction convert transfer_post_decode sender_post_decode
    receiver_post_decode metadata_view bytes_discrete ℕ_discrete
transferred_test = refl

private_transfer_asset-origin_example :
    ((meta : Metadata chain) × (chain.get_metadata 10 ≡ some meta)
      × (is_some (metadata_view meta).get_origin_account ≡ true)
      × (address_matches chain update_only meta (5 ∷ []) ≡ true))
    × (private_transfer chain update_only (some 1) sbt transfer_post start ≡ ok (tt, transferred))
private_transfer_asset-origin_example =
    private_transfer_asset-origin chain update_only 1 10 sbt (5 ∷ []) transfer_post start
      transferred transferred_test
