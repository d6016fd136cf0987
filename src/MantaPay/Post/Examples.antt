-- ===== src/MantaPay/Post/Examples.antt =====
-- The encoded posts of pallets/manta-pay at concrete inputs.
use hackathon_parity_eu.Prelude.{◌≡◌, refl, arith, some, none, [], ◌∷◌, replicate}
use hackathon_parity_eu.MantaPay.AssetId.{to_le_bytes}
use hackathon_parity_eu.MantaPay.Sample.{numbers, field}
use hackathon_parity_eu.MantaPay.Sample.Chain.{byte_codecs}
use hackathon_parity_eu.MantaPay.Post.{
  TransferPost, RawTransferPost, transfer_post_encode, transfer_post_decode, receiver_post_encode,
  source, construct_asset,
}
use hackathon_parity_eu.MantaPay.Post.RoundTrip.{
  AreLossless, transfer_post_decode-transfer_post_encode,
}

-- A deposit of 30 of the asset 8.
abbrev deposit : RawTransferPost numbers byte_codecs
deposit = record {
  authorization_signature = none;
  asset_id = some 8;
  sources = 30 ∷ [];
  sender_posts = [];
  receiver_posts = record { utxo = 7; note = 1 } ∷ [];
  sinks = [];
  proof = 6;
}

abbrev encoded_deposit : TransferPost numbers
encoded_deposit = record {
  authorization_signature = none;
  asset_id = some (field 8);
  sources = (30 ∷ replicate 15 0) ∷ [];
  sender_posts = [];
  receiver_posts = record { utxo = 7; full_incoming_note = 1 } ∷ [];
  sinks = [];
  proof = 6 ∷ [];
}

encode_test : transfer_post_encode numbers byte_codecs deposit ≡ some encoded_deposit
unfolding transfer_post_encode receiver_post_encode to_le_bytes
encode_test = refl

source_test :
    source numbers encoded_deposit 0 ≡ some (record { id = field 8; value = 30 ∷ replicate 15 0 })
unfolding source construct_asset
source_test = refl

lossless : AreLossless numbers byte_codecs
lossless = record {
  fp = λ a b h. ground arith;
  group = λ a b h. ground arith;
  scalar = λ a b h. ground arith;
  proof = λ a b h. ground arith;
  utxo = λ a b h. ground arith;
  note = λ a b h. ground arith;
  outgoing_note = λ a b h. ground arith;
}

transfer_post_decode-transfer_post_encode_example :
    transfer_post_decode numbers byte_codecs encoded_deposit ≡ some deposit
transfer_post_decode-transfer_post_encode_example =
    transfer_post_decode-transfer_post_encode numbers byte_codecs lossless deposit encoded_deposit
      (ground arith) tt encode_test
