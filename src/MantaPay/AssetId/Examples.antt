-- ===== src/MantaPay/AssetId/Examples.antt =====
-- The asset ids of pallets/manta-pay at concrete inputs.
use hackathon_parity_eu.Prelude.{
  ◌≡◌, refl, arith, some, none, [], ◌∷◌, ◌++◌, replicate, bytes_discrete, ℕ_discrete,
}
use hackathon_parity_eu.MantaPay.AssetId.{
  id_from_field, field_from_id, to_le_bytes, from_le_bytes, id_from_field-field_from_id,
  field_from_id-id_from_field,
}

field_test : field_from_id 258 ≡ 2 ∷ 1 ∷ replicate 30 0
unfolding field_from_id to_le_bytes
field_test = refl

high_test : id_from_field (replicate 31 0 ++ 1 ∷ []) ≡ none
unfolding id_from_field to_le_bytes from_le_bytes bytes_discrete ℕ_discrete
high_test = refl

id_from_field-field_from_id_example : id_from_field (field_from_id 258) ≡ some 258
id_from_field-field_from_id_example = id_from_field-field_from_id 258 (ground arith)

field_from_id-id_from_field_example : field_from_id 258 ≡ 2 ∷ 1 ∷ replicate 30 0
unfolding id_from_field to_le_bytes from_le_bytes bytes_discrete ℕ_discrete
field_from_id-id_from_field_example =
    field_from_id-id_from_field (2 ∷ 1 ∷ replicate 30 0) 258 refl (ground arith) refl
