-- ===== src/MantaPay/Post/RoundTrip.antt =====
-- The conversions of pallets/manta-pay/src/types.rs: a post comes back from its encoded form.
use hackathon_parity_eu.Prelude.{
  ℕ, ◌≡◌, ◌<◌, ◌^◌, refl, subst, ap, ap₂, Option, none, some, List, [], ◌∷◌, map, arith, All,
}
use hackathon_parity_eu.MantaPay.Pallet.{Crypto}
use hackathon_parity_eu.MantaPay.AssetId.{to_le_bytes, from_le_bytes, from-to_le_bytes, Fits-128}
use hackathon_parity_eu.MantaPay.Post.{
  Codecs, RawTransferPost, TransferPost, sender_post_encode, sender_post_decode,
  receiver_post_encode, receiver_post_decode, signature_encode, signature_decode,
  transfer_post_encode, transfer_post_decode, collect, transpose, and_then,
}

-- `decode` gives back what `encode` gives an encoding of.
abbrev pub IsLossless : {A B : Type 0} → (A → Option B) → (B → Option A) → Type 0
IsLossless {A} {B} encode decode = (a : A) (b : B) → encode a ≡ some b → decode b ≡ some a

some_injective : {A : Type 0} {a b : A} → some a ≡ some b → a ≡ b
some_injective {a} h = ap (λ o. elim o [ none ↦ a | some x ↦ x ]) h

and_then-some :
    {A B : Type 0} (o : Option A) (f : A → Option B) (b : B)
    → and_then o f ≡ some b
    → (a : A) × (o ≡ some a) × (f a ≡ some b)
and_then-some none f b h = absurd (ground arith)
and_then-some (some a) f b h = (a, refl, h)

collect-IsLossless :
    {A B : Type 0} (encode : A → Option B) (decode : B → Option A)
    → IsLossless encode decode
    → IsLossless (λ xs. collect (map encode xs)) (λ ys. collect (map decode ys))
collect-IsLossless encode decode law [] [] h = refl
collect-IsLossless encode decode law [] (y ∷ ys) h = absurd (ground arith)
collect-IsLossless encode decode law (x ∷ xs) ys h =
    let (y, e, h₁) = and_then-some (encode x) _ ys h in
    let (rest, e', h₂) = and_then-some (collect (map encode xs)) _ ys h₁ in
    subst (λ zs. collect (map decode zs) ≡ some (x ∷ xs)) (some_injective h₂)
      (rw (law x y e, collect-IsLossless encode decode law xs rest e'))

transpose-IsLossless :
    {A B : Type 0} (encode : A → Option B) (decode : B → Option A)
    → IsLossless encode decode
    → IsLossless (transpose encode) (transpose decode)
transpose-IsLossless encode decode law none none h = refl
transpose-IsLossless encode decode law none (some y) h = absurd (ground arith)
transpose-IsLossless encode decode law (some x) o h =
    let (y, e, h') = and_then-some (encode x) _ o h in
    subst (λ z. transpose decode z ≡ some (some x)) (some_injective h') (rw (law x y e))

map-le_bytes :
    (xs : List ℕ) → All (λ x. x < 2 ^ 128) xs → map from_le_bytes (map (to_le_bytes 16) xs) ≡ xs
map-le_bytes [] h = refl
map-le_bytes (x ∷ xs) h = ap₂ ◌∷◌ (from-to_le_bytes 16 x (Fits-128 x h.0)) (map-le_bytes xs h.1)

module _ (k : Crypto) (d : Codecs k) where
  -- The codecs of the crates decode what they encode.
  pub record AreLossless : Type 0 where
    pub fp : IsLossless k.fp_encode k.fp_decode
    pub group : IsLossless d.group_encode d.group_decode
    pub scalar : IsLossless d.scalar_encode d.scalar_decode
    pub proof : IsLossless d.proof_encode d.proof_decode
    pub utxo : IsLossless k.utxo_try_from d.utxo_try_into
    pub note : IsLossless k.note_try_from d.note_try_into
    pub outgoing_note : IsLossless k.outgoing_note_try_from d.outgoing_note_try_into

  module _ (laws : AreLossless) where
    sender_post-IsLossless : IsLossless (sender_post_encode k) (sender_post_decode k d)
    unfolding sender_post_encode sender_post_decode
    sender_post-IsLossless post encoded h =
        let (output, e₁, h₁) =
          and_then-some (k.fp_encode post.utxo_accumulator_output) _ encoded h in
        let (c, e₂, h₂) = and_then-some (k.fp_encode post.nullifier.commitment) _ encoded h₁ in
        let (note, e₃, h₃) =
          and_then-some (k.outgoing_note_try_from post.nullifier.outgoing_note) _ encoded h₂ in
        subst (λ z. sender_post_decode k d z ≡ some post) (some_injective h₃)
          (rw (
            laws.fp post.utxo_accumulator_output output e₁,
            laws.fp post.nullifier.commitment c e₂,
            laws.outgoing_note post.nullifier.outgoing_note note e₃,
          ))

    receiver_post-IsLossless : IsLossless (receiver_post_encode k) (receiver_post_decode k d)
    unfolding receiver_post_encode receiver_post_decode
    receiver_post-IsLossless post encoded h =
        let (utxo, e₁, h₁) = and_then-some (k.utxo_try_from post.utxo) _ encoded h in
        let (note, e₂, h₂) = and_then-some (k.note_try_from post.note) _ encoded h₁ in
        subst (λ z. receiver_post_decode k d z ≡ some post) (some_injective h₂)
          (rw (laws.utxo post.utxo utxo e₁, laws.note post.note note e₂))

    signature-IsLossless : IsLossless (signature_encode k d) (signature_decode k d)
    unfolding signature_encode signature_decode
    signature-IsLossless signature encoded h =
        let (key, e₁, h₁) =
          and_then-some (d.group_encode signature.authorization_key) _ encoded h in
        let (scalar, e₂, h₂) = and_then-some (d.scalar_encode signature.scalar) _ encoded h₁ in
        let (nonce, e₃, h₃) = and_then-some (d.group_encode signature.nonce_point) _ encoded h₂ in
        subst (λ z. signature_decode k d z ≡ some signature) (some_injective h₃)
          (rw (
            laws.group signature.authorization_key key e₁,
            laws.scalar signature.scalar scalar e₂,
            laws.group signature.nonce_point nonce e₃,
          ))

    -- A post whose public values fit 128 bits comes back from its encoded form, if the codecs of the
    -- fields, the groups, the scalars, the proofs, the UTXOs and the notes decode what they encode.
    pub transfer_post_decode-transfer_post_encode :
        (post : RawTransferPost k d) (encoded : TransferPost k)
        → All (λ v. v < 2 ^ 128) post.sources
        → All (λ v. v < 2 ^ 128) post.sinks
        → transfer_post_encode k d post ≡ some encoded
        → transfer_post_decode k d encoded ≡ some post
    unfolding transfer_post_encode transfer_post_decode
    transfer_post_decode-transfer_post_encode post encoded in_range out_range h =
        let (signature, e₁, h₁) =
          and_then-some (transpose (signature_encode k d) post.authorization_signature) _ encoded
            h in
        let (id, e₂, h₂) = and_then-some (transpose k.fp_encode post.asset_id) _ encoded h₁ in
        let (senders, e₃, h₃) =
          and_then-some (collect (map (sender_post_encode k) post.sender_posts)) _ encoded h₂ in
        let (receivers, e₄, h₄) =
          and_then-some (collect (map (receiver_post_encode k) post.receiver_posts)) _ encoded h₃ in
        let (proof, e₅, h₅) = and_then-some (d.proof_encode post.proof) _ encoded h₄ in
        subst (λ z. transfer_post_decode k d z ≡ some post) (some_injective h₅)
          (rw (
            laws.proof post.proof proof e₅,
            transpose-IsLossless (signature_encode k d) (signature_decode k d) signature-IsLossless
                post.authorization_signature signature e₁,
            transpose-IsLossless k.fp_encode k.fp_decode laws.fp post.asset_id id e₂,
            collect-IsLossless (sender_post_encode k) (sender_post_decode k d)
                sender_post-IsLossless post.sender_posts senders e₃,
            collect-IsLossless (receiver_post_encode k) (receiver_post_decode k d)
                receiver_post-IsLossless post.receiver_posts receivers e₄,
            map-le_bytes post.sources in_range,
            map-le_bytes post.sinks out_range,
          ))
