-- ===== src/MantaPay/Extrinsics/Shapes.antt =====
-- The calls of pallets/manta-pay/src/lib.rs that post a transfer: the shapes they let through.
use hackathon_parity_eu.Prelude.{
  ℕ, ◌≡◌, ◌<◌, refl, Bytes, Bool, true, false, Option, none, some, List, [], ◌∷◌, ok, Call,
  for_each, ltb, length, All, arith, Bool-cases, Option-cases, Result-cases, inl, inr, beq,
  bytes_key, is_some, ltb→lt,
}
use hackathon_parity_eu.Assets.Metadata.{metadata_view}
use hackathon_parity_eu.MantaPay.AssetId.{from_le_bytes}
use hackathon_parity_eu.MantaPay.Post.{TransferPost, RawTransferPost}
use hackathon_parity_eu.MantaPay.Transfer.{
  Runtime, Fault, AccountId, PreprocessedEvent, World, Metadata,
}
use hackathon_parity_eu.MantaPay.Extrinsics.{
  AssetType, TransferLedger, PostError, Dispatch, post_transaction, to_private, to_public,
  private_transfer, private_transfer_asset, is_empty, ensure_positive, to_private_shape,
  to_public_shape, private_shape,
}

module _ (r : Runtime)
    (post_with : TransferLedger r
      → AssetType
      → RawTransferPost r.crypto r.codecs
      → List (AccountId r)
      → List (AccountId r)
      → Call (World r) (Fault (PostError r)) (PreprocessedEvent r)) where
  -- Whether the address is the asset's address of origin.
  abbrev pub address_matches : Metadata r → Bytes → Bool
  address_matches meta address = elim (metadata_view meta).get_origin_zkaddress [
    | none ↦ false
    | some x ↦ beq address x
  ]

  -- A call that posts a transfer, with its arguments.
  pub data Extrinsic : Type 0 where
    call_to_private : AssetType → TransferPost r.crypto → Extrinsic
    call_to_public : AssetType → TransferPost r.crypto → Extrinsic
    call_private_transfer : AssetType → TransferPost r.crypto → Extrinsic
    call_private_transfer_asset : ℕ → AssetType → Bytes → TransferPost r.crypto → Extrinsic

  unfoldable pub dispatch : Option (AccountId r) → Extrinsic → Dispatch r (Unit {0})
  dispatch origin (call_to_private t post) = to_private r post_with origin t post
  dispatch origin (call_to_public t post) = to_public r post_with origin t post
  dispatch origin (call_private_transfer t post) = private_transfer r post_with origin t post
  dispatch origin (call_private_transfer_asset id t address post) =
      private_transfer_asset r post_with origin id t address post

  abbrev pub post_of : Extrinsic → TransferPost r.crypto
  post_of (call_to_private t post) = post
  post_of (call_to_public t post) = post
  post_of (call_private_transfer t post) = post
  post_of (call_private_transfer_asset id t address post) = post

  abbrev pub type_of : Extrinsic → AssetType
  type_of (call_to_private t post) = t
  type_of (call_to_public t post) = t
  type_of (call_private_transfer t post) = t
  type_of (call_private_transfer_asset id t address post) = t

  -- The accounts that pay in, those that are paid, and the one that the event names, by the signer.
  abbrev pub givers : AccountId r → Extrinsic → List (AccountId r)
  givers a (call_to_private t post) = a ∷ []
  givers a _ = []

  abbrev pub takers : AccountId r → Extrinsic → List (AccountId r)
  takers a (call_to_public t post) = a ∷ []
  takers a _ = []

  abbrev pub named : AccountId r → Extrinsic → Option (AccountId r)
  named a (call_private_transfer t post) = some a
  named a (call_private_transfer_asset id t address post) = some a
  named a _ = none

  abbrev pub ArePositive : List Bytes → Type 0
  ArePositive = All (λ v. 0 < from_le_bytes v)

  is_empty-length : {A : Type 0} (xs : List A) → is_empty xs ≡ true → length xs ≡ 0
  is_empty-length [] h = refl
  is_empty-length (x ∷ xs) h = absurd (ground arith)

  ArePositive-empty : (xs : List Bytes) → is_empty xs ≡ true → ArePositive xs
  ArePositive-empty [] h = tt
  ArePositive-empty (x ∷ xs) h = absurd (ground arith)

  each_positive :
      (values : List Bytes) (w w' : World r)
      → for_each (ensure_positive r post_with) values w ≡ ok (tt, w')
      → ArePositive values × (w ≡ w')
  each_positive [] w w' h = (tt, ground arith)
  each_positive (v ∷ values) w w' h = elim (Bool-cases (ltb 0 (from_le_bytes v))) [
    | inr e ↦ absurd (ground arith)
    | inl e ↦
        let (rest, same) = each_positive values w w' (ground arith) in
        ((ltb→lt 0 (from_le_bytes v) e, rest), same)
  ]

  -- What a call lets through: as many public values as accounts, each above zero, and the post itself.
  abbrev pub Passes : AccountId r → Extrinsic → World r → World r → Type 0
  Passes a e w w' =
      (length (post_of e).sources ≡ length (givers a e))
      × (length (post_of e).sinks ≡ length (takers a e))
      × ArePositive (post_of e).sources
      × ArePositive (post_of e).sinks
      × (post_transaction r post_with (named a e) (givers a e) (takers a e) (post_of e) (type_of e)
            w
          ≡ ok (tt, w'))

  to_private-Passes :
      (a : AccountId r) (t : AssetType) (post : TransferPost r.crypto) (w w' : World r)
      → to_private r post_with (some a) t post w ≡ ok (tt, w')
      → Passes a (call_to_private t post) w w'
  unfolding to_private
  to_private-Passes a t post w w' h = elim (Bool-cases (to_private_shape r post)) [
    | inr g ↦ absurd (ground arith)
    | inl g ↦ elim (Result-cases (for_each (ensure_positive r post_with) post.sources w)) [
      | inr (e, stop) ↦ absurd (ground arith)
      | inl ((u, w₁), go) ↦
          let (positive, same) = each_positive post.sources w w₁ go in
          let no_sinks : is_empty post.sinks ≡ true = ground arith in
          (
            ground arith,
            is_empty-length post.sinks no_sinks,
            positive,
            ArePositive-empty post.sinks no_sinks,
            ground arith,
          )
    ]
  ]

  to_public-Passes :
      (a : AccountId r) (t : AssetType) (post : TransferPost r.crypto) (w w' : World r)
      → to_public r post_with (some a) t post w ≡ ok (tt, w')
      → Passes a (call_to_public t post) w w'
  unfolding to_public
  to_public-Passes a t post w w' h = elim (Bool-cases (to_public_shape r post)) [
    | inr g ↦ absurd (ground arith)
    | inl g ↦ elim (Result-cases (for_each (ensure_positive r post_with) post.sinks w)) [
      | inr (e, stop) ↦ absurd (ground arith)
      | inl ((u, w₁), go) ↦
          let (positive, same) = each_positive post.sinks w w₁ go in
          let no_sources : is_empty post.sources ≡ true = ground arith in
          (
            is_empty-length post.sources no_sources,
            ground arith,
            ArePositive-empty post.sources no_sources,
            positive,
            ground arith,
          )
    ]
  ]

  private_transfer-Passes :
      (a : AccountId r) (t : AssetType) (post : TransferPost r.crypto) (w w' : World r)
      → private_transfer r post_with (some a) t post w ≡ ok (tt, w')
      → Passes a (call_private_transfer t post) w w'
  unfolding private_transfer
  private_transfer-Passes a t post w w' h = elim (Bool-cases (private_shape r post)) [
    | inr g ↦ absurd (ground arith)
    | inl g ↦
        let no_sources : is_empty post.sources ≡ true = ground arith in
        let no_sinks : is_empty post.sinks ≡ true = ground arith in
        (
          is_empty-length post.sources no_sources,
          is_empty-length post.sinks no_sinks,
          ArePositive-empty post.sources no_sources,
          ArePositive-empty post.sinks no_sinks,
          ground arith,
        )
  ]

  -- A successful `private_transfer_asset` is of an asset that the registry knows, with an account of
  -- origin and with the address of origin that the caller gives; and the plain `private_transfer` of
  -- the post succeeds with the same result.
  pub private_transfer_asset-origin :
      (a : AccountId r) (id : ℕ) (t : AssetType) (address : Bytes) (post : TransferPost r.crypto)
      (w w' : World r)
      → private_transfer_asset r post_with (some a) id t address post w ≡ ok (tt, w')
      → ((meta : Metadata r) × (r.get_metadata id ≡ some meta)
          × (is_some (metadata_view meta).get_origin_account ≡ true)
          × (address_matches meta address ≡ true))
        × (private_transfer r post_with (some a) t post w ≡ ok (tt, w'))
  unfolding private_transfer_asset private_transfer
  private_transfer_asset-origin a id t address post w w' h =
      elim (Option-cases (r.get_metadata id)) [
        | inl e ↦ absurd (ground arith)
        | inr (meta, e) ↦ elim (Option-cases (metadata_view meta).get_origin_zkaddress) [
          | inl z ↦ absurd (ground arith)
          | inr (zk, z) ↦ elim (Option-cases (metadata_view meta).get_origin_account) [
            | inl o ↦ absurd (ground arith)
            | inr (account, o) ↦ ((meta, e, ground arith, ground arith), ground arith)
          ]
        ]
      ]

  -- A signed call that succeeds has as many public values as accounts, each above zero: the signer alone
  -- pays in by `to_private` and is paid by `to_public`, and nobody by the private transfers; and
  -- `post_transaction`, at these accounts and the post, has the same result.
  pub dispatch-Passes :
      (a : AccountId r) (e : Extrinsic) (w w' : World r)
      → dispatch (some a) e w ≡ ok (tt, w')
      → Passes a e w w'
  unfolding dispatch
  dispatch-Passes a (call_to_private t post) w w' h = to_private-Passes a t post w w' h
  dispatch-Passes a (call_to_public t post) w w' h = to_public-Passes a t post w w' h
  dispatch-Passes a (call_private_transfer t post) w w' h = private_transfer-Passes a t post w w' h
  dispatch-Passes a (call_private_transfer_asset id t address post) w w' h =
      private_transfer-Passes a t post w w'
        (private_transfer_asset-origin a id t address post w w' h).1
