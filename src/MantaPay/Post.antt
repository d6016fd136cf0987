-- ===== src/MantaPay/Post.antt =====
-- pallets/manta-pay/src/types.rs: the encoded form of a transfer post, and the conversions between it
-- and the post of the `manta-pay` crate.
pub mod RoundTrip
pub mod Examples
use hackathon_parity_eu.Prelude.{ℕ, Option, none, some, List, [], ◌∷◌, map, Bytes, get_elem?}
use hackathon_parity_eu.MantaPay.Pallet.{Crypto, Nullifier}
use hackathon_parity_eu.MantaPay.AssetId.{to_le_bytes, from_le_bytes}

-- `?` on an optional result, and `collect` of a list of them.
abbrev pub and_then : {A B : Type 0} → Option A → (A → Option B) → Option B
and_then none f = none
and_then (some a) f = f a

abbrev pub collect : {A : Type 0} → List (Option A) → Option (List A)
collect [] = some []
collect (o ∷ os) = and_then o λ a. and_then (collect os) λ rest. some (a ∷ rest)

-- `.map(f).transpose()`
abbrev pub transpose : {A B : Type 0} → (A → Option B) → Option A → Option (Option B)
transpose f none = some none
transpose f (some a) = and_then (f a) λ b. some (some b)

-- The codecs of groups, scalars and proofs, and the conversions back to the types of the protocol.
pub record Codecs (k : Crypto) : Type 1 where
  pub Group : Type 0
  pub Scalar : Type 0
  pub Proof : Type 0
  pub group_encode : Group → Option Bytes
  pub group_decode : Bytes → Option Group
  pub scalar_encode : Scalar → Option Bytes
  pub scalar_decode : Bytes → Option Scalar
  pub proof_encode : Proof → Option Bytes
  pub proof_decode : Bytes → Option Proof
  pub utxo_try_into : k.Utxo → Option k.RawUtxo
  pub note_try_into : k.FullIncomingNote → Option k.RawNote
  pub outgoing_note_try_into : k.OutgoingNote → Option k.RawOutgoingNote

-- The encoded types, of types.rs.
pub record AuthorizationSignature : Type 0 where
  pub authorization_key : Bytes
  pub scalar : Bytes
  pub nonce_point : Bytes

pub record Asset : Type 0 where
  pub id : Bytes
  pub value : Bytes

module _ (k : Crypto) where
  pub record SenderPost : Type 0 where
    pub utxo_accumulator_output : Bytes
    pub nullifier_commitment : Bytes
    pub outgoing_note : k.OutgoingNote

  pub record ReceiverPost : Type 0 where
    pub utxo : k.Utxo
    pub full_incoming_note : k.FullIncomingNote

  pub record TransferPost : Type 0 where
    pub authorization_signature : Option AuthorizationSignature
    pub asset_id : Option Bytes
    pub sources : List Bytes
    pub sender_posts : List SenderPost
    pub receiver_posts : List ReceiverPost
    pub sinks : List Bytes
    pub proof : Bytes

  -- The types of the crate: `utxo::AuthorizationSignature` and `config::{SenderPost, ReceiverPost,
  -- TransferPost}`.
  pub record RawSignature (d : Codecs k) : Type 0 where
    pub authorization_key : d.Group
    pub scalar : d.Scalar
    pub nonce_point : d.Group

  pub record RawSenderPost : Type 0 where
    pub utxo_accumulator_output : k.Fp
    pub nullifier : Nullifier k

  pub record RawReceiverPost : Type 0 where
    pub utxo : k.RawUtxo
    pub note : k.RawNote

  pub record RawTransferPost (d : Codecs k) : Type 0 where
    pub authorization_signature : Option (RawSignature d)
    pub asset_id : Option k.Fp
    pub sources : List ℕ
    pub sender_posts : List RawSenderPost
    pub receiver_posts : List RawReceiverPost
    pub sinks : List ℕ
    pub proof : d.Proof

  -- `TransferPost::source` and `TransferPost::sink`.
  pub construct_asset : TransferPost → Bytes → Option Asset
  construct_asset post value = and_then post.asset_id λ id. some (record { id = id; value = value })

  pub source : TransferPost → ℕ → Option Asset
  source post i = and_then (get_elem? post.sources i) (construct_asset post)

  pub sink : TransferPost → ℕ → Option Asset
  sink post i = and_then (get_elem? post.sinks i) (construct_asset post)

  pub sender_post_encode : RawSenderPost → Option SenderPost
  sender_post_encode post = and_then (k.fp_encode post.utxo_accumulator_output) λ output.
      and_then (k.fp_encode post.nullifier.commitment) λ commitment.
        and_then (k.outgoing_note_try_from post.nullifier.outgoing_note) λ note. some (record {
          utxo_accumulator_output = output;
          nullifier_commitment = commitment;
          outgoing_note = note;
        })

  pub receiver_post_encode : RawReceiverPost → Option ReceiverPost
  receiver_post_encode post = and_then (k.utxo_try_from post.utxo) λ utxo.
      and_then (k.note_try_from post.note)
        λ note. some (record { utxo = utxo; full_incoming_note = note })

  module _ (d : Codecs k) where
    unfoldable pub sender_post_decode : SenderPost → Option RawSenderPost
    sender_post_decode post = and_then (k.fp_decode post.utxo_accumulator_output) λ output.
        and_then (k.fp_decode post.nullifier_commitment) λ commitment.
          and_then (d.outgoing_note_try_into post.outgoing_note) λ note. some (record {
            utxo_accumulator_output = output;
            nullifier = record { commitment = commitment; outgoing_note = note };
          })

    unfoldable pub receiver_post_decode : ReceiverPost → Option RawReceiverPost
    receiver_post_decode post = and_then (d.utxo_try_into post.utxo) λ utxo.
        and_then (d.note_try_into post.full_incoming_note)
          λ note. some (record { utxo = utxo; note = note })

    pub signature_encode : RawSignature d → Option AuthorizationSignature
    signature_encode signature = and_then (d.group_encode signature.authorization_key) λ key.
        and_then (d.scalar_encode signature.scalar) λ scalar.
          and_then (d.group_encode signature.nonce_point)
            λ nonce. some (record { authorization_key = key; scalar = scalar; nonce_point = nonce })

    pub signature_decode : AuthorizationSignature → Option (RawSignature d)
    signature_decode signature = and_then (d.group_decode signature.authorization_key) λ key.
        and_then (d.scalar_decode signature.scalar) λ scalar.
          and_then (d.group_decode signature.nonce_point)
            λ nonce. some (record { authorization_key = key; scalar = scalar; nonce_point = nonce })

    pub transfer_post_encode : RawTransferPost d → Option TransferPost
    transfer_post_encode post =
        and_then (transpose signature_encode post.authorization_signature) λ signature.
          and_then (transpose k.fp_encode post.asset_id) λ id.
            and_then (collect (map sender_post_encode post.sender_posts)) λ senders.
              and_then (collect (map receiver_post_encode post.receiver_posts)) λ receivers.
                and_then (d.proof_encode post.proof) λ proof. some (record {
                  authorization_signature = signature;
                  asset_id = id;
                  sources = map (to_le_bytes 16) post.sources;
                  sender_posts = senders;
                  receiver_posts = receivers;
                  sinks = map (to_le_bytes 16) post.sinks;
                  proof = proof;
                })

    unfoldable pub transfer_post_decode : TransferPost → Option (RawTransferPost d)
    transfer_post_decode post = and_then (d.proof_decode post.proof) λ proof.
        and_then (transpose signature_decode post.authorization_signature) λ signature.
          and_then (transpose k.fp_decode post.asset_id) λ id.
            and_then (collect (map sender_post_decode post.sender_posts)) λ senders.
              and_then (collect (map receiver_post_decode post.receiver_posts)) λ receivers.
                some (record {
                  authorization_signature = signature;
                  asset_id = id;
                  sources = map from_le_bytes post.sources;
                  sender_posts = senders;
                  receiver_posts = receivers;
                  sinks = map from_le_bytes post.sinks;
                  proof = proof;
                })
