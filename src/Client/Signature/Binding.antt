-- ===== src/Client/Signature/Binding.antt =====
-- What a signature of the Exchange binds: the fields that are joined by bars to the signed text.
use atp_python.Base.{String, ◌<>◌, ◌≡◌, ◌↔◌}
use atp_python.Python.DateTime.{DateTime, isoformat}
use atp_python.Python.DateTime.Utc.{IsUtc, isoformat_injective}
use atp_python.Models.{Commit}
use atp_python.Hashing.{proof_message, sketch_parts, compute_sketch_hash}
use atp_python.Hashing.Binding.{
  NoBar, cut_bar, IsPlain, SameParts, Separates, compute_proof_hash_iff,
}
use atp_python.Client.Signature.{signed_message}

module _ (sha256 : String → String) where
  -- No field that is joined holds a bar: they are UUIDs, identifiers and digests.
  pub record IsJoinable (c : Commit) : Type 0 where
    pub id : NoBar c.id
    pub task_id : NoBar c.task_id
    pub system_id : NoBar c.system_id
    pub digest : NoBar (compute_sketch_hash sha256 c.proof_sketch)
    pub parts : IsPlain (sketch_parts c.proof_sketch)

  -- The two agree in all that is signed.
  pub record SameSigned (c d : Commit) (at then_at : DateTime) : Type 0 where
    pub id : c.id ≡ d.id
    pub task_id : c.task_id ≡ d.task_id
    pub system_id : c.system_id ≡ d.system_id
    pub parts : SameParts (sketch_parts c.proof_sketch) (sketch_parts d.proof_sketch)
    pub cataloged_at : at ≡ then_at

  module _ (c d : Commit) (at later : DateTime) (plain_c : IsJoinable c) (plain_d : IsJoinable d)
      (at_c : IsUtc at) (at_d : IsUtc later)
      (separates : Separates sha256
        (proof_message (sketch_parts c.proof_sketch))
        (proof_message (sketch_parts d.proof_sketch))) where
    same_hash :
        (compute_sketch_hash sha256 c.proof_sketch ≡ compute_sketch_hash sha256 d.proof_sketch)
        ↔ SameParts (sketch_parts c.proof_sketch) (sketch_parts d.proof_sketch)
    unfolding compute_sketch_hash
    same_hash =
        compute_proof_hash_iff sha256 (sketch_parts c.proof_sketch) (sketch_parts d.proof_sketch)
          plain_c.parts plain_d.parts separates

    signed_message_injective :
        signed_message sha256 c at ≡ signed_message sha256 d later → SameSigned c d at later
    unfolding signed_message
    signed_message_injective e =
        let (id, e₁) = cut_bar c.id d.id _ _ plain_c.id plain_d.id e in
        let (task, e₂) = cut_bar c.task_id d.task_id _ _ plain_c.task_id plain_d.task_id e₁ in
        let (system, e₃) =
          cut_bar c.system_id d.system_id _ _ plain_c.system_id plain_d.system_id e₂ in
        let (hash, text) =
          cut_bar (compute_sketch_hash sha256 c.proof_sketch)
            (compute_sketch_hash sha256 d.proof_sketch) _ _ plain_c.digest plain_d.digest e₃ in
        record {
          id = id;
          task_id = task;
          system_id = system;
          parts = same_hash.0 hash;
          cataloged_at = isoformat_injective at later at_c at_d text;
        }

    signed_message-SameSigned :
        SameSigned c d at later → signed_message sha256 c at ≡ signed_message sha256 d later
    unfolding signed_message
    signed_message-SameSigned same =
        let hash = same_hash.1 same.parts in
        λ i.
          same.id i
          <> ("|"
              <> (same.task_id i
                  <> ("|"
                      <> (same.system_id i
                          <> ("|" <> (hash i <> ("|" <> isoformat (same.cataloged_at i))))))))

    -- Of commits whose joined fields hold no bar, whose times of cataloguing are of UTC within the
    -- calendar, and whose hashed messages the digest function tells apart: the signed texts are equal
    -- exactly when the commits agree in their id, task and system, in all that the proof hash binds,
    -- and in the time of cataloguing.
    pub signed_message_iff :
        (signed_message sha256 c at ≡ signed_message sha256 d later) ↔ SameSigned c d at later
    signed_message_iff = (signed_message_injective, signed_message-SameSigned)
