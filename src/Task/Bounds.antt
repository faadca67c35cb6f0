-- ===== src/Task/Bounds.antt =====
-- The expiry of the proof that a task drafts.
use atp_python.Base.{◌≡◌, refl, subst, ℕ, ◌+◌, ◌*◌, ◌<◌, String, some, map, arith}
use atp_python.Python.Exceptions.{ok, ok_injective, bind_returned}
use atp_python.Python.Json.{ℤ, pos, negsuc}
use atp_python.Python.DateTime.{DateTime, shift_seconds, add_seconds, second, end_of_time}
use atp_python.Hashing.{compute_dependencies_hash, model}
use atp_python.Client.{Client}
use atp_python.Task.{Task, Draft, draft, registered_system}

-- The second clock reading is so many seconds after the first, or before it where the number is
-- negative.
abbrev pub Apart : ℤ → ℕ → ℕ → Type 0
Apart (pos s) m n = n ≡ m + s * second
Apart (negsuc k) m n = n + (k + 1) * second ≡ m

shift_seconds-ok :
    (d e : DateTime) (s : ℤ)
    → d.micros < end_of_time
    → shift_seconds d s ≡ ok e
    → Apart s d.micros e.micros × (e.utcoffset ≡ d.utcoffset) × (e.micros < end_of_time)
unfolding shift_seconds add_seconds
shift_seconds-ok d e (pos s) bounded h = ground arith
shift_seconds-ok d e (negsuc k) bounded h = ground arith

module _ (sha256 : String → String) where
  -- A draft that is made when the clock reads a time of the calendar is dated by this reading, and its
  -- proof expires exactly the time to live after it, or before it where the time to live is negative,
  -- on a clock with the same offset and before the end of the year 9999: nothing wraps around.
  pub draft-expires_at :
      (client : Client) (t : Task) (text : String) (now : DateTime) (d : Draft)
      → now.micros < end_of_time
      → draft sha256 client t text now ≡ ok d
      → (d.stored.created_at ≡ now)
        × (d.sketch.timestamp ≡ now)
        × Apart t.config.proof_ttl_seconds now.micros d.stored.expires_at.micros
        × (d.stored.expires_at.utcoffset ≡ now.utcoffset)
        × (d.stored.expires_at.micros < end_of_time)
  unfolding draft
  draft-expires_at client t text now d bounded h =
      let (id, _, h1) = bind_returned (registered_system client) _ h in
      let (deps, _, h2) =
        bind_returned (compute_dependencies_hash sha256 (some (map model t.dependencies))) _ h1 in
      let (expiry, lives, h3) = bind_returned (shift_seconds now t.config.proof_ttl_seconds) _ h2 in
      let (exact, same, within) =
        shift_seconds-ok now expiry t.config.proof_ttl_seconds bounded lives in
      subst
        (λ (d : Draft).
          (d.stored.created_at ≡ now)
          × (d.sketch.timestamp ≡ now)
          × Apart t.config.proof_ttl_seconds now.micros d.stored.expires_at.micros
          × (d.stored.expires_at.utcoffset ≡ now.utcoffset)
          × (d.stored.expires_at.micros < end_of_time))
        (ok_injective h3) (refl, refl, exact, same, within)
