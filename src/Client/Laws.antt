-- ===== src/Client/Laws.antt =====
-- What a registration leaves behind, and what a commit then sends.
use atp_python.Base.{
  subst, String, ◌≡◌, refl, ap, ◌∙◌, sym, true, none, some, eq_refl, is_some, Option-cases, inl,
  inr,
}
use atp_python.Base.Dict.{lookup, lookup-insert}
use atp_python.Python.Exceptions.{atp_registration_error, Result, ok, ok_injective}
use atp_python.Python.Exec.{continue-post, continue, lift, pure, ◌>>=◌, ◌>>◌}
use atp_python.Python.DateTime.{DateTime}
use atp_python.Python.Json.{Json}
use atp_python.Models.{ProofSketch, SystemRegistration, default_classification}
use atp_python.Wire.{translate_ok, Response, Runtime, translate}
use atp_python.Wire.Records.{decode_registration}
use atp_python.Client.{
  read_registration, Registration, World, register_system, register_new, remember, Action,
  cached_registration, http, accept, update_client, post_registration, get_client,
}
use atp_python.Client.Commits.{prepare_sketch}

module _ (R : Runtime) where
  -- The client knows the registration under its name, with its URI and type.
  abbrev pub Remembers : Registration → SystemRegistration → World R → Type 0
  Remembers r reg w =
      (lookup r.name w.client.registered_systems ≡ some reg.system_id)
      × (lookup reg.system_id w.client.system_uris ≡ some reg.system_uri)
      × (lookup reg.system_id w.client.system_types ≡ some r.system_type)

  remember-Remembers :
      (r : Registration) (reg : SystemRegistration) (w : World R)
      → Remembers r reg (record w { client = remember R r.name r.system_type reg w.client })
  unfolding remember
  remember-Remembers r reg w = (
    rw (lookup-insert, eq_refl r.name),
    rw (lookup-insert, eq_refl reg.system_id),
    rw (lookup-insert, eq_refl reg.system_id),
  )

  abbrev keep : Registration → SystemRegistration → Action R SystemRegistration
  keep r registration = do
    update_client R (remember R r.name r.system_type registration)
    pure registration

  keep-Remembers :
      (r : Registration) (registration : SystemRegistration) (w : World R)
      (reg : SystemRegistration)
      → (keep r registration w).0 ≡ ok reg
      → Remembers r reg (keep r registration w).1
  keep-Remembers r registration w reg h =
      subst (λ g. Remembers r g (keep r registration w).1) (ok_injective h)
        (remember-Remembers r registration w)

  read_registration-Remembers :
      (r : Registration) (response : Response) (w : World R) (reg : SystemRegistration)
      → (read_registration R r response w).0 ≡ ok reg
      → Remembers r reg (read_registration R r response w).1
  unfolding read_registration
  read_registration-Remembers r response w =
      let accepted : Result Json × World R = accept R atp_registration_error response w in
      continue-post (Remembers r)
        (λ data'. do registration ← lift (decode_registration R data'); keep r registration)
        accepted
        λ data'.
          continue-post (Remembers r) (keep r) (decode_registration R data', accepted.1)
            λ registration. keep-Remembers r registration accepted.1

  register_new-Remembers :
      (r : Registration) (w : World R) (reg : SystemRegistration)
      → (register_new R r w).0 ≡ ok reg
      → Remembers r reg (register_new R r w).1
  unfolding register_new
  register_new-Remembers r w reg h =
      let h1 = (get_client w.loop w.client).0 in
      let w1 = (http R w).1 in
      let posted : Result Response × World R = post_registration R h1 r w1 in
      let body : Result SystemRegistration × World R = continue (read_registration R r) posted in
      let returns : translate atp_registration_error (λ _. body) w1 ≡ body =
        translate_ok atp_registration_error body w1 reg h in
      subst (λ x. Remembers r reg x.1) (sym returns)
        (continue-post (Remembers r) (read_registration R r) posted
          (λ response. read_registration-Remembers r response posted.1) reg
          (subst (λ x. x.0 ≡ ok reg) returns h))

  register_known :
      (r : Registration) (now : DateTime) (w : World R) (system_id : String)
      → lookup r.name w.client.registered_systems ≡ some system_id
      → register_system R r now w ≡ (ok (cached_registration R r w.client.config system_id now), w)
  unfolding register_system
  register_known r now w system_id known = rw (known, register_system) refl

  register_unknown :
      (r : Registration) (now : DateTime) (w : World R)
      → lookup r.name w.client.registered_systems ≡ none
      → register_system R r now w ≡ register_new R r w
  unfolding register_system
  register_unknown r now w unknown = rw (unknown, register_system) refl

  register_system-Remembers :
      (r : Registration) (now : DateTime) (w : World R) (reg : SystemRegistration)
      → lookup r.name w.client.registered_systems ≡ none
      → (register_system R r now w).0 ≡ ok reg
      → Remembers r reg (register_system R r now w).1
  register_system-Remembers r now w reg unknown h =
      let new = register_unknown r now w unknown in
      subst (λ x. Remembers r reg x.1) (sym new)
        (register_new-Remembers r w reg (subst (λ x. x.0 ≡ ok reg) new h))

  register_system-registered :
      (r : Registration) (now : DateTime) (w : World R) (reg : SystemRegistration)
      → (register_system R r now w).0 ≡ ok reg
      → lookup r.name (register_system R r now w).1.client.registered_systems ≡ some reg.system_id
  register_system-registered r now w reg h =
      elim (Option-cases (lookup r.name w.client.registered_systems)) [
        | inl unknown ↦ (register_system-Remembers r now w reg unknown h).0
        | inr (system_id, known) ↦
            let cached = register_known r now w system_id known in
            subst (λ x. lookup r.name x.1.client.registered_systems ≡ some reg.system_id)
              (sym cached)
              (known
                ∙ ap (λ g. some g.system_id) (ok_injective (subst (λ x. x.0 ≡ ok reg) cached h)))
      ]

  -- Once a registration returned, one under the same name, whatever else it asks for, returns the
  -- same system id, leaves the client and the other side of the network as they are, and so sends
  -- nothing.
  pub register_system-again :
      (r again : Registration) (now later : DateTime) (w : World R) (reg : SystemRegistration)
      → (register_system R r now w).0 ≡ ok reg
      → again.name ≡ r.name
      → (second : SystemRegistration) × (register_system R again later (register_system R r now w).1
          ≡ (ok second, (register_system R r now w).1))
        × (second.system_id ≡ reg.system_id)
  register_system-again r again now later w reg h same = (
    _,
    register_known again later (register_system R r now w).1 reg.system_id (
        ap (λ n. lookup n (register_system R r now w).1.client.registered_systems) same
        ∙ register_system-registered r now w reg h),
    refl,
  )

  -- After a new registration a sketch that is committed for it carries the URI that the Exchange gave,
  -- and a classification.
  pub prepare_sketch-registered :
      (r : Registration) (now : DateTime) (w : World R) (reg : SystemRegistration)
      (sketch : ProofSketch)
      → lookup r.name w.client.registered_systems ≡ none
      → (register_system R r now w).0 ≡ ok reg
      → ((prepare_sketch
            (register_system R r now w).1.client
            reg.system_id
            sketch).metadata.system_uri
          ≡ reg.system_uri)
        × (is_some
              (prepare_sketch
                (register_system R r now w).1.client
                reg.system_id
                sketch).metadata.classification
            ≡ true)
  unfolding prepare_sketch
  prepare_sketch-registered r now w reg sketch unknown h = (
    rw ((register_system-Remembers r now w reg unknown h).1, prepare_sketch) refl,
    (elim sketch.metadata.classification
        as (λ k. is_some (elim k [ none ↦ some default_classification | some k ↦ some k ]) ≡ true) [
          | none ↦ refl
          | some k ↦ refl
        ]),
  )
