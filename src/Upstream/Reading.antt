-- ===== src/Upstream/Reading.antt =====
-- What is raised where a proof has not the parts of a task.
use atp_python.Base.{◌≡◌, refl, sym, subst, String, true, ◌||◌, Option, none, some, inl, inr, ◌⊎◌}
use atp_python.Base.Dict.{lookup}
use atp_python.Python.Exceptions.{
  Exception, Result, ok, raised, is_a, key_error, type_error, attribute_error, ◌>>=◌,
  raised_injective, raised≢ok,
}
use atp_python.Python.Json.{Json, obj, str, fields}
use atp_python.Wire.{item}
use atp_python.Wire.RawProof.{raw_task, read_task, text_uri}

-- An exception that the verification catches, or the one that it does not.
unfoldable pub Readable : Exception → Type 0
Readable e = (is_a e key_error || is_a e type_error ≡ true) ⊎ (e ≡ attribute_error)

bind-Readable :
    {A B : Type 0} (first : Result A) (next : A → Result B)
    → ((e : Exception) → first ≡ raised e → Readable e)
    → ((a : A) (e : Exception) → next a ≡ raised e → Readable e)
    → (e : Exception) → (first >>= next) ≡ raised e
    → Readable e
bind-Readable (ok a) next before after e h = after a e h
bind-Readable (raised d) next before after e h = before e cc

type-Readable :
    {A : Type 0} (e : Exception) → ◌≡◌ {A = Result A} (raised type_error) (raised e) → Readable e
unfolding Readable is_a
type-Readable e h = subst Readable (raised_injective h) (inl refl)

found_or_key_error : Option Json → Result Json
found_or_key_error none = raised key_error
found_or_key_error (some v) = ok v

found-Readable : (v : Option Json) (e : Exception) → found_or_key_error v ≡ raised e → Readable e
unfolding Readable is_a found_or_key_error
found-Readable none e h = subst Readable (raised_injective h) (inl refl)
found-Readable (some v) e h = cc

item-Readable : (k : String) (v : Json) (e : Exception) → item k v ≡ raised e → Readable e
unfolding found_or_key_error
item-Readable k (obj fs) e h = found-Readable (lookup k (fields fs)) e h
item-Readable k Json.null e h = type-Readable e h
item-Readable k (Json.bool b) e h = type-Readable e h
item-Readable k (Json.int n) e h = type-Readable e h
item-Readable k (str s) e h = type-Readable e h
item-Readable k (Json.arr vs) e h = type-Readable e h

uri-Readable :
    (e : Exception) → ◌≡◌ {A = Result String} (raised attribute_error) (raised e) → Readable e
unfolding Readable
uri-Readable e h = subst Readable (raised_injective h) (inr refl)

text_uri-Readable : (v : Json) (e : Exception) → text_uri v ≡ raised e → Readable e
text_uri-Readable (str s) e h = cc
text_uri-Readable Json.null e h = uri-Readable e h
text_uri-Readable (Json.bool b) e h = uri-Readable e h
text_uri-Readable (Json.int n) e h = uri-Readable e h
text_uri-Readable (Json.arr vs) e h = uri-Readable e h
text_uri-Readable (obj fs) e h = uri-Readable e h

pub read_task-Readable : (v : Json) (e : Exception) → read_task v ≡ raised e → Readable e
unfolding read_task raw_task
read_task-Readable v =
    bind-Readable _ _ (bind-Readable _ _ (item-Readable "proof_data" v) (item-Readable "task"))
      (λ task. bind-Readable _ _ (item-Readable "system_uri" task) (λ uri.
        bind-Readable _ _ (item-Readable "task_id" task) (λ id.
          bind-Readable _ _ (item-Readable "invocation" task) (λ inv.
            bind-Readable _ _ (item-Readable "invocation_hash" task) (λ inv_hash.
              bind-Readable _ _ (item-Readable "outcome" task) (λ out.
                bind-Readable _ _ (item-Readable "outcome_hash" task) (λ out_hash.
                  bind-Readable _ _ (text_uri-Readable uri)
                    (λ s e h. absurd (raised≢ok (sym h))))))))))
