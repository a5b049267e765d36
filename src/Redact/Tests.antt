-- ===== src/Redact/Tests.antt =====
-- Objects that point to themselves, that are shared, and whose keys are written in another way.
use auto_ops.Prelude.{◌≡◌, refl, true, some, [], ◌∷◌}
use auto_ops.Redact.{
  Heap, primitive, ref, error, array, entries, Out, kept, redacted, circular, error_out, array_out,
  record_out, nil, cons, end, field, Seen, redact_secrets,
}
use auto_ops.Redact.Laws.{shows_no_secret, redact_secrets-shows_no_secret}

abbrev request : Heap
request =
    entries (
      ("userId", primitive "u1")
      ∷ ("accessToken", primitive "abc")
      ∷ ("self", ref 0)
      ∷ ("cause", ref 1)
      ∷ [])
    ∷ error "TypeError"
    ∷ []

redacts :
    redact_secrets request (ref 0)
    ≡ some (
      record_out (
          field "userId" (kept "u1") (
            field "accessToken" redacted
              (field "self" circular (field "cause" (error_out "TypeError" redacted) end)))),
      1 ∷ 0 ∷ [],
    )
unfolding redact_secrets
redacts = refl

-- An object that two places share is no cycle, but its second place is marked as one.
abbrev shared : Heap
shared = array (ref 1 ∷ ref 1 ∷ []) ∷ entries (("name", primitive "web") ∷ []) ∷ []

shared_twice :
    redact_secrets shared (ref 0)
    ≡ some (
      array_out (cons (record_out (field "name" (kept "web") end)) (cons circular nil)),
      1 ∷ 0 ∷ [],
    )
unfolding redact_secrets
shared_twice = refl

-- The list of parts has `private_key` and no `privatekey`.
camel_case :
    redact_secrets (entries (("privateKey", primitive "MIIE") ∷ []) ∷ []) (ref 0)
    ≡ some (record_out (field "privateKey" (kept "MIIE") end), 0 ∷ [])
unfolding redact_secrets
camel_case = refl

redact_secrets-shows_no_secret_example :
    (out : Out) × (seen : Seen) × (redact_secrets request (ref 0) ≡ some (out, seen))
    × (shows_no_secret out ≡ true)
redact_secrets-shows_no_secret_example = redact_secrets-shows_no_secret request (ref 0)
